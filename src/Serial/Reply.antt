-- ===== src/Serial/Reply.antt =====
-- How the reader of esp01/serial.c comes to a line, and a command to its answer.
use esp_hostdriver.Prelude.{
  ℕ, zero, suc, ◌+◌, ◌-◌, ◌<◌, ◌≡◌, ◌≢◌, refl, ap, ap₂, ◌∙◌, sym, true, false, Option, List, [],
  ◌∷◌, ◌++◌, append_assoc, append-nil, length, length-append, All, ltb, ==_ne, if◌then◌else◌, arith,
}
use esp_hostdriver.Host.{CmdResult, inval, ok, err, busy, World, done, and_then, pure, ◌>>◌}
use esp_hostdriver.Serial.Line.{line_size, LineKind, line_kind}
use esp_hostdriver.Serial.Reader.{
  SerialClient, with_serial, tell, write_line, next_byte, read_byte, reply_result, parse_line,
  read_round, read_until_signal,
}
use esp_hostdriver.Serial.Command.{serial_cmd_wait, result_ret}

-- A state with another line in part and other bytes to come.
abbrev pub reading : World → List ℕ → List ℕ → World
reading w line input = record w { serial = record w.serial { line = line; input = input } }

-- A byte that neither ends a line nor starts a message.
abbrev pub IsPlain : ℕ → Type 0
IsPlain c = (c ≢ 10) × (c ≢ b':')

module _ (client : SerialClient) (before : List ℕ) where
  pub read_round-plain :
      (w : World) (line input : List ℕ) (c : ℕ)
      → IsPlain c
      → length line + 1 < line_size
      → read_round client before c (reading w line input)
        ≡ done false (reading w (line ++ c ∷ []) input)
  unfolding read_round
  read_round-plain w line input c plain fits =
      let room : ltb (length line + 1) line_size ≡ true = ground arith in
      rw (==_ne c 10 plain.0, ==_ne c b':' plain.1, room) refl

  -- The bytes of a line go to the line buffer one by one.
  read_until_signal-plain :
      (part : List ℕ) (k m : ℕ) (w : World) (line input : List ℕ)
      → All IsPlain part
      → length line + length part < line_size
      → k ≡ length part + m
      → read_until_signal client k before (reading w line (part ++ input))
        ≡ read_until_signal client m before (reading w (line ++ part) input)
  unfolding read_until_signal read_byte next_byte
  read_until_signal-plain [] k m w line input plain fits fuel =
      let same : k ≡ m = omega arith in
      ap₂ (λ f l. read_until_signal client f before (reading w l input)) same
        (sym (append-nil line))
  read_until_signal-plain (c ∷ part) zero m w line input plain fits fuel = absurd (omega arith)
  read_until_signal-plain (c ∷ part) (suc k) m w line input plain fits fuel =
      rw (read_round-plain w line (part ++ input) c plain.0 (omega arith)) (
        read_until_signal-plain part k m w (line ++ c ∷ []) input plain.1
          (omega (arith, length-append line (c ∷ []))) (omega arith)
        ∙ ap (λ l. read_until_signal client m before (reading w l input))
            (append_assoc line (c ∷ []) part))

  -- A line that the device may send while a command waits for an answer that is, or is not, `resp`:
  -- it fits into the buffer, holds no colon, and is no notice.
  pub record IsLine (line : List ℕ) : Type 0 where
    pub plain : All IsPlain line
    pub fits : length line + 1 < line_size
    pub is_other : line_kind before (line ++ 10 ∷ []) ≡ LineKind.other

  parse_line-other :
      (w : World) (line : List ℕ)
      → line_kind before line ≡ LineKind.other
      → parse_line client before line w ≡ tell (reply_result w.serial.response line) w
  unfolding parse_line
  parse_line-other w line o = rw (o, parse_line) refl

  read_round-end :
      (w : World) (line input : List ℕ) (r : CmdResult)
      → IsLine line
      → reply_result w.serial.response (line ++ 10 ∷ []) ≡ r
      → read_round client before 10 (reading w line input)
        ≡ and_then
            (tell r (reading w line input))
            (λ signalled. with_serial (λ s. record s { line = [] }) >> pure signalled)
  unfolding read_round
  read_round-end w line input r l is =
      let room : ltb (length line + 1) line_size ≡ true = ground (arith, l.fits) in
      rw (room, parse_line-other (reading w line input) (line ++ 10 ∷ []) l.is_other, is) refl

  -- The lines that are skipped, each with the newline that ends it.
  abbrev pub joined : List (List ℕ) → List ℕ
  joined [] = []
  joined (l ∷ ls) = l ++ 10 ∷ joined ls

  read_until_signal-line :
      (line input : List ℕ) (r : CmdResult) (k m : ℕ) (w : World)
      → IsLine line
      → reply_result w.serial.response (line ++ 10 ∷ []) ≡ r
      → k ≡ length line + suc m
      → read_until_signal client k before (reading w [] (line ++ 10 ∷ input))
        ≡ and_then
            (tell r (reading w [] input))
            (λ s. if s then pure tt else read_until_signal client m before)
  unfolding read_until_signal read_byte next_byte
  read_until_signal-line line input r k m w l is fuel =
      read_until_signal-plain line k (suc m) w [] (10 ∷ input) l.plain (omega (arith, l.fits)) fuel
      ∙ rw (read_round-end w line input r l is) (cleared r)
    where
      cleared :
          (r : CmdResult)
          → and_then
              (and_then
                (tell r (reading w line input))
                (λ signalled. with_serial (λ s. record s { line = [] }) >> pure signalled))
              (λ s. if s then pure tt else read_until_signal client m before)
            ≡ and_then
                (tell r (reading w [] input))
                (λ s. if s then pure tt else read_until_signal client m before)
      cleared inval = refl
      cleared ok = refl
      cleared err = refl
      cleared busy = refl

  -- Lines that are no answer to the command with the answer `resp`.
  abbrev pub Ignored : Option (List ℕ) → List (List ℕ) → Type 0
  Ignored resp = All (λ l. IsLine l × (reply_result resp (l ++ 10 ∷ []) ≡ inval))

  -- The result that an answer stands for, if it is one.
  abbrev pub Answers : Option (List ℕ) → List ℕ → CmdResult → Type 0
  Answers resp line r = IsLine line × (reply_result resp (line ++ 10 ∷ []) ≡ r) × (r ≢ inval)

  read_until_signal-answer :
      (skipped : List (List ℕ)) (line input : List ℕ) (r : CmdResult) (k : ℕ) (w : World)
      → Ignored w.serial.response skipped
      → Answers w.serial.response line r
      → length (joined skipped ++ line) < k
      → read_until_signal client k before (reading w [] (joined skipped ++ (line ++ 10 ∷ input)))
        ≡ done tt
            (record w { serial = record w.serial { line = []; input = input; cmd_result = r } })
  read_until_signal-answer [] line input r k w ign (l, is, some_answer) fuel =
      read_until_signal-line line input r k (k - length line - 1) w l is (omega arith)
      ∙ signalled r some_answer
    where
      signalled :
          (r : CmdResult)
          → r ≢ inval
          → and_then
              (tell r (reading w [] input))
              (λ s. if s then pure tt else read_until_signal client (k - length line - 1) before)
            ≡ done tt
                (record w { serial = record w.serial { line = []; input = input; cmd_result = r } })
      signalled inval h = absurd (h refl)
      signalled ok h = refl
      signalled err h = refl
      signalled busy h = refl
  read_until_signal-answer (s ∷ skipped) line input r k w ign a fuel =
      let long : length ((s ++ 10 ∷ joined skipped) ++ line)
          ≡ length s + suc (length (joined skipped ++ line)) =
        ap length (append_assoc s (10 ∷ joined skipped) line)
        ∙ length-append s (10 ∷ joined skipped ++ line) in
      rw
        (
          append_assoc s (10 ∷ joined skipped) (line ++ 10 ∷ input),
          read_until_signal-line s (joined skipped ++ (line ++ 10 ∷ input)) inval k
              (k - length s - 1) w ign.0.0 ign.0.1 (omega arith),
        )
        (read_until_signal-answer skipped line input r (k - length s - 1) w ign.1 a (omega arith))

  -- A command that waits while the device sends whole lines that are no answer and then one that is
  -- ends with the result of that answer, after a newline was written; what follows the answer is left
  -- to be read. The lines fit into the reader's buffer, hold no colon, and are no notice of a
  -- connection that opens or closes; the reader is at the start of a line.
  pub serial_cmd_wait-answer :
      (skipped : List (List ℕ)) (line input : List ℕ) (r : CmdResult) (w : World)
      → Ignored w.serial.response skipped
      → Answers w.serial.response line r
      → w.serial.line ≡ []
      → w.serial.input ≡ joined skipped ++ (line ++ 10 ∷ input)
      → serial_cmd_wait client before w
        ≡ done (result_ret r) (record w {
          serial = record w.serial {
            line = [];
            input = input;
            cmd_result = r;
            output = w.serial.output ++ 10 ∷ [];
          };
        })
  unfolding serial_cmd_wait write_line
  serial_cmd_wait-answer skipped line input r w ign a start coming =
      let v : World = record w {
        serial = record w.serial { output = w.serial.output ++ 10 ∷ [] };
      } in
      let fuel : length (joined skipped ++ line)
          < length (joined skipped ++ (line ++ 10 ∷ input)) + 1 =
        omega (
          arith,
          length-append (joined skipped) line,
          length-append (joined skipped) (line ++ 10 ∷ input),
          length-append line (10 ∷ input),
        ) in
      rw (start, coming, read_until_signal-answer skipped line input r _ v ign a fuel) refl
