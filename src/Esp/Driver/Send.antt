-- ===== src/Esp/Driver/Send.antt =====
-- `send` of esp01/esp01.c as a whole: the command that announces the bytes, and the bytes.
use esp_hostdriver.Prelude.{
  ℕ, ◌≡◌, refl, inl, inr, Bool-cases, Option-cases, none, some, List, [], ◌∷◌, ◌++◌, append-nil,
  ◌==◌, if◌then◌else◌,
}
use esp_hostdriver.Prelude.Codes.{codes}
use esp_hostdriver.Inet.{inet_ntoa}
use esp_hostdriver.Host.{
  Ptr, CmdResult, inval, ok, err, busy, SockAddr, SockType, stream, dgram, Socket, Esp, World, Run,
  done, Cmd, pure, ◌>>=◌, ◌>>◌, and_then,
}
use esp_hostdriver.Host.Ret.{Ret, ret, fail, is_zero}
use esp_hostdriver.Serial.Reader.{SerialClient, write_line}
use esp_hostdriver.Serial.Command.{serial_cmd_start, serial_cmd_send, serial_cmd_wait, result_ret}
use esp_hostdriver.Serial.Reply.{serial_cmd_wait-answer}
use esp_hostdriver.Esp.Links.{get_link_id}
use esp_hostdriver.Esp.Format.{Arg, arg_text, send_cmd}
use esp_hostdriver.Esp.Format.Text.{format_text, written}
use esp_hostdriver.Esp.Driver.{esp_send}
use esp_hostdriver.Esp.Driver.Answer.{answered, IsComing, send_cmd-answer}
use esp_hostdriver.Esp.Driver.Operations.{number, IsOpen, esp_of-IsOpen}

-- The command in front of `n` bytes.
abbrev pub send_text : ℕ → ℕ → SockType → SockAddr → List ℕ
send_text k n stream a = codes "AT+CIPSEND=" ++ (number k ++ (codes "," ++ number n))
send_text k n dgram a =
    codes "AT+CIPSEND="
    ++ (number k
        ++ (codes ","
            ++ (number n
                ++ (codes ",\""
                    ++ (inet_ntoa a.inet.addr 15 ++ (codes "\"," ++ number a.inet.port))))))

stream_text-format :
    (k n : ℕ) (a : SockAddr)
    → format_text (codes "AT+CIPSEND=%d,%d") (Arg.int k ∷ Arg.int n ∷ [])
      ≡ some (send_text k n stream a)
unfolding format_text arg_text
stream_text-format k n a = rw (append-nil (number n)) refl

dgram_text-format :
    (k n : ℕ) (a : SockAddr)
    → format_text
        (codes "AT+CIPSEND=%d,%d,\"%a\",%d")
        (Arg.int k ∷ Arg.int n ∷ Arg.addr a.inet.addr ∷ Arg.int a.inet.port ∷ [])
      ≡ some (send_text k n dgram a)
unfolding format_text arg_text
dgram_text-format k n a = rw (append-nil (number a.inet.port)) refl

module _ (client : SerialClient) (before : List ℕ) where
  -- The bytes themselves, for which the device answers `SEND OK`.
  payload_answer :
      {w : World} {r : CmdResult} {rest : List ℕ} (payload : List ℕ) (f : Ret → Cmd Ret)
      → IsComing client before w (some (codes "SEND OK")) r rest
      → (do
        serial_cmd_start (some (codes "SEND OK"))
        serial_cmd_send payload
        r' ← serial_cmd_wait client before
        f r')
          w
        ≡ f (result_ret r) (answered w (some (codes "SEND OK")) payload r rest)
  unfolding serial_cmd_start serial_cmd_send write_line
  payload_answer {w} {r} {rest} payload f c =
      let v : World = record w {
        serial = record w.serial { cmd_result = inval; response = some (codes "SEND OK") };
      } in
      rw
        (serial_cmd_wait-answer client before c.skipped c.answer rest r (written v payload)
          c.ignored c.answers c.start c.coming)
        refl

  -- The end of `send` behind the first command, which was answered with `r`; the bytes are answered
  -- with `r2`.
  abbrev pub sent : CmdResult → CmdResult → ℕ → World → World → Run Ret
  sent ok r2 n v u = done (if is_zero (result_ret r2) then ret n else fail) u
  sent inval r2 n v u = done (result_ret inval) v
  sent err r2 n v u = done fail v
  sent busy r2 n v u = done fail v

  module _ {w : World} {sock p : Ptr} {s : Socket} {e : Esp} (o : IsOpen w sock p s e) where
    announced :
        {r : CmdResult} {rest : List ℕ} (k n : ℕ) (ty : SockType)
        → IsComing client before w none r rest
        → (elim ty as (λ _. Cmd Ret) [
          | dgram ↦
              send_cmd client before none
                (codes "AT+CIPSEND=%d,%d,\"%a\",%d")
                (Arg.int k ∷ Arg.int n ∷ Arg.addr s.addr.inet.addr ∷ Arg.int s.addr.inet.port ∷ [])
          | stream ↦
              send_cmd client before none (codes "AT+CIPSEND=%d,%d") (Arg.int k ∷ Arg.int n ∷ [])
        ])
            w
          ≡ done (result_ret r) (answered w none (send_text k n ty s.addr) r rest)
    announced k n stream c =
        send_cmd-answer client before none _ _ (send_text k n stream s.addr)
          (stream_text-format k n s.addr) c
    announced k n dgram c =
        send_cmd-answer client before none _ _ (send_text k n dgram s.addr)
          (dgram_text-format k n s.addr) c

    -- What is on its way does not hang on what was written.
    IsComing-text :
        {r r2 : CmdResult} {rest rest2 : List ℕ} (text : List ℕ)
        → IsComing client before (answered w none [] r rest) (some (codes "SEND OK")) r2 rest2
        → IsComing client before (answered w none text r rest) (some (codes "SEND OK")) r2 rest2
    IsComing-text text c = record {
      skipped = c.skipped;
      answer = c.answer;
      ignored = c.ignored;
      answers = c.answers;
      start = c.start;
      coming = c.coming;
    }

    module _ (rest rest2 : List ℕ) (r2 : CmdResult) (payload : List ℕ) (n : ℕ) where
      -- The state after both commands.
      abbrev pub sent_state : ℕ → World
      sent_state k =
          answered (answered w none (send_text k n s.ty s.addr) ok rest) (some (codes "SEND OK"))
            payload r2 rest2

      sends :
          (r : CmdResult) (k : ℕ)
          → (r ≡ ok
              → IsComing client before
                  (answered w none [] r rest)
                  (some (codes "SEND OK"))
                  r2
                  rest2)
          → (if is_zero (result_ret r)
                then (do
                  serial_cmd_start (some (codes "SEND OK"))
                  serial_cmd_send payload
                  r' ← serial_cmd_wait client before
                  pure (if is_zero r' then ret n else fail))
                else pure (result_ret r))
              (answered w none (send_text k n s.ty s.addr) r rest)
            ≡ sent r r2 n (answered w none (send_text k n s.ty s.addr) r rest) (sent_state k)
      sends ok k c = payload_answer payload _ (IsComing-text (send_text k n s.ty s.addr) (c refl))
      sends inval k c = refl
      sends err k c = refl
      sends busy k c = refl

      -- `send` of a socket whose device is set and whose commands are answered: of no bytes it does
      -- nothing, and without a link it fails and sends nothing; else it sends `AT+CIPSEND` with the
      -- link, the number of bytes and, for a datagram, the port and what `inet_ntoa` prints of the address
      -- with a length of 15, which loses the last digit of an address of 15 characters. If the answer is `OK` it
      -- sends the string at `data`, and if that is answered with `SEND OK` it returns the number of
      -- bytes; if either answer is another it fails.
      pub esp_send_lem :
          {r : CmdResult}
          → IsComing client before w none r rest
          → (r ≡ ok
              → IsComing client before
                  (answered w none [] r rest)
                  (some (codes "SEND OK"))
                  r2
                  rest2)
          → esp_send client before sock payload n w ≡ (
              if n == 0 then done (ret 0) w else elim (get_link_id e sock) [
                | none ↦ done fail w
                | some k ↦
                    sent r r2 n (answered w none (send_text k n s.ty s.addr) r rest) (sent_state k)
              ])
      unfolding esp_send
      esp_send_lem {r} c c2 = elim (Bool-cases (n == 0)) [
        | inl empty ↦ rw empty refl
        | inr some_bytes ↦ rw some_bytes (elim (Option-cases (get_link_id e sock)) [
          | inl absent ↦ rw absent (rw (esp_of-IsOpen o) (rw (and_then, absent) refl))
          | inr (k, found) ↦ rw found (
              rw (esp_of-IsOpen o)
                (rw (and_then, found) (rw (announced k n s.ty c) (sends r k c2))))
        ])
      ]
