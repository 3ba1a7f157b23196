-- ===== src/Serial/Bound.antt =====
-- The bound on the line buffer of `read_thread` in esp01/serial.c.
use esp_hostdriver.Prelude.{
  ℕ, zero, suc, ◌+◌, ◌<◌, inl, inr, Bool-cases, Bool, true, false, List, [], ◌∷◌, arith, length,
  length-append, ltb, ◌==◌, ◌&&◌, if◌then◌else◌,
}
use esp_hostdriver.Prelude.Codes.{codes}
use esp_hostdriver.Libc.Strings.{strn_eq}
use esp_hostdriver.Host.{World, pure}
use esp_hostdriver.Host.Partial.{IfDone, if_done, if_blocked, IfDone-and_then, anything}
use esp_hostdriver.Serial.Line.{line_size, push_byte}
use esp_hostdriver.Serial.Reply.{reading}
use esp_hostdriver.Serial.Reader.{
  SerialClient, next_byte, read_byte, serial_recv, parse_line, read_round, read_until_signal,
  serial_idle,
}

-- There is room for the line and its 0.
abbrev pub Fits : World → Type 0
Fits w = length w.serial.line < line_size

push_byte-Fits :
    (line : List ℕ) (c : ℕ) → length line < line_size → length (push_byte line c) < line_size
push_byte-Fits line c h = elim (Bool-cases (ltb (length line + 1) line_size)) [
  | inl e ↦ rw e (
      let room : length line + 1 < line_size = ground arith in
      omega (arith, length-append line (c ∷ [])))
  | inr e ↦ rw e h
]

module _ (client : SerialClient) (before : List ℕ) where
  read_round-Fits :
      (c : ℕ) (w : World) → Fits w → IfDone (λ _ v. Fits v) (read_round client before c w)
  unfolding read_round
  read_round-Fits c w h =
      let line = push_byte w.serial.line c in
      elim (Bool-cases (c == b':' && strn_eq line (codes "+IPD") 4)) [
        | inl e ↦ rw e (
            IfDone-and_then (anything (serial_recv client line w)) (λ a v _. if_done (omega arith)))
        | inr e ↦ elim (Bool-cases (c == 10)) [
          | inl n ↦
              rw (e, n)
                (IfDone-and_then (anything (parse_line client before line w))
                  (λ a v _. if_done (omega arith)))
          | inr n ↦ rw (e, n) (if_done (push_byte-Fits w.serial.line c h))
        ]
      ]

  module _ (w : World) (k : ℕ)
      (next : (v : World)
        → Fits v
        → IfDone (λ _ u. Fits u) (read_until_signal client k before v)) where
    after_round :
        (signalled : Bool) (v : World)
        → Fits v
        → IfDone
            (λ _ u. Fits u)
            ((if signalled then pure tt else read_until_signal client k before) v)
    after_round true v h = if_done h
    after_round false v h = next v h

    signal_step :
        (line input : List ℕ)
        → length line < line_size
        → IfDone (λ _ v. Fits v) (read_until_signal client (suc k) before (reading w line input))
    unfolding read_until_signal read_byte next_byte
    signal_step line [] h = elim (Bool-cases w.serial.hangup) [
      | inl e ↦ rw e if_blocked
      | inr e ↦ rw e if_blocked
    ]
    signal_step line (b ∷ bs) h =
        IfDone-and_then (read_round-Fits b (reading w line bs) h) after_round

  read_until_signal-Fits :
      (k : ℕ) (w : World) → Fits w → IfDone (λ _ v. Fits v) (read_until_signal client k before w)
  unfolding read_until_signal
  read_until_signal-Fits zero w h = if_blocked
  read_until_signal-Fits (suc k) w h =
      signal_step w k (read_until_signal-Fits k) w.serial.line w.serial.input h

  idle_step :
      (w : World) (k : ℕ) (line input : List ℕ)
      → ((v : World) → Fits v → IfDone (λ _ u. Fits u) (serial_idle client k before v))
      → length line < line_size
      → IfDone (λ _ v. Fits v) (serial_idle client (suc k) before (reading w line input))
  unfolding serial_idle
  idle_step w k line [] next h = if_done h
  idle_step w k line (b ∷ bs) next h =
      IfDone-and_then (read_round-Fits b (reading w line bs) h) (λ _ v f. next v f)

  serial_idle-Fits :
      (k : ℕ) (w : World) → Fits w → IfDone (λ _ v. Fits v) (serial_idle client k before w)
  unfolding serial_idle
  serial_idle-Fits zero w h = if_done h
  serial_idle-Fits (suc k) w h = idle_step w k w.serial.line w.serial.input (serial_idle-Fits k) h

  -- However many bytes `read_thread` takes, with or without a command that waits, and whatever the
  -- callbacks do: if the line that it has in part and a 0 fit into its buffer of 64 bytes at first,
  -- they do whenever it has ended.
  pub reader-Fits :
      (k : ℕ) (w : World)
      → Fits w
      → IfDone (λ _ v. Fits v) (read_until_signal client k before w)
        × IfDone (λ _ v. Fits v) (serial_idle client k before w)
  reader-Fits k w h = (read_until_signal-Fits k w h, serial_idle-Fits k w h)
