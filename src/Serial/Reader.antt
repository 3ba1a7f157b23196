-- ===== src/Serial/Reader.antt =====
-- The reading side of esp01/serial.c: `read_thread` and what it calls.
use esp_hostdriver.Prelude.{
  ℕ, zero, suc, ◌+◌, ◌^◌, Bool, true, false, ◌&&◌, ◌||◌, Option, none, some, List, [], ◌∷◌, ◌++◌,
  ◌==◌, leb, if◌then◌else◌, length, take, drop,
}
use esp_hostdriver.Prelude.Codes.{codes}
use esp_hostdriver.Libc.Decimal.{atoi}
use esp_hostdriver.Libc.Strings.{str_eq, strn_eq}
use esp_hostdriver.Host.{
  SockAddr, CmdResult, inval, ok, err, SerialLine, Cmd, pure, fault, blocked, done, ◌>>=◌, ◌>>◌,
  get, put,
}
use esp_hostdriver.Serial.Line.{
  line_size, push_byte, until_comma, parse_ipd, LineKind, line_kind, parse_status,
}

-- The callbacks of `serial_t`; each is given the link's number as the bit pattern of an `int`.
pub record SerialClient : Type 0 where
  pub on_recv : ℕ → List ℕ → SockAddr → Cmd (Unit {0})
  pub on_accept : ℕ → SockAddr → Cmd (Unit {0})
  pub on_closed : ℕ → Cmd (Unit {0})

abbrev pub with_serial : (SerialLine → SerialLine) → Cmd (Unit {0})
with_serial f w = done tt (record w { serial = f w.serial })

-- `write(dev->fd, …)`
unfoldable pub write_line : List ℕ → Cmd (Unit {0})
write_line bytes = with_serial (λ s. record s { output = s.output ++ bytes })

-- The byte that `read(dev->fd, &c, 1)` gets next, and the line without it.
unfoldable pub next_byte : SerialLine → Cmd (Option ℕ)
next_byte s w = elim s.input [
  | [] ↦ if s.hangup then done none w else blocked
  | c ∷ cs ↦ done (some c) (record w { serial = record s { input = cs } })
]

-- `read(dev->fd, &c, 1)`: none if it does not return 1.
unfoldable pub read_byte : Cmd (Option ℕ)
unfolding next_byte
read_byte = do w ← get; next_byte w.serial

-- The loop that reads the `n` bytes of a message.
unfoldable pub read_bytes : ℕ → Cmd (List ℕ)
unfolding read_byte
read_bytes zero = pure []
read_bytes (suc n) = do
  c ← read_byte
  elim c [ none ↦ pure [] | some b ↦ (do bs ← read_bytes n; pure (b ∷ bs)) ]

-- The choice that `parse_line` makes of a line that is no notice, by `response`.
unfoldable pub reply_result : Option (List ℕ) → List ℕ → CmdResult
reply_result none line =
    if strn_eq line (codes "OK") 2
    then ok
    else if strn_eq line (codes "ERROR") 5
    then err
    else inval
reply_result (some resp) line =
    if strn_eq line resp (length resp)
    then ok
    else if strn_eq line (codes "ERROR") 5
    then err
    else inval

-- The end of `parse_line`: an answer's result is stored, and signalled to the command that waits.
abbrev pub tell : CmdResult → Cmd Bool
tell inval = pure false
tell r = with_serial (λ s. record s { cmd_result = r }) >> pure true

module _ (client : SerialClient) where
  -- `recv`. A negative count asks for more stack than there is.
  unfoldable pub serial_recv : List ℕ → Cmd (Unit {0})
  unfolding read_bytes
  serial_recv line = do
    let h = parse_ipd line
    if leb (2 ^ 31) h.count
        then (λ _. fault)
        else (do payload ← read_bytes h.count; client.on_recv h.link_id payload h.remote)

  -- What `accept` does with a line `cur` of the answer that begins at `base` in the buffer: whether
  -- that was the last, and where the next line will begin.
  unfoldable pub accept_line : List ℕ → ℕ → List ℕ → Cmd (Bool × ℕ)
  accept_line link_id base cur =
      if str_eq cur (codes "OK") || str_eq cur (codes "ERROR")
      then pure (true, base)
      else if strn_eq cur (codes "+CIPSTATUS:") 11 && strn_eq (drop 11 cur) link_id (length link_id)
      then elim (parse_status cur) [
        | none ↦ λ _. fault
        | some (remote, moved) ↦ (do
          client.on_accept (atoi link_id) remote
          pure (false, base + moved))
      ]
      else pure (false, base)

  -- The loop of `accept`. A byte behind the end of the buffer is a fault. Each round takes a byte, so
  -- the length of the input and one is enough fuel.
  unfoldable pub accept_loop : ℕ → List ℕ → ℕ → List ℕ → Cmd (Unit {0})
  unfolding read_byte accept_line
  accept_loop zero link_id base cur = λ _. blocked
  accept_loop (suc k) link_id base cur = do
    c ← read_byte
    elim c [
      | none ↦ pure tt
      | some b ↦
          if leb line_size (base + length cur)
          then (λ _. fault)
          else if b == 10
          then (do
            (last, base') ← accept_line link_id base cur
            if last then pure tt else accept_loop k link_id base' [])
          else accept_loop k link_id base (cur ++ b ∷ [])
    ]

  -- `accept`
  unfoldable pub serial_accept : List ℕ → Cmd (Unit {0})
  unfolding accept_loop until_comma
  serial_accept line = do
    write_line (codes "AT+CIPSTATUS\n")
    w ← get
    accept_loop (length w.serial.input + 1) (take 5 (until_comma line)) 0 []

  -- `closed`
  unfoldable pub serial_closed : List ℕ → Cmd (Unit {0})
  unfolding until_comma
  serial_closed line = client.on_closed (atoi (until_comma line))

  -- `parse_line`: whether it signals the command that waits.
  unfoldable pub parse_line : List ℕ → List ℕ → Cmd Bool
  unfolding serial_accept serial_closed
  parse_line before line = elim (line_kind before line) [
    | LineKind.connect ↦ serial_accept line >> pure false
    | LineKind.closed ↦ serial_closed line >> pure false
    | LineKind.other ↦ (do w ← get; tell (reply_result w.serial.response line))
  ]

  -- A round of `read_thread` with the byte `c`.
  unfoldable pub read_round : List ℕ → ℕ → Cmd Bool
  unfolding serial_recv parse_line
  read_round before c = do
    w ← get
    let line = push_byte w.serial.line c
    if c == b':' && strn_eq line (codes "+IPD") 4
        then (do serial_recv line; with_serial (λ s. record s { line = [] }); pure false)
        else if c == 10
        then (do
          signalled ← parse_line before line
          with_serial (λ s. record s { line = [] })
          pure signalled)
        else (do with_serial (λ s. record s { line = line }); pure false)

  -- `read_thread` until it signals a command; each round takes a byte.
  unfoldable pub read_until_signal : ℕ → List ℕ → Cmd (Unit {0})
  unfolding read_round read_byte
  read_until_signal zero before = λ _. blocked
  read_until_signal (suc k) before = do
    c ← read_byte
    elim c [
      | none ↦ λ _. blocked
      | some b ↦ (do
        signalled ← read_round before b
        if signalled then pure tt else read_until_signal k before)
    ]

  -- `read_thread` for the next `k` bytes, or those that there are, while no command waits.
  unfoldable pub serial_idle : ℕ → List ℕ → Cmd (Unit {0})
  unfolding read_round
  serial_idle zero before = pure tt
  serial_idle (suc k) before = do
    w ← get
    elim w.serial.input [
      | [] ↦ pure tt
      | b ∷ bs ↦ (do
        put (record w { serial = record w.serial { input = bs } })
        _ ← read_round before b
        serial_idle k before)
    ]
