-- ===== src/Serial/Frame.antt =====
-- What esp01/serial.c leaves alone: everything but the serial line, and what the callbacks do.
use esp_hostdriver.Prelude.{
  arith, ap, refl, ◌≡◌, ℕ, zero, suc, ◌+◌, ◌&&◌, Bool, true, false, Option, none, some, List, [],
  ◌∷◌, ◌++◌, ◌==◌, length, if◌then◌else◌,
}
use esp_hostdriver.Prelude.Codes.{codes}
use esp_hostdriver.Libc.Decimal.{atoi}
use esp_hostdriver.Libc.Strings.{strn_eq}
use esp_hostdriver.Host.{
  SockAddr, CmdResult, inval, ok, err, busy, SerialLine, World, done, blocked, Cmd, pure, ◌>>=◌,
  ◌>>◌, get, put,
}
use esp_hostdriver.Host.Partial.{
  IfDone, if_done, if_blocked, IfDone-and_then, Keeps, Keeps-pure, Keeps-fault, Keeps-blocked,
  Keeps-if, Keeps-option, Keeps-bind, Keeps-then,
}
use esp_hostdriver.Host.Stable.{IsStable}
use esp_hostdriver.Serial.Line.{push_byte, parse_status, LineKind, line_kind}
use esp_hostdriver.Serial.Reader.{
  SerialClient, with_serial, write_line, next_byte, read_byte, read_bytes, reply_result, tell,
  serial_recv, accept_line, accept_loop, serial_accept, serial_closed, parse_line, read_round,
  read_until_signal, serial_idle,
}
use esp_hostdriver.Serial.Command.{
  serial_cmd_start, serial_cmd_send, serial_cmd_wait, serial_cmd, result_ret,
}

-- The callbacks keep an invariant.
pub record ClientKeeps (I : World → Type 0) (client : SerialClient) : Type 0 where
  pub recv_keeps :
      (link_id : ℕ) (payload : List ℕ) (from : SockAddr)
      → Keeps I (client.on_recv link_id payload from)
  pub accept_keeps : (link_id : ℕ) (from : SockAddr) → Keeps I (client.on_accept link_id from)
  pub closed_keeps : (link_id : ℕ) → Keeps I (client.on_closed link_id)

module _ {I : World → Type 0} (st : IsStable I) where
  pub Keeps-with_serial :
      (f : SerialLine → SerialLine)
      → ((s : SerialLine) → (f s).input ≡ s.input)
      → Keeps I (with_serial f)
  Keeps-with_serial f same = record {
    keeps = λ w h. if_done (st.on_serial (f w.serial) (omega (arith, ap length (same w.serial))) h);
  }

  pub Keeps-write_line : (bytes : List ℕ) → Keeps I (write_line bytes)
  unfolding write_line
  Keeps-write_line bytes =
      Keeps-with_serial (λ s. record s { output = s.output ++ bytes }) (λ s. refl)

  Keeps-read_byte : Keeps I read_byte
  unfolding read_byte next_byte
  Keeps-read_byte = record { keeps = λ w h. from w w.serial.input w.serial.hangup refl h }
    where
      from :
          (w : World) (i : List ℕ) (hangup : Bool)
          → w.serial.input ≡ i
          → I w
          → IfDone {A = Option ℕ}
              (λ _ v. I v)
              (elim i [
                | [] ↦ if hangup then done none w else blocked
                | c ∷ cs ↦ done (some c) (record w { serial = record w.serial { input = cs } })
              ])
      from w [] true e h = if_done h
      from w [] false e h = if_blocked
      from w (c ∷ cs) hangup e h =
          if_done (st.on_serial (record w.serial { input = cs }) (omega (arith, ap length e)) h)

  Keeps-read_bytes : (n : ℕ) → Keeps I (read_bytes n)
  unfolding read_bytes
  Keeps-read_bytes zero = Keeps-pure []
  Keeps-read_bytes (suc n) = Keeps-bind Keeps-read_byte (λ c.
      Keeps-option c (Keeps-pure [])
        (λ b. Keeps-bind (Keeps-read_bytes n) (λ bs. Keeps-pure (b ∷ bs))))

  Keeps-tell : (r : CmdResult) → Keeps I (tell r)
  Keeps-tell inval = Keeps-pure false
  Keeps-tell ok = Keeps-then (Keeps-with_serial _ (λ s. refl)) (Keeps-pure true)
  Keeps-tell err = Keeps-then (Keeps-with_serial _ (λ s. refl)) (Keeps-pure true)
  Keeps-tell busy = Keeps-then (Keeps-with_serial _ (λ s. refl)) (Keeps-pure true)

  pub Keeps-serial_cmd_start : (resp : Option (List ℕ)) → Keeps I (serial_cmd_start resp)
  unfolding serial_cmd_start
  Keeps-serial_cmd_start resp = Keeps-with_serial _ (λ s. refl)

  module _ {client : SerialClient} (cl : ClientKeeps I client) where
    Keeps-serial_recv : (line : List ℕ) → Keeps I (serial_recv client line)
    unfolding serial_recv
    Keeps-serial_recv line =
        Keeps-if _ Keeps-fault
          (Keeps-bind (Keeps-read_bytes _) (λ payload. cl.recv_keeps _ payload _))

    pub Keeps-accept_line :
        (link_id : List ℕ) (base : ℕ) (cur : List ℕ) → Keeps I (accept_line client link_id base cur)
    unfolding accept_line
    Keeps-accept_line link_id base cur = Keeps-if _ (Keeps-pure (true, base)) (
        Keeps-if _
          (Keeps-option (parse_status cur) Keeps-fault (λ found.
            Keeps-then (cl.accept_keeps (atoi link_id) found.0)
              (Keeps-pure (false, base + found.1))))
          (Keeps-pure (false, base)))

    Keeps-accept_loop :
        (k : ℕ) (link_id : List ℕ) (base : ℕ) (cur : List ℕ)
        → Keeps I (accept_loop client k link_id base cur)
    unfolding accept_loop
    Keeps-accept_loop zero link_id base cur = Keeps-blocked
    Keeps-accept_loop (suc k) link_id base cur = Keeps-bind Keeps-read_byte (λ c.
        Keeps-option c (Keeps-pure tt) (λ b. Keeps-if _ Keeps-fault (
          Keeps-if _
            (Keeps-bind (Keeps-accept_line link_id base cur)
              (λ step. Keeps-if step.0 (Keeps-pure tt) (Keeps-accept_loop k link_id step.1 [])))
            (Keeps-accept_loop k link_id base (cur ++ b ∷ [])))))

    Keeps-serial_accept : (line : List ℕ) → Keeps I (serial_accept client line)
    unfolding serial_accept
    Keeps-serial_accept line =
        Keeps-then (Keeps-write_line _) (record {
          keeps = λ w h. (Keeps-accept_loop (length w.serial.input + 1) _ 0 []).keeps w h;
        })

    Keeps-parse_line : (before line : List ℕ) → Keeps I (parse_line client before line)
    unfolding parse_line serial_closed
    Keeps-parse_line before line = from (line_kind before line)
      where
        from :
            (kind : LineKind)
            → Keeps I (elim kind [
              | LineKind.connect ↦ serial_accept client line >> pure false
              | LineKind.closed ↦ serial_closed client line >> pure false
              | LineKind.other ↦ (do w ← get; tell (reply_result w.serial.response line))
            ])
        from LineKind.connect = Keeps-then (Keeps-serial_accept line) (Keeps-pure false)
        from LineKind.closed = Keeps-then (cl.closed_keeps _) (Keeps-pure false)
        from LineKind.other = record {
          keeps = λ w h. (Keeps-tell (reply_result w.serial.response line)).keeps w h;
        }

    pub Keeps-read_round : (before : List ℕ) (c : ℕ) → Keeps I (read_round client before c)
    unfolding read_round
    Keeps-read_round before c = record { keeps = λ w h. (round w).keeps w h }
      where
        reset :
            (line : List ℕ) (b : Bool)
            → Keeps I (with_serial (λ s. record s { line = line }) >> pure b)
        reset line b = Keeps-then (Keeps-with_serial _ (λ s. refl)) (Keeps-pure b)

        round :
            (w : World)
            → let line = push_byte w.serial.line c in
              Keeps I (
                if c == b':' && strn_eq line (codes "+IPD") 4
                then (do
                  serial_recv client line
                  with_serial (λ s. record s { line = [] })
                  pure false)
                else if c == 10
                then (do
                  signalled ← parse_line client before line
                  with_serial (λ s. record s { line = [] })
                  pure signalled)
                else (do with_serial (λ s. record s { line = line }); pure false))
        round w =
            Keeps-if _ (Keeps-then (Keeps-serial_recv _) (reset _ false))
              (Keeps-if _ (Keeps-bind (Keeps-parse_line before _) (λ b. reset _ b)) (reset _ false))

    Keeps-read_until_signal :
        (k : ℕ) (before : List ℕ) → Keeps I (read_until_signal client k before)
    unfolding read_until_signal
    Keeps-read_until_signal zero before = Keeps-blocked
    Keeps-read_until_signal (suc k) before = Keeps-bind Keeps-read_byte (λ c.
        Keeps-option c Keeps-blocked (λ b.
          Keeps-bind (Keeps-read_round before b)
            (λ signalled. Keeps-if signalled (Keeps-pure tt) (Keeps-read_until_signal k before))))

    pub Keeps-serial_idle : (k : ℕ) (before : List ℕ) → Keeps I (serial_idle client k before)
    unfolding serial_idle
    Keeps-serial_idle zero before = Keeps-pure tt
    Keeps-serial_idle (suc k) before = record {
      keeps = λ w h. next w w.serial.input refl h (Keeps-serial_idle k before);
    }
      where
        next :
            (w : World) (i : List ℕ)
            → w.serial.input ≡ i
            → I w
            → Keeps I (serial_idle client k before)
            → IfDone
                (λ _ v. I v)
                ((elim i as (λ _. Cmd (Unit {0})) [
                  | [] ↦ pure tt
                  | b ∷ bs ↦ (do
                    put (record w { serial = record w.serial { input = bs } })
                    _ ← read_round client before b
                    serial_idle client k before)
                ])
                  w)
        next w [] e h more = if_done h
        next w (b ∷ bs) e h more =
            IfDone-and_then
              ((Keeps-read_round before b).keeps _
                (st.on_serial (record w.serial { input = bs }) (omega (arith, ap length e)) h))
              (λ _ v i. more.keeps v i)

    Keeps-wait :
        (before : List ℕ)
        → Keeps I (do
          w ← get
          read_until_signal client (length w.serial.input + 1) before
          v ← get
          pure (result_ret v.serial.cmd_result))
    Keeps-wait before = record {
      keeps = λ w h.
          IfDone-and_then ((Keeps-read_until_signal (length w.serial.input + 1) before).keeps w h)
            (λ _ v i. if_done i);
    }

    pub Keeps-serial_cmd_wait : (before : List ℕ) → Keeps I (serial_cmd_wait client before)
    unfolding serial_cmd_wait
    Keeps-serial_cmd_wait before = Keeps-then (Keeps-write_line _) (Keeps-wait before)

    pub Keeps-serial_cmd :
        (before cmd : List ℕ) (resp : Option (List ℕ)) → Keeps I (serial_cmd client before cmd resp)
    unfolding serial_cmd serial_cmd_send
    Keeps-serial_cmd before cmd resp =
        Keeps-then (Keeps-serial_cmd_start resp)
          (Keeps-then (Keeps-write_line cmd) (Keeps-serial_cmd_wait before))
