-- ===== src/Serial/Message.antt =====
-- How the reader of esp01/serial.c takes a message: its head, and then its bytes.
use esp_hostdriver.Prelude.{
  ℕ, zero, suc, ◌+◌, ◌^◌, ◌≤◌, ◌<◌, ◌≡◌, refl, ap, ap₂, ◌∙◌, sym, true, false, List, [], ◌∷◌, ◌++◌,
  append_assoc, append-nil, length, length-append, All, ltb, leb, arith,
}
use esp_hostdriver.Prelude.Codes.{codes}
use esp_hostdriver.Libc.Decimal.{print_d, print_d-IsDigit, IsDigit, length-print_d-le}
use esp_hostdriver.Inet.{dotted}
use esp_hostdriver.Inet.RoundTrip.{octet, dotted-quad, length-dotted}
use esp_hostdriver.Host.{SockAddr, World, Run, done, fault, blocked, and_then, pure, ◌>>◌}
use esp_hostdriver.Serial.Line.{line_size}
use esp_hostdriver.Serial.Line.Ipd.{fields, ipd_line, parse_ipd-printed}
use esp_hostdriver.Serial.Reader.{
  SerialClient, with_serial, next_byte, read_byte, read_bytes, serial_recv, read_round, serial_idle,
}
use esp_hostdriver.Serial.Reply.{reading, IsPlain, read_round-plain}

-- The head without the colon that ends it.
abbrev pub head : ℕ → ℕ → ℕ → ℕ → List ℕ
head link_id count addr port =
    fields (codes "+IPD") (print_d link_id) (print_d count) (dotted addr) (print_d port)

head-end :
    (link_id count addr port : ℕ)
    → head link_id count addr port ++ b':' ∷ [] ≡ ipd_line link_id count addr port
head-end link_id count addr port =
    append_assoc
      (((codes "+IPD" ++ b',' ∷ print_d link_id) ++ b',' ∷ print_d count) ++ b',' ∷ dotted addr)
      (b',' ∷ print_d port) (b':' ∷ [])

IsPlain-append : (s t : List ℕ) → All IsPlain s → All IsPlain t → All IsPlain (s ++ t)
IsPlain-append [] t h k = k
IsPlain-append (c ∷ s) t h k = (h.0, IsPlain-append s t h.1 k)

number-IsPlain : (n : ℕ) → All IsPlain (print_d n)
number-IsPlain n = go (print_d n) (print_d-IsDigit n)
  where
    go : (s : List ℕ) → All IsDigit s → All IsPlain s
    go [] h = tt
    go (c ∷ s) h =
        let low : b'0' ≤ c = h.0.0 in
        let high : c ≤ b'9' = h.0.1 in ((omega arith, omega arith), go s h.1)

-- A list, a byte between, and another.
between-IsPlain :
    (c : ℕ) (s t : List ℕ) → IsPlain c → All IsPlain s → All IsPlain t → All IsPlain (s ++ c ∷ t)
between-IsPlain c s t p h k = IsPlain-append s (c ∷ t) h (p, k)

dotted-IsPlain : (addr : ℕ) → All IsPlain (dotted addr)
dotted-IsPlain addr = rw (dotted-quad addr) (
    part (octet addr 24) _
      (part (octet addr 16) _ (part (octet addr 8) _ (number-IsPlain (octet addr 0)))))
  where
    part : (n : ℕ) (s : List ℕ) → All IsPlain s → All IsPlain (print_d n ++ (b'.' ∷ s))
    part n s h = between-IsPlain b'.' (print_d n) s (omega arith, omega arith) (number-IsPlain n) h

head-IsPlain : (link_id count addr port : ℕ) → All IsPlain (head link_id count addr port)
head-IsPlain link_id count addr port =
    let l1 = codes "+IPD" ++ b',' ∷ print_d link_id in
    let l2 = l1 ++ b',' ∷ print_d count in
    let l3 = l2 ++ b',' ∷ dotted addr in
    let p1 = field (codes "+IPD") (print_d link_id) start (number-IsPlain link_id) in
    let p2 = field l1 (print_d count) p1 (number-IsPlain count) in
    field l3 (print_d port) (field l2 (dotted addr) p2 (dotted-IsPlain addr)) (number-IsPlain port)
  where
    field : (s t : List ℕ) → All IsPlain s → All IsPlain t → All IsPlain (s ++ (b',' ∷ t))
    field s t h k = between-IsPlain b',' s t (omega arith, omega arith) h k

    start : All IsPlain (codes "+IPD")
    start = (
      (omega arith, omega arith),
      ((omega arith, omega arith), ((omega arith, omega arith), ((omega arith, omega arith), tt))),
    )

length-head :
    (link_id count addr port : ℕ)
    → link_id < 2 ^ 32
    → count < 2 ^ 32
    → port < 2 ^ 16
    → length (head link_id count addr port) + 1 < line_size
length-head link_id count addr port hl hc hp =
    let l1 = codes "+IPD" ++ b',' ∷ print_d link_id in
    let l2 = l1 ++ b',' ∷ print_d count in
    let l3 = l2 ++ b',' ∷ dotted addr in
    omega (
      arith,
      length-append l3 (b',' ∷ print_d port),
      length-append l2 (b',' ∷ dotted addr),
      length-append l1 (b',' ∷ print_d count),
      length-append (codes "+IPD") (b',' ∷ print_d link_id),
      length-print_d-le 9 link_id (omega arith),
      length-print_d-le 9 count (omega arith),
      length-print_d-le 4 port (omega arith),
      length-dotted addr,
    )

abbrev pub remote : ℕ → ℕ → SockAddr
remote addr port = record { domain = 0; inet = record { addr = addr; port = port } }

read_bytes-append :
    (payload input : List ℕ) (line : List ℕ) (w : World)
    → read_bytes (length payload) (reading w line (payload ++ input))
      ≡ done payload (reading w line input)
unfolding read_bytes read_byte next_byte
read_bytes-append [] input line w = refl
read_bytes-append (b ∷ payload) input line w = rw (read_bytes-append payload input line w) refl

serial_idle-zero : (client : SerialClient) (before : List ℕ) → serial_idle client 0 before ≡ pure tt
unfolding serial_idle
serial_idle-zero client before = refl

module _ (client : SerialClient) (before : List ℕ) where
  serial_idle-plain :
      (part : List ℕ) (k m : ℕ) (w : World) (line input : List ℕ)
      → All IsPlain part
      → length line + length part < line_size
      → k ≡ length part + m
      → serial_idle client k before (reading w line (part ++ input))
        ≡ serial_idle client m before (reading w (line ++ part) input)
  unfolding serial_idle
  serial_idle-plain [] k m w line input plain fits fuel =
      let same : k ≡ m = omega arith in
      ap₂ (λ f l. serial_idle client f before (reading w l input)) same (sym (append-nil line))
  serial_idle-plain (c ∷ part) zero m w line input plain fits fuel = absurd (omega arith)
  serial_idle-plain (c ∷ part) (suc k) m w line input plain fits fuel =
      rw (read_round-plain client before w line (part ++ input) c plain.0 (omega arith)) (
        serial_idle-plain part k m w (line ++ c ∷ []) input plain.1
          (omega (arith, length-append line (c ∷ []))) (omega arith)
        ∙ ap (λ l. serial_idle client m before (reading w l input))
            (append_assoc line (c ∷ []) part))

  module _ (link_id addr port : ℕ) (payload : List ℕ) (hl : link_id < 2 ^ 32)
      (hc : length payload < 2 ^ 31) (ha : addr < 2 ^ 32) (hp : port < 2 ^ 16) where
    -- The colon behind the head: the message is read and handed over.
    read_round-head :
        (w : World) (input : List ℕ)
        → read_round client before b':'
            (reading w (head link_id (length payload) addr port) (payload ++ input))
          ≡ and_then
              (client.on_recv link_id payload
                (remote addr port)
                (reading w (head link_id (length payload) addr port) input))
              (λ _. with_serial (λ s. record s { line = [] }) >> pure false)
    unfolding read_round serial_recv
    read_round-head w input =
        let start = head link_id (length payload) addr port in
        let room : ltb (length start + 1) line_size ≡ true =
          ground (arith, length-head link_id (length payload) addr port hl (omega arith) hp) in
        let few : leb (2 ^ 31) (length payload) ≡ false = ground arith in
        rw (room, head-end link_id (length payload) addr port)
          (rw (parse_ipd-printed link_id (length payload) addr port hl (omega arith) ha hp)
            (rw (few, read_bytes-append payload input start w) refl))

    -- While no command waits, a message that comes at the start of a line is handed over with its
    -- link's number and its sender, its bytes are read to the last, and the reader goes on at the start
    -- of a line with what follows.
    pub serial_idle-message :
        (k m : ℕ) (w : World) (input : List ℕ)
        → k ≡ length (ipd_line link_id (length payload) addr port) + m
        → serial_idle client k before
            (reading w [] (ipd_line link_id (length payload) addr port ++ (payload ++ input)))
          ≡ and_then
              (client.on_recv link_id payload
                (remote addr port)
                (reading w (head link_id (length payload) addr port) input))
              (λ _ v. serial_idle client m before (reading v [] v.serial.input))
    unfolding serial_idle
    serial_idle-message k m w input fuel =
        let start = head link_id (length payload) addr port in
        let line : ipd_line link_id (length payload) addr port ++ (payload ++ input)
            ≡ start ++ (b':' ∷ (payload ++ input)) =
          ap (λ l. l ++ (payload ++ input)) (sym (head-end link_id (length payload) addr port))
          ∙ append_assoc start (b':' ∷ []) (payload ++ input) in
        let rounds : k ≡ length start + suc m = omega (
          arith,
          length-append start (b':' ∷ []),
          ap length (head-end link_id (length payload) addr port),
        ) in
        let fits : length start + 1 < line_size =
          length-head link_id (length payload) addr port hl (omega arith) hp in
        ap (λ l. serial_idle client k before (reading w [] l)) line
        ∙ (serial_idle-plain start k (suc m) w [] (b':' ∷ (payload ++ input))
              (head-IsPlain link_id (length payload) addr port) (omega arith) rounds
            ∙ rw (read_round-head w input) (goes_on _))
      where
        goes_on :
            (r : Run (Unit {0}))
            → and_then
                (and_then r (λ _. with_serial (λ s. record s { line = [] }) >> pure false))
                (λ _. serial_idle client m before)
              ≡ and_then r (λ _ v. serial_idle client m before (reading v [] v.serial.input))
        goes_on (done a v) = refl
        goes_on fault = refl
        goes_on blocked = refl

    -- The reader takes just the message.
    pub serial_idle-message_only :
        (w : World) (input : List ℕ)
        → serial_idle client
            (length (ipd_line link_id (length payload) addr port))
            before
            (reading w [] (ipd_line link_id (length payload) addr port ++ (payload ++ input)))
          ≡ and_then
              (client.on_recv link_id payload
                (remote addr port)
                (reading w (head link_id (length payload) addr port) input))
              (λ _ v. done tt (reading v [] v.serial.input))
    serial_idle-message_only w input =
        serial_idle-message (length (ipd_line link_id (length payload) addr port)) 0 w input
          (omega arith)
        ∙ ap
            (λ stop.
              and_then
                (client.on_recv link_id payload (remote addr port)
                  (reading w (head link_id (length payload) addr port) input))
                (λ _ v. stop (reading v [] v.serial.input)))
            (serial_idle-zero client before)
