-- ===== src/Serial/Fuel.antt =====
-- The fuel of the reader's loops (esp01/serial.c): a byte of the input is taken in each round.
use esp_hostdriver.Prelude.{
  ℕ, zero, suc, ◌+◌, ◌-◌, ◌≤◌, ◌<◌, ◌≡◌, refl, inl, inr, Bool-cases, Bool, true, false, List, [],
  ◌∷◌, ◌++◌, ◌==◌, leb, if◌then◌else◌, length, arith,
}
use esp_hostdriver.Host.{World, Run, and_then, pure, done, fault, blocked}
use esp_hostdriver.Host.Partial.{IfDone, if_done}
use esp_hostdriver.Host.Stable.{IsStable}
use esp_hostdriver.Serial.Line.{line_size}
use esp_hostdriver.Serial.Reader.{
  SerialClient, next_byte, read_byte, accept_loop, read_until_signal, read_round, accept_line,
}
use esp_hostdriver.Serial.Reply.{reading}
use esp_hostdriver.Serial.Frame.{ClientKeeps, Keeps-read_round, Keeps-accept_line}

-- No more than `n` bytes are still to be read.
pub data InputWithin (n : ℕ) (w : World) : Type 0 where
  within : length w.serial.input ≤ n → InputWithin n w

pub InputWithin-IsStable : (n : ℕ) → IsStable (InputWithin n)
InputWithin-IsStable n = record {
  on_serial = λ line no_more i. elim i [ within h ↦ within (omega arith) ];
  on_socks = λ f i. elim i [ within h ↦ within h ];
  on_esps = λ f i. elim i [ within h ↦ within h ];
  on_alloc = λ b e i. elim i [ within h ↦ within h ];
  on_data = λ p d e i. elim i [ within h ↦ within h ];
}

-- `read_thread` from the state `w`, round by round and without fuel, until it signals a command: the
-- number of bytes that it takes, and how it ends. It ends for want of bytes, with a round that signals,
-- or with one that does not end well itself.
pub data Reads (client : SerialClient) (before : List ℕ) : World → ℕ → Run (Unit {0}) → Type 0 where
  no_byte : {w : World} → w.serial.input ≡ [] → Reads client before w 0 blocked
  signals :
      {w v : World} {b : ℕ} {bs : List ℕ}
      → w.serial.input ≡ b ∷ bs
      → read_round client before b (reading w w.serial.line bs) ≡ done true v
      → Reads client before w 1 (done tt v)
  faults :
      {w : World} {b : ℕ} {bs : List ℕ}
      → w.serial.input ≡ b ∷ bs
      → read_round client before b (reading w w.serial.line bs) ≡ fault
      → Reads client before w 1 fault
  waits :
      {w : World} {b : ℕ} {bs : List ℕ}
      → w.serial.input ≡ b ∷ bs
      → read_round client before b (reading w w.serial.line bs) ≡ blocked
      → Reads client before w 1 blocked
  goes_on :
      {w v : World} {b n : ℕ} {bs : List ℕ} {r : Run (Unit {0})}
      → w.serial.input ≡ b ∷ bs
      → read_round client before b (reading w w.serial.line bs) ≡ done false v
      → Reads client before v n r
      → Reads client before w (suc n) r

-- The same of the loop of `accept`, with `base` and `cur` the place and the bytes of the line that is
-- being read. At the end of the file it returns; without a byte it waits.
pub data Lists (client : SerialClient) (link_id : List ℕ)
    : World → ℕ → List ℕ → ℕ → Run (Unit {0}) → Type 0 where
  at_end :
      {w : World} {base : ℕ} {cur : List ℕ}
      → w.serial.input ≡ []
      → w.serial.hangup ≡ true
      → Lists client link_id w base cur 0 (done tt w)
  no_byte :
      {w : World} {base : ℕ} {cur : List ℕ}
      → w.serial.input ≡ []
      → w.serial.hangup ≡ false
      → Lists client link_id w base cur 0 blocked
  overruns :
      {w : World} {base b : ℕ} {cur bs : List ℕ}
      → w.serial.input ≡ b ∷ bs
      → leb line_size (base + length cur) ≡ true
      → Lists client link_id w base cur 1 fault
  takes_byte :
      {w : World} {base b n : ℕ} {cur bs : List ℕ} {r : Run (Unit {0})}
      → w.serial.input ≡ b ∷ bs
      → leb line_size (base + length cur) ≡ false
      → (b == 10) ≡ false
      → Lists client link_id (reading w w.serial.line bs) base (cur ++ b ∷ []) n r
      → Lists client link_id w base cur (suc n) r
  last_line :
      {w v : World} {base base' b : ℕ} {cur bs : List ℕ}
      → w.serial.input ≡ b ∷ bs
      → leb line_size (base + length cur) ≡ false
      → (b == 10) ≡ true
      → accept_line client link_id base cur (reading w w.serial.line bs) ≡ done (true, base') v
      → Lists client link_id w base cur 1 (done tt v)
  one_line :
      {w v : World} {base base' b n : ℕ} {cur bs : List ℕ} {r : Run (Unit {0})}
      → w.serial.input ≡ b ∷ bs
      → leb line_size (base + length cur) ≡ false
      → (b == 10) ≡ true
      → accept_line client link_id base cur (reading w w.serial.line bs) ≡ done (false, base') v
      → Lists client link_id v base' [] n r
      → Lists client link_id w base cur (suc n) r
  faults :
      {w : World} {base b : ℕ} {cur bs : List ℕ}
      → w.serial.input ≡ b ∷ bs
      → leb line_size (base + length cur) ≡ false
      → (b == 10) ≡ true
      → accept_line client link_id base cur (reading w w.serial.line bs) ≡ fault
      → Lists client link_id w base cur 1 fault
  waits :
      {w : World} {base b : ℕ} {cur bs : List ℕ}
      → w.serial.input ≡ b ∷ bs
      → leb line_size (base + length cur) ≡ false
      → (b == 10) ≡ true
      → accept_line client link_id base cur (reading w w.serial.line bs) ≡ blocked
      → Lists client link_id w base cur 1 blocked

module _ {client : SerialClient} (cl : (n : ℕ) → ClientKeeps (InputWithin n) client) where
  module _ (before : List ℕ) where
    -- At most as many rounds as there are bytes.
    abbrev Runs : ℕ → World → Type 0
    Runs k w =
        (n : ℕ) × (n ≤ length w.serial.input)
        × Reads client before w n (read_until_signal client k before w)

    signal_rounds :
        (k : ℕ) (w : World) (line input : List ℕ)
        → ((v : World) → InputWithin (length input - 1) v → 0 < length input → Runs k v)
        → Runs (suc k) (reading w line input)
    unfolding read_until_signal read_byte next_byte
    signal_rounds k w line [] later = elim (Bool-cases w.serial.hangup) [
      | inl e ↦ rw e (0, omega arith, Reads.no_byte refl)
      | inr e ↦ rw e (0, omega arith, Reads.no_byte refl)
    ]
    signal_rounds k w line (b ∷ bs) later =
        go (read_round client before b (reading w line bs)) refl (
          (Keeps-read_round (InputWithin-IsStable (length bs)) (cl (length bs)) before b).keeps
            (reading w line bs) (within (omega arith)))
      where
        go :
            (r : Run Bool)
            → read_round client before b (reading w line bs) ≡ r
            → IfDone (λ _ v. InputWithin (length bs) v) r
            → (n : ℕ) × (n ≤ suc (length bs))
              × Reads client before
                  (reading w line (b ∷ bs))
                  n
                  (and_then r (λ s. if s then pure tt else read_until_signal client k before))
        go (done true v) e h = (1, omega arith, Reads.signals refl e)
        go (done false v) e (if_done (within fewer)) =
            let (n, le, d) = later v (within (omega arith)) (omega arith) in
            (suc n, omega arith, Reads.goes_on refl e d)
        go fault e h = (1, omega arith, Reads.faults refl e)
        go blocked e h = (1, omega arith, Reads.waits refl e)

    pub read_until_signal-Reads : (k : ℕ) (w : World) → length w.serial.input < k → Runs k w
    read_until_signal-Reads zero w h = absurd (omega arith)
    read_until_signal-Reads (suc k) w h =
        signal_rounds k w w.serial.line w.serial.input
          (λ v i some_input. elim i [ within fewer ↦ read_until_signal-Reads k v (omega arith) ])

  module _ (link_id : List ℕ) where
    abbrev Accepts : ℕ → ℕ → List ℕ → World → Type 0
    Accepts k base cur w =
        (n : ℕ) × (n ≤ length w.serial.input)
        × Lists client link_id w base cur n (accept_loop client k link_id base cur w)

    accept_rounds :
        (k : ℕ) (w : World) (line input : List ℕ) (base : ℕ) (cur : List ℕ)
        → ((v : World) (base' : ℕ) (cur' : List ℕ)
            → InputWithin (length input - 1) v
            → 0 < length input
            → Accepts k base' cur' v)
        → Accepts (suc k) base cur (reading w line input)
    unfolding accept_loop read_byte next_byte
    accept_rounds k w line [] base cur later = elim (Bool-cases w.serial.hangup) [
      | inl e ↦ rw e (0, omega arith, Lists.at_end refl refl)
      | inr e ↦ rw e (0, omega arith, Lists.no_byte refl refl)
    ]
    accept_rounds k w line (b ∷ bs) base cur later =
        elim (Bool-cases (leb line_size (base + length cur))) [
          | inl full ↦ rw full (1, omega arith, Lists.overruns refl full)
          | inr room ↦ rw room (elim (Bool-cases (b == 10)) [
            | inl end ↦ rw end (
                go end room (accept_line client link_id base cur (reading w line bs)) refl (
                  (Keeps-accept_line (InputWithin-IsStable (length bs)) (cl (length bs)) link_id
                      base cur).keeps
                    (reading w line bs) (within (omega arith))))
            | inr more ↦
                (let (n, le, d) =
                    later (reading w line bs) base (cur ++ b ∷ []) (within (omega arith))
                      (omega arith) in
                  rw more (suc n, omega arith, Lists.takes_byte refl room more d))
          ])
        ]
      where
        go :
            (b == 10) ≡ true
            → leb line_size (base + length cur) ≡ false
            → (r : Run (Bool × ℕ)) → accept_line client link_id base cur (reading w line bs) ≡ r
            → IfDone (λ _ v. InputWithin (length bs) v) r
            → (n : ℕ) × (n ≤ suc (length bs))
              × Lists client link_id (reading w line (b ∷ bs)) base cur n (
                  and_then r
                    (λ step. if step.0 then pure tt else accept_loop client k link_id step.1 []))
        go end room (done (true, base') v) e h = (1, omega arith, Lists.last_line refl room end e)
        go end room (done (false, base') v) e (if_done (within fewer)) =
            let (n, le, d) = later v base' [] (within (omega arith)) (omega arith) in
            (suc n, omega arith, Lists.one_line refl room end e d)
        go end room fault e h = (1, omega arith, Lists.faults refl room end e)
        go end room blocked e h = (1, omega arith, Lists.waits refl room end e)

    pub accept_loop-Lists :
        (k : ℕ) (w : World) (base : ℕ) (cur : List ℕ)
        → length w.serial.input < k
        → Accepts k base cur w
    accept_loop-Lists zero w base cur h = absurd (omega arith)
    accept_loop-Lists (suc k) w base cur h =
        accept_rounds k w w.serial.line w.serial.input base cur (λ v base' cur' i some_input.
          elim i [ within fewer ↦ accept_loop-Lists k v base' cur' (omega arith) ])
