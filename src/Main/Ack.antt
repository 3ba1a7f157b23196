-- ===== src/Main/Ack.antt =====
-- The answer of `recv_thread` in main/main.c.
use esp_hostdriver.Libc.Strings.{cut}
use esp_hostdriver.Prelude.{
  ℕ, ◌-◌, ◌≤◌, ◌<◌, ◌≡◌, ◌≢◌, refl, ap, none, some, List, [], ◌∷◌, ◌++◌, ltb, ==_ne, arith, length,
  length-append, take-append, take-length, get_or, All, if◌then◌else◌, Bool-cases, inl, inr, Option,
  subst, append-nil, take,
}
use esp_hostdriver.Prelude.Codes.{codes}
use esp_hostdriver.Libc.Decimal.{print_d, length-print_d-le}
use esp_hostdriver.Serial.Line.{c_string}
use esp_hostdriver.Main.{ack}

c_string-text : (s : List ℕ) → All (λ c. c ≢ 0) s → c_string s ≡ s
c_string-text [] h = refl
c_string-text (c ∷ s) h = rw (==_ne c 0 h.0) (ap (λ r. c ∷ r) (c_string-text s h.1))

get_or-last : (s : List ℕ) (x : ℕ) → get_or (s ++ x ∷ []) (length s) 0 ≡ x
get_or-last [] x = refl
get_or-last (y ∷ s) x = get_or-last s x

-- The answer to a text.
abbrev pub answer : List ℕ → Option (List ℕ)
answer s = if ltb (length s) 16 then some (codes "ack " ++ print_d (length s)) else none

-- What `ack` makes of a text and what stands behind it.
answer-taken :
    (s t : List ℕ)
    → All (λ c. c ≢ 0) s
    → (if ltb (length s) 16
        then some (cut 16 (codes "ack " ++ print_d (length (c_string (take (length s) (s ++ t))))))
        else none)
      ≡ answer s
answer-taken s t text = elim (Bool-cases (ltb (length s) 16)) [
  | inl short ↦
      (let few : length s < 16 = ground arith in
        let fits : length (codes "ack " ++ print_d (length s)) ≤ 15 =
          omega (arith, length-print_d-le 1 (length s) (omega arith)) in
        rw short (
          rw (take-append (length s) s t refl, c_string-text s text)
            (ap some (take-length 15 (codes "ack " ++ print_d (length s)) fits))))
  | inr long ↦ rw long refl
]

-- What `recv_thread` answers to a text without a byte 0 that does not end in a newline: `ack` and its
-- length, with a newline behind it as without one. If the text is of 16 bytes, which `bos_recvfrom` may
-- return, there is no answer, since the 0 that is put behind it is written behind the buffer.
pub ack-answer :
    (s : List ℕ)
    → All (λ c. c ≢ 0) s
    → get_or s (length s - 1) 0 ≢ 10
    → (ack (s ++ 10 ∷ []) ≡ answer s) × (ack s ≡ answer s)
unfolding ack
ack-answer s text other =
    let last : length (s ++ 10 ∷ []) - 1 ≡ length s = omega (arith, length-append s (10 ∷ [])) in
    (
      rw (last, get_or-last s 10) (answer-taken s (10 ∷ []) text),
      rw (==_ne (get_or s (length s - 1) 0) 10 other) (
          subst
            (λ l.
              (if ltb (length s) 16
                then some (cut 16 (codes "ack " ++ print_d (length (c_string (take (length s) l)))))
                else none)
              ≡ answer s)
            (append-nil s) (answer-taken s [] text)),
    )
