-- ===== src/Net/Itoa/Print.antt =====
-- `itoa` of net/netdev.c in base 10.
use mathlib.Core.List.{reverse, reverse-append}
use esp_hostdriver.Prelude.{
  ℕ, zero, suc, ◌+◌, ◌/◌, ◌%◌, ◌≤◌, ◌<◌, ◌≡◌, refl, ap, ◌∙◌, inl, inr, Bool-cases, true, false,
  none, some, List, [], ◌∷◌, ◌++◌, arith, ltb, ◌==◌, eq_of_==, ne_of_==, ==_ne, if◌then◌else◌,
}
use esp_hostdriver.Libc.Decimal.{digits, print_d, ten, ten-pos, digits-fuel}
use esp_hostdriver.Net.Itoa.{digit, itoa_loop, itoa}

digit_ten : (v : ℕ) → digit v 10 ≡ b'0' + v % 10
digit_ten v = ground arith

rounds-pos : (k : ℕ) → 1 < ten k → 0 < k
rounds-pos zero h = absurd (omega arith)
rounds-pos (suc k) h = omega arith

-- The loop's digits, read backwards, are the printed ones, if the rounds are enough.
itoa_loop-digits :
    (k v : ℕ) (acc : List ℕ)
    → v < ten k
    → 0 < k
    → ((itoa_loop k v 10 acc).0 ≡ 0)
      × (reverse (itoa_loop k v 10 acc).1 ≡ digits (suc v) v (reverse acc))
unfolding itoa_loop digits
itoa_loop-digits zero v acc h pos = elim pos [ ]
itoa_loop-digits (suc k) v acc h pos = elim (Bool-cases (v / 10 == 0)) [
  | inl e ↦
      let small : ltb v 10 ≡ true = ground arith in
      rw (e, small, reverse-append acc (digit v 10 ∷ []), digit_ten v)
        (refl, ap (λ d. (b'0' + d) ∷ reverse acc) (ground arith))
  | inr e ↦
      let large : 10 ≤ v = omega (arith, ne_of_== (v / 10) 0 e) in
      let big : ltb v 10 ≡ false = ground arith in
      let more =
        itoa_loop-digits k (v / 10) (acc ++ digit v 10 ∷ []) (omega arith)
          (rounds-pos k (omega arith)) in
      rw (e, big)
        (
          more.0,
          more.1
              ∙ rw (reverse-append acc (digit v 10 ∷ []), digit_ten v)
                  (digits-fuel (suc (v / 10)) v (v / 10) ((b'0' + v % 10) ∷ reverse acc)
                    (omega arith) (omega arith)),
        )
]

-- Without enough rounds something is left.
itoa_loop-rest : (k v : ℕ) (acc : List ℕ) → ten k ≤ v → 0 < (itoa_loop k v 10 acc).0
unfolding itoa_loop
itoa_loop-rest zero v acc h = omega arith
itoa_loop-rest (suc k) v acc h = elim (Bool-cases (v / 10 == 0)) [
  | inl e ↦ absurd (omega (arith, ten-pos k, eq_of_== (v / 10) 0 e))
  | inr e ↦ rw e (itoa_loop-rest k (v / 10) (acc ++ digit v 10 ∷ []) (omega arith))
]

-- `itoa` in base 10 with a buffer of `len > 0` bytes: a number of at most `len` digits is printed as
-- `%d` prints it, and for any other the result is null.
pub itoa-print_d :
    (v len : ℕ) → 0 < len → itoa v 10 len ≡ (if ltb v (ten len) then some (print_d v) else none)
unfolding itoa print_d
itoa-print_d v len pos = elim (Bool-cases (ltb v (ten len))) [
  | inl small ↦
      let d = itoa_loop-digits len v [] (ground arith) pos in rw (small, d.0) (ap some d.1)
  | inr big ↦
      let low : ten len ≤ v = ground arith in
      rw (big, ==_ne (itoa_loop len v 10 []).0 0 (omega (arith, itoa_loop-rest len v [] low)))
]
