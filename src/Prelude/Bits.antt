-- ===== src/Prelude/Bits.antt =====
-- `&` and `|` on words, as arithmetic: the law of the lowest bit, masks and disjoint parts.
use Prim.Native.Nat.{
  ℕ, zero, suc, ◌+◌, ◌*◌, ◌/◌, ◌%◌, ◌≤◌, ◌<◌, min, max, bit_and, bit_or, digits, bit_and-bitwise,
  bit_or-bitwise,
}
use mathlib.Core.Path.{◌≡◌, refl, sym, ◌∙◌, ap}
use native.Mathlib.Omega.{arith}

-- More fuel than bits does not change the digits that are joined.
module _ (z : ℕ → ℕ) (f : ℕ → ℕ → ℕ) where
  same_digits : (x y : ℕ) (i j : ℕ) → x ≤ i → x ≤ j → digits z f i x y ≡ digits z f j x y
  same_digits zero y zero zero hi hj = refl
  same_digits zero y zero (suc j) hi hj = refl
  same_digits zero y (suc i) zero hi hj = refl
  same_digits zero y (suc i) (suc j) hi hj = refl
  same_digits (suc x) y zero j hi hj = elim hi [ ]
  same_digits (suc x) y (suc i) zero hi hj = elim hj [ ]
  same_digits (suc x) y (suc i) (suc j) hi hj =
      ap (λ k. k * 2 + f (suc x % 2) (y % 2))
        (same_digits (suc x / 2) (y / 2) i j (omega arith) (omega arith))

  lowest_digit :
      (x y : ℕ)
      → digits z f (suc x) (suc x) y
        ≡ digits z f (suc x / 2) (suc x / 2) (y / 2) * 2 + f (suc x % 2) (y % 2)
  lowest_digit x y =
      ap (λ k. k * 2 + f (suc x % 2) (y % 2))
        (same_digits (suc x / 2) (y / 2) x (suc x / 2) (omega arith) (omega arith))

pub bit_or_step : (a b : ℕ) → bit_or a b ≡ bit_or (a / 2) (b / 2) * 2 + max (a % 2) (b % 2)
bit_or_step zero b = omega (arith, bit_or-bitwise 0 b, bit_or-bitwise 0 (b / 2))
bit_or_step (suc a) b = omega (
  arith,
  bit_or-bitwise (suc a) b,
  bit_or-bitwise (suc a / 2) (b / 2),
  lowest_digit (λ b. b) max a b,
)

pub bit_and_step : (x y : ℕ) → bit_and x y ≡ bit_and (x / 2) (y / 2) * 2 + min (x % 2) (y % 2)
bit_and_step zero y = omega (arith, bit_and-bitwise 0 y, bit_and-bitwise 0 (y / 2))
bit_and_step (suc x) y = omega (
  arith,
  bit_and-bitwise (suc x) y,
  bit_and-bitwise (suc x / 2) (y / 2),
  lowest_digit (λ b. 0) min x y,
)

-- `a * 2 ^ k`
abbrev pub double : ℕ → ℕ → ℕ
double zero a = a
double (suc k) a = double k a * 2

-- `a / 2 ^ k`
abbrev pub halve : ℕ → ℕ → ℕ
halve zero a = a
halve (suc k) a = halve k a / 2

bit_or-zero_fuel : (n a : ℕ) → a ≤ n → bit_or a 0 ≡ a
bit_or-zero_fuel n zero h = refl
bit_or-zero_fuel zero (suc a) h = elim h [ ]
bit_or-zero_fuel (suc n) (suc a) h =
    omega (arith, bit_or_step (suc a) 0, bit_or-zero_fuel n (suc a / 2) (omega arith))

-- `|` of a word shifted to the left and a part that fits below it is their sum.
pub bit_or-double : (k a b : ℕ) → b < double k 1 → bit_or (double k a) b ≡ double k a + b
bit_or-double zero a zero h = bit_or-zero_fuel a a (omega arith) ∙ omega arith
bit_or-double zero a (suc b) h = absurd (omega arith)
bit_or-double (suc k) a b h =
    let half : double k a * 2 / 2 ≡ double k a = omega arith in
    omega (
      arith,
      bit_or_step (double k a * 2) b,
      ap (λ t. bit_or t (b / 2)) half,
      bit_or-double k a (b / 2) (omega arith),
    )

bit_and-zero_fuel : (n a : ℕ) → a ≤ n → bit_and a 0 ≡ 0
bit_and-zero_fuel n zero h = refl
bit_and-zero_fuel zero (suc a) h = elim h [ ]
bit_and-zero_fuel (suc n) (suc a) h =
    omega (arith, bit_and_step (suc a) 0, bit_and-zero_fuel n (suc a / 2) (omega arith))

pub bit_and-zero : (a : ℕ) → bit_and a 0 ≡ 0
bit_and-zero a = bit_and-zero_fuel a a (omega arith)

-- A mask of one more bit, at the sizes that a byte goes through.
module _ (m a : ℕ) where
  mask_step : bit_and a (m * 2 + 1) ≡ bit_and (a / 2) m * 2 + a % 2
  mask_step = omega (arith, bit_and_step a (m * 2 + 1), ap (bit_and (a / 2)) half)
    where
      half : (m * 2 + 1) / 2 ≡ m
      half = omega arith

bit_and_nibble_mask : (a : ℕ) → bit_and a 15 ≡ a % 16
bit_and_nibble_mask a = omega (
  arith,
  mask_step 7 a,
  mask_step 3 (a / 2),
  mask_step 1 (a / 2 / 2),
  mask_step 0 (a / 2 / 2 / 2),
  bit_and-zero (a / 2 / 2 / 2 / 2),
)

bit_and_byte_mask : (a : ℕ) → bit_and a 255 ≡ a % 256
bit_and_byte_mask a = omega (
  arith,
  mask_step 127 a,
  mask_step 63 (a / 2),
  mask_step 31 (a / 2 / 2),
  mask_step 15 (a / 2 / 2 / 2),
  bit_and_nibble_mask (a / 2 / 2 / 2 / 2),
)

halve-half : (k a : ℕ) → halve k a / 2 ≡ halve k (a / 2)
halve-half zero a = refl
halve-half (suc k) a = ap (λ t. t / 2) (halve-half k a)

-- `(a & (m << k)) >> k` is `(a >> k) & m`.
bit_and-double : (k a m : ℕ) → halve k (bit_and a (double k m)) ≡ bit_and (halve k a) m
bit_and-double zero a m = refl
bit_and-double (suc k) a m =
    let half : double k m * 2 / 2 ≡ double k m = omega arith in
    let step : bit_and a (double k m * 2) / 2 ≡ bit_and (a / 2) (double k m) =
      omega (arith, bit_and_step a (double k m * 2), ap (bit_and (a / 2)) half) in
    halve-half k (bit_and a (double k m * 2))
    ∙ ap (halve k) step
    ∙ bit_and-double k (a / 2) m
    ∙ ap (λ t. bit_and t m) (sym (halve-half k a))

pub byte_of_word : (k a : ℕ) → halve k (bit_and a (double k 255)) ≡ halve k a % 256
byte_of_word k a = bit_and-double k a 255 ∙ bit_and_byte_mask (halve k a)
