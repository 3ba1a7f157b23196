-- ===== src/Libc/Decimal.antt =====
-- `%d` of printf, and `atoi`.
use esp_hostdriver.Prelude.{
  ℕ, zero, suc, ◌+◌, ◌-◌, ◌*◌, ◌/◌, ◌%◌, ◌^◌, ◌≤◌, ◌<◌, ◌≡◌, refl, ◌∙◌, ap, sym, Bool, true, false,
  ◌&&◌, ◌||◌, List, [], ◌∷◌, ◌++◌, arith, length, All, ltb, leb, ◌==◌, if◌then◌else◌, Bool-cases,
  inl, inr,
}

-- The decimal digits of `n`, in front of `rest`; one round for each digit.
unfoldable pub digits : ℕ → ℕ → List ℕ → List ℕ
digits zero n rest = rest
digits (suc fuel) n rest =
    let more = digits fuel (n / 10) ((b'0' + n % 10) ∷ rest) in
    if ltb n 10 then (b'0' + n) ∷ rest else more

-- `%d` of a number that is not negative.
unfoldable pub print_d : ℕ → List ℕ
unfolding digits
print_d n = digits (suc n) n []

abbrev pub is_digit : ℕ → Bool
is_digit c = leb b'0' c && leb c b'9'

-- White space of the C locale.
abbrev pub is_space : ℕ → Bool
is_space c = c == 32 || (leb 9 c && leb c 13)

-- The value of the leading digits, read behind the digits of `acc`.
pub scan : ℕ → List ℕ → ℕ
scan acc [] = acc
scan acc (c ∷ s) = if is_digit c then scan (acc * 10 + (c - b'0')) s else acc

-- A sign, then digits; the result is the bit pattern of an `int`.
unfoldable pub atoi_sign : List ℕ → ℕ
unfolding scan
atoi_sign [] = 0
atoi_sign (c ∷ s) =
    if c == b'-'
    then (2 ^ 32 - scan 0 s % 2 ^ 32) % 2 ^ 32
    else if c == b'+'
    then scan 0 s % 2 ^ 32
    else scan 0 (c ∷ s) % 2 ^ 32

-- `atoi`: the number at the start of a string, 0 if there is none. Outside the range of `int` C
-- leaves the result open; here it is taken modulo 2 ^ 32.
unfoldable pub atoi : List ℕ → ℕ
unfolding atoi_sign
atoi [] = 0
atoi (c ∷ s) = if is_space c then atoi s else atoi_sign (c ∷ s)

abbrev pub IsDigit : ℕ → Type 0
IsDigit c = (b'0' ≤ c) × (c ≤ b'9')

digits-IsDigit : (fuel n : ℕ) (rest : List ℕ) → All IsDigit rest → All IsDigit (digits fuel n rest)
unfolding digits
digits-IsDigit zero n rest h = h
digits-IsDigit (suc fuel) n rest h = elim (Bool-cases (ltb n 10)) [
  | inl small ↦ rw small ((omega arith, ground arith), h)
  | inr big ↦
      rw big (digits-IsDigit fuel (n / 10) ((b'0' + n % 10) ∷ rest) ((omega arith, omega arith), h))
]

pub print_d-IsDigit : (n : ℕ) → All IsDigit (print_d n)
unfolding print_d
print_d-IsDigit n = digits-IsDigit (suc n) n [] tt

scan_digit : (acc d : ℕ) (s : List ℕ) → d < 10 → scan acc ((b'0' + d) ∷ s) ≡ scan (acc * 10 + d) s
unfolding scan
scan_digit acc d s h =
    let test : is_digit (b'0' + d) ≡ true = ground arith in
    rw test (ap (λ k. scan k s) (omega arith))

scan-digits : (fuel n : ℕ) (rest : List ℕ) → n < fuel → scan 0 (digits fuel n rest) ≡ scan n rest
unfolding digits
scan-digits zero n rest h = elim h [ ]
scan-digits (suc fuel) n rest h = elim (Bool-cases (ltb n 10)) [
  | inl small ↦ rw small (scan_digit 0 n rest (ground arith) ∙ ap (λ k. scan k rest) (omega arith))
  | inr big ↦
      let large : 10 ≤ n = ground arith in
      rw big (
        scan-digits fuel (n / 10) ((b'0' + n % 10) ∷ rest) (omega arith)
        ∙ scan_digit (n / 10) (n % 10) rest (omega arith)
        ∙ ap (λ k. scan k rest) (omega arith))
]

-- A string that begins with a digit has no sign and no space in front.
atoi-scan_head : (c : ℕ) (s : List ℕ) → IsDigit c → atoi (c ∷ s) ≡ scan 0 (c ∷ s) % 2 ^ 32
unfolding atoi
atoi-scan_head c s digit =
    let a : is_space c ≡ false = ground (arith, digit) in
    let b : (c == b'-') ≡ false = ground (arith, digit) in
    let d : (c == b'+') ≡ false = ground (arith, digit) in rw a (rw b (rw d))

pub atoi-scan : (s : List ℕ) → All IsDigit s → atoi s ≡ scan 0 s % 2 ^ 32
unfolding atoi
atoi-scan [] h = refl
atoi-scan (c ∷ s) h = atoi-scan_head c s h.0

-- `atoi` reads back what `%d` prints.
pub atoi-print_d : (n : ℕ) → atoi (print_d n) ≡ n % 2 ^ 32
unfolding print_d scan
atoi-print_d n =
    atoi-scan (print_d n) (print_d-IsDigit n)
    ∙ ap (λ k. k % 2 ^ 32) (scan-digits (suc n) n [] (omega arith))

-- How many digits there are: 10 ^ k, and the two bounds.
abbrev pub ten : ℕ → ℕ
ten zero = 1
ten (suc k) = 10 * ten k

pub ten-pos : (k : ℕ) → 0 < ten k
ten-pos zero = omega arith
ten-pos (suc k) = omega (arith, ten-pos k)

pub length-digits-le :
    (k fuel n : ℕ) (rest : List ℕ)
    → n < ten (suc k)
    → length (digits fuel n rest) ≤ length rest + suc k
unfolding digits
length-digits-le k zero n rest h = omega arith
length-digits-le zero (suc fuel) n rest h =
    let small : ltb n 10 ≡ true = ground arith in rw small (omega arith)
length-digits-le (suc k) (suc fuel) n rest h = elim (Bool-cases (ltb n 10)) [
  | inl small ↦ rw small (omega arith)
  | inr big ↦
      rw big
        (omega (arith, length-digits-le k fuel (n / 10) ((b'0' + n % 10) ∷ rest) (omega arith)))
]

pub length-digits-ge :
    (k fuel n : ℕ) (rest : List ℕ)
    → n < fuel
    → ten k ≤ n
    → length rest + suc k ≤ length (digits fuel n rest)
unfolding digits
length-digits-ge k zero n rest h low = elim h [ ]
length-digits-ge zero (suc fuel) n rest h low = elim (Bool-cases (ltb n 10)) [
  | inl small ↦ rw small (omega arith)
  | inr big ↦
      let large : 10 ≤ n = ground arith in
      rw big (
        omega (
          arith,
          length-digits-ge zero fuel (n / 10) ((b'0' + n % 10) ∷ rest) (omega arith) (omega arith),
        ))
]
length-digits-ge (suc k) (suc fuel) n rest h low = elim (Bool-cases (ltb n 10)) [
  | inl small ↦ let low' : n < 10 = ground arith in absurd (omega (arith, ten-pos k))
  | inr big ↦
      let large : 10 ≤ n = ground arith in
      rw big (
        omega (
          arith,
          length-digits-ge k fuel (n / 10) ((b'0' + n % 10) ∷ rest) (omega arith) (omega arith),
        ))
]

-- More fuel than digits changes nothing, and what stands behind stays behind.
pub digits-fuel : (k m n : ℕ) (rest : List ℕ) → n < k → n < m → digits k n rest ≡ digits m n rest
unfolding digits
digits-fuel zero m n rest p q = elim p [ ]
digits-fuel (suc k) zero n rest p q = elim q [ ]
digits-fuel (suc k) (suc m) n rest p q = elim (Bool-cases (ltb n 10)) [
  | inl small ↦ rw (small)
  | inr big ↦
      let large : 10 ≤ n = ground arith in
      rw (big) (digits-fuel k m (n / 10) ((b'0' + n % 10) ∷ rest) (omega arith) (omega arith))
]

digits-append :
    (fuel n : ℕ) (rest more : List ℕ) → digits fuel n (rest ++ more) ≡ digits fuel n rest ++ more
unfolding digits
digits-append zero n rest more = refl
digits-append (suc fuel) n rest more = elim (Bool-cases (ltb n 10)) [
  | inl small ↦ rw (small)
  | inr big ↦ rw (big) (digits-append fuel (n / 10) ((b'0' + n % 10) ∷ rest) more)
]

pub length-print_d-le : (k n : ℕ) → n < ten (suc k) → length (print_d n) ≤ suc k
unfolding print_d
length-print_d-le k n h = omega (arith, length-digits-le k (suc n) n [] h)

pub length-print_d-ge : (k n : ℕ) → ten k ≤ n → suc k ≤ length (print_d n)
unfolding print_d
length-print_d-ge k n h = omega (arith, length-digits-ge k (suc n) n [] (omega arith) h)

-- The last digit is the remainder, and the others print the quotient.
pub print_d-div : (n : ℕ) → 10 ≤ n → print_d n ≡ print_d (n / 10) ++ (b'0' + n % 10) ∷ []
unfolding print_d digits
print_d-div n h =
    let big : ltb n 10 ≡ false = ground arith in
    rw big (
      digits-fuel n (suc (n / 10)) (n / 10) ((b'0' + n % 10) ∷ []) (omega arith) (omega arith)
      ∙ digits-append (suc (n / 10)) (n / 10) [] ((b'0' + n % 10) ∷ []))

pub length-print_d-pos : (n : ℕ) → 0 < length (print_d n)
unfolding print_d digits
length-print_d-pos n = elim (Bool-cases (ltb n 10)) [
  | inl small ↦ rw small (omega arith)
  | inr big ↦ let large : 10 ≤ n = ground arith in omega (arith, length-digits-ge 0 (suc n) n [])
]

-- The number in front of a byte that is no digit.
pub atoi-print_d_before :
    (n c : ℕ) (s : List ℕ) → is_digit c ≡ false → atoi (print_d n ++ c ∷ s) ≡ n % 2 ^ 32
unfolding print_d scan
atoi-print_d_before n c s h =
    let text : digits (suc n) n (c ∷ s) ≡ print_d n ++ c ∷ s = digits-append (suc n) n [] (c ∷ s) in
    from (print_d n) (print_d-IsDigit n) (length-print_d-pos n)
    ∙ ap (λ t. scan 0 t % 2 ^ 32) (sym text)
    ∙ ap (λ k. k % 2 ^ 32) (scan-digits (suc n) n (c ∷ s) (omega arith) ∙ rw h refl)
  where
    from :
        (d : List ℕ)
        → All IsDigit d
        → 0 < length d
        → atoi (d ++ c ∷ s) ≡ scan 0 (d ++ c ∷ s) % 2 ^ 32
    from [] h pos = elim pos [ ]
    from (x ∷ d) h pos = atoi-scan_head x (d ++ c ∷ s) h.0
