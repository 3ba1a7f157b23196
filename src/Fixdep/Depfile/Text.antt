-- ===== src/Fixdep/Depfile/Text.antt =====
-- How scripts/build/fixdep/fixdep.c takes the text of a dependency file apart.
use esp_hostdriver.Prelude.{
  ℕ, zero, suc, ◌+◌, ◌-◌, ◌<◌, ◌≡◌, ◌≢◌, refl, ap, Bool, true, false, not, List, [], ◌∷◌, ◌++◌,
  some, ==_ne, ltb, if◌then◌else◌, Bool-cases, inl, inr, arith, take, drop, set, get_or, length,
  All, take-append, take-length,
}
use esp_hostdriver.Libc.Strings.{str_eq}
use esp_hostdriver.Fixdep.Hashtbl.Set.{str_eq_same}
use esp_hostdriver.Fixdep.Files.{strrcmp}
use esp_hostdriver.Fixdep.Depfile.{run_length, c_string}

-- A run of the characters of `a` ends at `c`.
pub run_length-append :
    (p : ℕ → Bool) (a : List ℕ) (c : ℕ) (s : List ℕ)
    → All (λ x. p x ≡ true) a
    → p c ≡ false
    → run_length p (a ++ c ∷ s) ≡ length a
unfolding run_length
run_length-append p [] c s h e = rw e refl
run_length-append p (x ∷ a) c s (hx, h) e = rw (hx, run_length-append p a c s h e) refl

pub run_length_whole :
    (p : ℕ → Bool) (a : List ℕ) → All (λ x. p x ≡ true) a → run_length p a ≡ length a
unfolding run_length
run_length_whole p [] h = refl
run_length_whole p (x ∷ a) (hx, h) = rw (hx, run_length_whole p a h) refl

pub drop-append : (a s : List ℕ) → drop (length a) (a ++ s) ≡ s
drop-append [] s = refl
drop-append (x ∷ a) s = drop-append a s

pub drop-append_next :
    (n : ℕ) (a : List ℕ) (c : ℕ) (s : List ℕ) → n ≡ length a + 1 → drop n (a ++ c ∷ s) ≡ s
drop-append_next zero a c s h = absurd (omega arith)
drop-append_next (suc n) [] c s h = let none' : n ≡ 0 = omega arith in ap (λ j. drop j s) none'
drop-append_next (suc n) (x ∷ a) c s h = drop-append_next n a c s (omega arith)

pub set-append : (a : List ℕ) (c d : ℕ) (s : List ℕ) → set (a ++ c ∷ s) (length a) d ≡ a ++ d ∷ s
set-append [] c d s = refl
set-append (x ∷ a) c d s = ap (λ r. x ∷ r) (set-append a c d s)

pub take-append_more : (n k : ℕ) (a s : List ℕ) → n ≡ length a + k → take n (a ++ s) ≡ a ++ take k s
take-append_more n k [] s h = ap (λ j. take j s) (omega arith)
take-append_more zero k (x ∷ a) s h = absurd (omega arith)
take-append_more (suc n) k (x ∷ a) s h = ap (λ r. x ∷ r) (take-append_more n k a s (omega arith))

-- A string ends at its 0.
pub c_string-append : (a s : List ℕ) → All (λ x. x ≢ 0) a → c_string (a ++ 0 ∷ s) ≡ some a
unfolding c_string
c_string-append [] s h = refl
c_string-append (x ∷ a) s (hx, h) = rw (==_ne x 0 hx, c_string-append a s h) refl

-- Whether a text ends in another.
unfoldable pub ends_in : List ℕ → List ℕ → Bool
ends_in [] sub = str_eq [] sub
ends_in (c ∷ s) sub = let rest = ends_in s sub in if str_eq (c ∷ s) sub then true else rest

str_eq-length : (s sub : List ℕ) → length s ≢ length sub → str_eq s sub ≡ false
str_eq-length s sub h = elim (Bool-cases (str_eq s sub)) [
  | inr e ↦ e
  | inl e ↦ absurd (h (ap length (str_eq_same s sub e)))
]

ends_in_short : (s sub : List ℕ) → length s < length sub → ends_in s sub ≡ false
unfolding ends_in
ends_in_short [] sub h = str_eq-length [] sub (λ e. omega arith)
ends_in_short (c ∷ s) sub h =
    rw (str_eq-length (c ∷ s) sub (λ e. omega arith), ends_in_short s sub (omega arith)) refl

end-ends_in :
    (s behind sub : List ℕ) (n : ℕ)
    → n + length sub ≡ length s
    → str_eq (take (length sub) (drop n (s ++ behind))) sub ≡ ends_in s sub
unfolding ends_in
end-ends_in [] behind [] zero h = refl
end-ends_in [] behind (x ∷ sub) zero h = absurd (omega arith)
end-ends_in [] behind sub (suc n) h = absurd (omega arith)
end-ends_in (c ∷ s) behind sub zero h =
    rw (take-append (length sub) (c ∷ s) behind (omega arith), ends_in_short s sub (omega arith))
      (elim (Bool-cases (str_eq (c ∷ s) sub)) [ inl e ↦ rw e refl | inr e ↦ rw e refl ])
end-ends_in (c ∷ s) behind sub (suc n) h =
    rw (str_eq-length (c ∷ s) sub (λ e. omega arith)) (end-ends_in s behind sub n (omega arith))

-- `strrcmp` compares the end of the text.
pub strrcmp-ends_in :
    (s behind sub : List ℕ)
    → strrcmp (s ++ behind) (length s) sub (length sub) ≡ not (ends_in s sub)
unfolding strrcmp
strrcmp-ends_in s behind sub = elim (Bool-cases (ltb (length s) (length sub))) [
  | inl e ↦ rw (e, ends_in_short s sub (ground arith)) refl
  | inr e ↦
      let n = length s - length sub in
      rw (e, take-length (length sub) sub (omega arith))
        (ap not (end-ends_in s behind sub n (ground arith)))
]

pub get_or-append : (a s : List ℕ) (i d : ℕ) → i < length a → get_or (a ++ s) i d ≡ get_or a i d
get_or-append [] s i d h = absurd (omega arith)
get_or-append (x ∷ a) s zero d h = refl
get_or-append (x ∷ a) s (suc i) d h = get_or-append a s i d (omega arith)
