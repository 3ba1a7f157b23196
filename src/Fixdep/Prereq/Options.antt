-- ===== src/Fixdep/Prereq/Options.antt =====
-- What `parse_prereq` of scripts/build/fixdep/fixdep.c looks for, as a search byte by byte.
pub mod Bytes
pub mod Words
pub mod Scan
use esp_hostdriver.Prelude.{
  ℕ, zero, suc, ◌+◌, ◌-◌, ◌*◌, ◌≤◌, ◌<◌, ◌≡◌, refl, sym, ◌∙◌, ap, Bool, true, false, List, [], ◌∷◌,
  ◌++◌, arith, Option, none, some, ◌==◌, ltb, leb, if◌then◌else◌, Bool-cases, Option-cases, inl,
  inr, take, drop, get_or, length, length-take, length-drop, take-length,
}
use esp_hostdriver.Libc.Strings.{str_eq}
use esp_hostdriver.Fixdep.{Item, Tool, Cmd, Run, done, pure, and_then, ◌>>=◌, ◌>>◌}
use esp_hostdriver.Fixdep.Hashtbl.{find_item, hashtbl_add, hashtbl_lookup, strhash}
use esp_hostdriver.Fixdep.Hashtbl.Set.{str_eq_same}
use esp_hostdriver.Fixdep.Prereq.{print_option, update_prereq, option_end, prefix}

-- The options that a text names: what stands between a `CONFIG_` and the next character that no name
-- has, wherever it stands.
unfoldable pub options : List ℕ → List (List ℕ)
options [] = []
options (c ∷ s) =
    let rest = options s in
    let tail = drop 7 (c ∷ s) in
    if str_eq (take 7 (c ∷ s)) prefix
    then elim (option_end tail) [ none ↦ rest | some n ↦ take n tail ∷ rest ]
    else rest

-- `update_prereq` for each name.
unfoldable pub update_each : List ℕ → List (List ℕ) → Cmd Unit
update_each conf_dir [] = pure tt
update_each conf_dir (n ∷ names) = update_prereq conf_dir n (length n) >> update_each conf_dir names

abbrev pub update_end : List ℕ → List ℕ → Option ℕ → Cmd Unit
update_end conf_dir tail none = pure tt
update_end conf_dir tail (some n) = update_prereq conf_dir (take n tail) (length (take n tail))

-- The first step of `update_each` on the options of `s`.
unfoldable pub update_here : List ℕ → List ℕ → Cmd Unit
update_here conf_dir s =
    if str_eq (take 7 s) prefix
    then update_end conf_dir (drop 7 s) (option_end (drop 7 s))
    else pure tt

pub options_step :
    (dir : List ℕ) (c : ℕ) (s : List ℕ)
    → update_each dir (options (c ∷ s)) ≡ update_here dir (c ∷ s) >> update_each dir (options s)
unfolding options update_here update_each
options_step dir c s = elim (Bool-cases (str_eq (take 7 (c ∷ s)) prefix)) [
  | inr e ↦ rw e refl
  | inl e ↦ elim (Option-cases (option_end (drop 7 (c ∷ s)))) [
    | inl f ↦ rw (e, f) refl
    | inr (n, f) ↦ rw (e, f) refl
  ]
]

-- A text of less than 7 bytes names no option.
pub prefix_short : (s : List ℕ) → length s < 7 → str_eq (take 7 s) prefix ≡ false
prefix_short s h = elim (Bool-cases (str_eq (take 7 s) prefix)) [
  | inr e ↦ e
  | inl e ↦ absurd (omega (arith, length-take 7 s, ap length (str_eq_same (take 7 s) prefix e)))
]

pub options_short : (s : List ℕ) → length s < 7 → options s ≡ []
unfolding options
options_short [] h = refl
options_short (c ∷ s) h = rw (prefix_short (c ∷ s) h, options_short s (omega arith)) refl

pub take-take : {A : Type 0} (n m : ℕ) (xs : List A) → n ≤ m → take n (take m xs) ≡ take n xs
take-take zero m xs h = refl
take-take (suc n) zero xs h = absurd (omega arith)
take-take (suc n) (suc m) [] h = refl
take-take (suc n) (suc m) (x ∷ xs) h = ap (λ r. x ∷ r) (take-take n m xs (omega arith))

pub drop-take :
    {A : Type 0} (n m k : ℕ) (xs : List A) → k ≡ m - n → drop n (take m xs) ≡ take k (drop n xs)
drop-take zero m k xs h = ap (λ j. take j xs) (omega arith)
drop-take (suc n) zero k xs h =
    let nothing : 0 ≡ k = omega arith in ap (λ j. take j (drop (suc n) xs)) nothing
drop-take (suc n) (suc m) k [] h = sym (take-length k [] (omega arith))
drop-take (suc n) (suc m) k (x ∷ xs) h = drop-take n m k xs (omega arith)

pub drop-drop : {A : Type 0} (n m k : ℕ) (xs : List A) → k ≡ m + n → drop n (drop m xs) ≡ drop k xs
drop-drop n zero k xs h = ap (λ j. drop j xs) (omega arith)
drop-drop zero (suc m) zero [] h = refl
drop-drop zero (suc m) (suc k) [] h = refl
drop-drop (suc n) (suc m) zero [] h = refl
drop-drop (suc n) (suc m) (suc k) [] h = refl
drop-drop n (suc m) zero (x ∷ xs) h = absurd (omega arith)
drop-drop n (suc m) (suc k) (x ∷ xs) h = drop-drop n m k xs (omega arith)

pub option_end-le : (s : List ℕ) (n : ℕ) → option_end s ≡ some n → n ≤ length s
unfolding option_end
option_end-le [] n h = absurd cc
option_end-le (c ∷ s) n h = elim (Option-cases (option_end s)) [
  | inl e ↦ ground (arith, e)
  | inr (m, e) ↦ ground (arith, e, option_end-le s m e)
]

find_item-take :
    (items : List Item) (m name : List ℕ) (n hash : ℕ)
    → take n m ≡ name
    → take n name ≡ name
    → find_item items m n hash ≡ find_item items name n hash
unfolding find_item
find_item-take [] m name n hash e f = refl
find_item-take (aux ∷ items) m name n hash e f =
    rw (e, f, find_item-take items m name n hash e f) refl

-- Only the bytes of the name matter, not what is behind them.
pub update_prereq-take :
    (dir m name : List ℕ) (n : ℕ) (t : Tool)
    → take n m ≡ name
    → length name ≡ n
    → update_prereq dir m n t ≡ update_prereq dir name (length name) t
unfolding update_prereq print_option hashtbl_add hashtbl_lookup strhash
update_prereq-take dir m name n t e l =
    let f = take-length n name (omega arith) in
    rw (l, e, f, find_item-take (t.hashtab _) m name n _ e f) refl
