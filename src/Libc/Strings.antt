-- ===== src/Libc/Strings.antt =====
-- `strcmp`, `strncmp`, `strtok` and the cut that `snprintf` makes.
use esp_hostdriver.Prelude.{
  ℕ, zero, suc, ◌-◌, ◌≡◌, ◌≢◌, Bool, true, false, ◌&&◌, List, [], ◌∷◌, ◌++◌, take, All, ◌==◌, ==_ne,
  if◌then◌else◌, append-nil, append_assoc, ap, ◌∙◌,
}

-- `strcmp(a, b) == 0`
abbrev pub str_eq : List ℕ → List ℕ → Bool
str_eq [] [] = true
str_eq [] (b ∷ bs) = false
str_eq (a ∷ as') [] = false
str_eq (a ∷ as') (b ∷ bs) = a == b && str_eq as' bs

-- `strncmp(a, b, n) == 0`
abbrev pub strn_eq : List ℕ → List ℕ → ℕ → Bool
strn_eq a b zero = true
strn_eq [] [] (suc n) = true
strn_eq [] (b ∷ bs) (suc n) = false
strn_eq (a ∷ as') [] (suc n) = false
strn_eq (a ∷ as') (b ∷ bs) (suc n) = a == b && strn_eq as' bs n

-- What `snprintf(s, n, …)` leaves in `s` of its output: at most `n - 1` bytes. (For `n` 0 it leaves
-- `s` alone; no caller passes 0.)
abbrev pub cut : ℕ → List ℕ → List ℕ
cut n out = take (n - 1) out

-- A token, unless it is empty.
abbrev pub flush : List ℕ → List (List ℕ) → List (List ℕ)
flush [] ts = ts
flush (c ∷ cs) ts = (c ∷ cs) ∷ ts

-- The tokens of `strtok` with one delimiter, `cur` being the part of the first that is read.
unfoldable pub tokens : ℕ → List ℕ → List ℕ → List (List ℕ)
tokens sep cur [] = flush cur []
tokens sep cur (c ∷ s) =
    let ended = flush cur (tokens sep [] s) in
    let longer = tokens sep (cur ++ c ∷ []) s in if c == sep then ended else longer

-- A part without delimiters goes to the token whole.
pub tokens-append :
    (sep : ℕ) (cur part s : List ℕ)
    → All (λ c. c ≢ sep) part
    → tokens sep cur (part ++ s) ≡ tokens sep (cur ++ part) s
unfolding tokens
tokens-append sep cur [] s h = rw append-nil
tokens-append sep cur (c ∷ part) s h = rw (==_ne c sep h.0) (
    tokens-append sep (cur ++ c ∷ []) part s h.1
    ∙ ap (λ t. tokens sep t s) (append_assoc cur (c ∷ []) part))
