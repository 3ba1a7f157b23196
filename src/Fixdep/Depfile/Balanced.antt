-- ===== src/Fixdep/Depfile/Balanced.antt =====
-- Commands of scripts/build/fixdep that leave files and mappings as they were.
use esp_hostdriver.Prelude.{
  ℕ, ◌≤◌, ◌≡◌, refl, ◌∙◌, Bool, true, false, List, [], ◌∷◌, ◌==◌, if◌then◌else◌, Option-cases, inl,
  inr, take, drop, length,
}
use esp_hostdriver.Fixdep.{Tool, Cmd, Run, done, exited, fault, pure, and_then, ◌>>=◌, print}
use esp_hostdriver.Fixdep.Hashtbl.{strhash, hashtbl_add, hashtbl_lookup}
use esp_hostdriver.Fixdep.Prereq.{Endian, print_option, update_prereq, parse_prereq}
use esp_hostdriver.Fixdep.Prereq.Options.{options, update_each}
use esp_hostdriver.Fixdep.Prereq.Options.Scan.{parse_prereq-options}
use esp_hostdriver.Fixdep.Depfile.{c_string, with_string}

-- If the call returns, the same files are open and as many mappings are there.
abbrev pub Returns : {A : Type 0} → Tool → Run A → Type 0
Returns t (done a t') = (t'.files ≡ t.files) × (t'.maps ≡ t.maps)
Returns t (exited code t') = Unit
Returns t fault = Unit

pub record IsBalanced {A : Type 0} (m : Cmd A) : Type 0 where
  pub returns : (t : Tool) → Returns t (m t)

pub Returns-from :
    {A : Type 0} (t u : Tool) (r : Run A)
    → u.files ≡ t.files
    → u.maps ≡ t.maps
    → Returns u r
    → Returns t r
Returns-from t u (done a t') e g h = (h.0 ∙ e, h.1 ∙ g)
Returns-from t u (exited code t') e g h = tt
Returns-from t u fault e g h = tt

pub Returns-bind :
    {A B : Type 0} (t : Tool) (r : Run A) (f : A → Cmd B)
    → Returns t r
    → ((a : A) → IsBalanced (f a))
    → Returns t (and_then r f)
Returns-bind t (done a t') f h k = Returns-from t t' (f a t') h.0 h.1 ((k a).returns t')
Returns-bind t (exited code t') f h k = tt
Returns-bind t fault f h k = tt

pub IsBalanced-bind :
    {A B : Type 0} {m : Cmd A} {f : A → Cmd B}
    → IsBalanced m
    → ((a : A) → IsBalanced (f a))
    → IsBalanced (m >>= f)
IsBalanced-bind {m = m} {f = f} h k = record {
  returns = λ t. Returns-bind t (m t) f (h.returns t) k;
}

pub IsBalanced-if :
    {A : Type 0} {m k : Cmd A} (b : Bool)
    → IsBalanced m
    → IsBalanced k
    → IsBalanced (if b then m else k)
IsBalanced-if true h l = h
IsBalanced-if false h l = l

pub IsBalanced-pure : {A : Type 0} (a : A) → IsBalanced (pure a)
IsBalanced-pure a = record { returns = λ t. (refl, refl) }

pub IsBalanced-print : (s : List ℕ) → IsBalanced (print s)
IsBalanced-print s = record { returns = λ t. (refl, refl) }

pub IsBalanced-fault : {A : Type 0} → IsBalanced {A = A} (λ t. fault)
IsBalanced-fault = record { returns = λ t. tt }

pub IsBalanced-with_string :
    {A : Type 0} (m : List ℕ) (f : List ℕ → Cmd A)
    → ((s : List ℕ) → IsBalanced (f s))
    → IsBalanced (with_string m f)
unfolding with_string
IsBalanced-with_string {A} m f h = elim (Option-cases (c_string m)) [
  | inl e ↦ rw (with_string, e) IsBalanced-fault
  | inr (s, e) ↦ rw (with_string, e) (h s)
]

pub Returns-if :
    {A : Type 0} (t : Tool) (r q : Run A) (b : Bool)
    → Returns t r
    → Returns t q
    → Returns t (if b then r else q)
Returns-if t r q true h k = h
Returns-if t r q false h k = k

pub IsBalanced-hashtbl_add : (m : List ℕ) (n : ℕ) → IsBalanced (hashtbl_add m n)
unfolding hashtbl_add
IsBalanced-hashtbl_add m n = record {
  returns = λ t.
      Returns-if t _ _ (hashtbl_lookup m n (strhash m n) t) (refl, refl)
        (Returns-if t _ _ (t.budget == 0) tt (refl, refl));
}

pub IsBalanced-print_option : (dir m : List ℕ) (n : ℕ) → IsBalanced (print_option dir m n)
unfolding print_option
IsBalanced-print_option dir m n = record { returns = λ t. (refl, refl) }

pub IsBalanced-update_prereq : (dir m : List ℕ) (n : ℕ) → IsBalanced (update_prereq dir m n)
unfolding update_prereq
IsBalanced-update_prereq dir m n =
    IsBalanced-bind (IsBalanced-hashtbl_add m n)
      (λ there. IsBalanced-if there (IsBalanced-pure tt) (IsBalanced-print_option dir m n))

pub IsBalanced-update_each :
    (dir : List ℕ) (names : List (List ℕ)) → IsBalanced (update_each dir names)
unfolding update_each
IsBalanced-update_each dir [] = IsBalanced-pure tt
IsBalanced-update_each dir (n ∷ names) =
    IsBalanced-bind (IsBalanced-update_prereq dir n (length n))
      (λ _. IsBalanced-update_each dir names)

pub IsBalanced-parse_prereq :
    (dir mem : List ℕ) (len : ℕ) (e : Endian)
    → len ≤ length mem
    → IsBalanced (parse_prereq dir mem len e)
IsBalanced-parse_prereq dir mem len e fits = record {
  returns = λ t.
      rw (parse_prereq-options dir mem len fits e t)
        ((IsBalanced-update_each dir (options (drop 1 (take len mem)))).returns t);
}
