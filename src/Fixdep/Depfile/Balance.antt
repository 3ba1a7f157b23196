-- ===== src/Fixdep/Depfile/Balance.antt =====
-- scripts/build/fixdep unmaps and closes each file that it maps.
use esp_hostdriver.Prelude.{
  ℕ, zero, suc, ◌+◌, ◌-◌, ◌≡◌, refl, not, ◌||◌, List, [], ◌∷◌, ◌++◌, ◌==◌, ltb, if◌then◌else◌, take,
  drop, set, length, get_or,
}
use esp_hostdriver.Prelude.Codes.{codes}
use esp_hostdriver.Fixdep.{Tool, Cmd, done, pure, ◌>>◌, print}
use esp_hostdriver.Fixdep.Hashtbl.{hashtbl_clear}
use esp_hostdriver.Fixdep.Prereq.{Endian, little, big, word, int_conf, parse_prereq}
use esp_hostdriver.Fixdep.Files.{Os, strrcmp, traps}
use esp_hostdriver.Fixdep.Depfile.{
  is_blank, run_length, with_string, end_string, print_rest, dep_target, dep_item, add_prereq,
  dep_round, dep_loop, parse_dep_file, fixdep_main,
}
use esp_hostdriver.Fixdep.Depfile.Balanced.{
  IsBalanced, IsBalanced-bind, IsBalanced-if, IsBalanced-pure, IsBalanced-print, IsBalanced-fault,
  IsBalanced-with_string, IsBalanced-parse_prereq,
}
use esp_hostdriver.Fixdep.Depfile.Mapped.{IsBalanced-mapped}

IsBalanced-hashtbl_clear : IsBalanced hashtbl_clear
unfolding hashtbl_clear
IsBalanced-hashtbl_clear = record { returns = λ t. (refl, refl) }

-- in either order of bytes the text that `traps` looks at reads as `INT_CONF`
pub traps-done : (e : Endian) (t : Tool) → traps e t ≡ done tt t
unfolding traps word int_conf
traps-done little t = refl
traps-done big t = refl

module _ (os : Os) (e : Endian) (header dir : List ℕ) where
  IsBalanced-add_prereq :
      (prereq : List ℕ) (next : Cmd Unit)
      → IsBalanced next
      → IsBalanced (add_prereq os e header dir prereq next)
  unfolding add_prereq
  IsBalanced-add_prereq prereq next h = IsBalanced-with_string prereq _ (λ name.
      IsBalanced-bind (IsBalanced-print _) (λ _.
        IsBalanced-mapped os name (pure tt) (λ f. parse_prereq dir f.mem f.size e) next
          (IsBalanced-pure tt) (λ f fits. IsBalanced-parse_prereq dir f.mem f.size e fits) h))

  IsBalanced-print_rest : (m : List ℕ) → IsBalanced (print_rest m)
  unfolding print_rest
  IsBalanced-print_rest m = IsBalanced-with_string m _ (λ s. IsBalanced-print _)

  IsBalanced-end_string :
      {A : Type 0} (s : List ℕ) (i : ℕ) (f : List ℕ → Cmd A)
      → ((u : List ℕ) → IsBalanced (f u))
      → IsBalanced (end_string s i f)
  unfolding end_string
  IsBalanced-end_string s i f h = IsBalanced-if (ltb i (length s)) (h (set s i 0)) IsBalanced-fault

  IsBalanced-dep_target : (prereq : List ℕ) (n : ℕ) → IsBalanced (dep_target prereq n)
  unfolding dep_target
  IsBalanced-dep_target prereq n =
      let behind = drop (n + 1) prereq in
      IsBalanced-end_string prereq n _ (λ ended. IsBalanced-with_string ended _ (λ name.
        IsBalanced-bind (IsBalanced-print (codes "\n\n" ++ name))
          (λ _. IsBalanced-print_rest behind)))

  IsBalanced-dep_item :
      (prereq : List ℕ) (n : ℕ) (next : Cmd Unit)
      → IsBalanced next
      → IsBalanced (dep_item os e header dir prereq n next)
  unfolding dep_item
  IsBalanced-dep_item prereq n next h = IsBalanced-end_string prereq n _ (λ ended.
      IsBalanced-if (strrcmp ended n header (length header)) (IsBalanced-add_prereq ended next h) h)

  IsBalanced-dep_loop :
      (fuel tgt : ℕ) (m : List ℕ) (left : ℕ) → IsBalanced (dep_loop os e header dir fuel tgt m left)
  unfolding dep_loop dep_round
  IsBalanced-dep_loop zero tgt m left = IsBalanced-pure tt
  IsBalanced-dep_loop (suc fuel) tgt m left =
      let blanks = run_length is_blank (take left m) in
      let prereq = drop blanks m in
      let left1 = left - blanks in
      let n = run_length (λ c. not (is_blank c)) (take left1 prereq) in
      let left2 = left1 - n in
      let last = if n == 0 then 0 else get_or prereq (n - 1) 0 in
      let next = dep_loop os e header dir fuel tgt (drop (n + 1) prereq) (left2 - 1) in
      let round = IsBalanced-if (left == 0) (IsBalanced-print_rest m) (
        IsBalanced-if (last == b':') (IsBalanced-dep_target prereq n) (
          IsBalanced-if (left2 == 0 || tgt == 0 || left1 == 0)
            (IsBalanced-print_rest (drop n prereq))
            (IsBalanced-dep_item prereq n next
              (IsBalanced-dep_loop fuel tgt (drop (n + 1) prereq) (left2 - 1))))) in
      record { returns = round.returns }

  IsBalanced-dep_start :
      (text m : List ℕ) (fuel tgt left : ℕ)
      → IsBalanced (
          hashtbl_clear
          >> (with_string text (λ name. print (name ++ codes ":"))
              >> dep_loop os e header dir fuel tgt m left))
  IsBalanced-dep_start text m fuel tgt left = IsBalanced-bind IsBalanced-hashtbl_clear (λ _.
      IsBalanced-bind (IsBalanced-with_string text _ (λ name. IsBalanced-print (name ++ codes ":")))
        (λ _. IsBalanced-dep_loop fuel tgt m left))

  IsBalanced-parse_dep_file :
      (dmap : List ℕ) (len : ℕ) → IsBalanced (parse_dep_file os e header dir dmap len)
  unfolding parse_dep_file
  IsBalanced-parse_dep_file dmap len =
      let blanks = run_length is_blank (take len dmap) in
      let tgt = drop blanks dmap in
      let left = len - blanks in
      let n = run_length (λ c. not (c == b':')) (take left tgt) in
      IsBalanced-dep_start (if ltb n left then set tgt n 0 else tgt) (drop (n + 1) tgt) (suc len)
        left (left - n - 1)

IsBalanced-traps : (e : Endian) → IsBalanced (traps e)
IsBalanced-traps e = record { returns = λ t. rw (traps-done e t) (refl, refl) }

IsBalanced-usage : (e : Endian) → IsBalanced {A = ℕ} (traps e >> pure 1)
IsBalanced-usage e = IsBalanced-bind (IsBalanced-traps e) (λ _. IsBalanced-pure 1)

IsBalanced-fixdep_main :
    (os : Os) (e : Endian) (args : List (List ℕ)) → IsBalanced (fixdep_main os e args)
unfolding fixdep_main
IsBalanced-fixdep_main os e [] = IsBalanced-usage e
IsBalanced-fixdep_main os e (_ ∷ []) = IsBalanced-usage e
IsBalanced-fixdep_main os e (_ ∷ _ ∷ []) = IsBalanced-usage e
IsBalanced-fixdep_main os e (depfile ∷ header ∷ dir ∷ []) =
    IsBalanced-bind (IsBalanced-traps e) (λ _.
      IsBalanced-mapped os depfile (pure 1) (λ f. parse_dep_file os e header dir f.mem f.size)
        (pure 0) (IsBalanced-pure 1) (λ f _. IsBalanced-parse_dep_file os e header dir f.mem f.size)
        (IsBalanced-pure 0))
IsBalanced-fixdep_main os e (_ ∷ _ ∷ _ ∷ _ ∷ _) = IsBalanced-usage e

-- However `main` returns, with whatever files and whatever the operating system answers, each file
-- that it opened is closed and each mapping is gone.
pub fixdep_main_restores :
    (os : Os) (e : Endian) (args : List (List ℕ)) (t t' : Tool) (code : ℕ)
    → fixdep_main os e args t ≡ done code t'
    → (t'.files ≡ t.files) × (t'.maps ≡ t.maps)
fixdep_main_restores os e args t t' code run =
    rw run at ((IsBalanced-fixdep_main os e args).returns t)
