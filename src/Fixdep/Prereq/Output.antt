-- ===== src/Fixdep/Prereq/Output.antt =====
-- What `update_prereq` of scripts/build/fixdep/fixdep.c prints: each option once.
use esp_hostdriver.Prelude.{
  ℕ, ◌+◌, ◌≤◌, ◌<◌, ◌≡◌, refl, sym, ◌∙◌, ap, true, false, List, [], ◌∷◌, ◌++◌, arith, ◌==◌,
  if◌then◌else◌, Bool-cases, inl, inr, take-length, length, append-nil, append_assoc, map,
}
use esp_hostdriver.Prelude.Codes.{codes}
use esp_hostdriver.Fixdep.{Tool, Run, done}
use esp_hostdriver.Fixdep.Hashtbl.{hashtbl_add}
use esp_hostdriver.Fixdep.Hashtbl.Set.{has, Holds, added, added-Holds, hashtbl_add_lem}
use esp_hostdriver.Fixdep.Prereq.{path_char, print_option, update_prereq}
use esp_hostdriver.Fixdep.Prereq.Options.{update_each}

-- The dependency on the file that stands for an option.
unfoldable pub option_line : List ℕ → List ℕ → List ℕ
option_line conf_dir n =
    codes " \\\n    $(wildcard " ++ conf_dir ++ (map path_char n ++ codes ".h)")

-- The names among `names` that are not in `s`, each at its first place.
unfoldable pub fresh : List (List ℕ) → List (List ℕ) → List (List ℕ)
fresh s [] = []
fresh s (n ∷ names) =
    let old = fresh s names in let new = n ∷ fresh (n ∷ s) names in if has s n then old else new

-- The set after `names` were added.
unfoldable pub seen : List (List ℕ) → List (List ℕ) → List (List ℕ)
seen s [] = s
seen s (n ∷ names) =
    let old = seen s names in let new = seen (n ∷ s) names in if has s n then old else new

unfoldable pub option_lines : List ℕ → List (List ℕ) → List ℕ
option_lines conf_dir [] = []
option_lines conf_dir (n ∷ names) = option_line conf_dir n ++ option_lines conf_dir names

-- The state after options were printed: `text` was written, the table holds `s`, and memory for at most
-- `n` names was taken.
pub record Printed (t : Tool) (text : List ℕ) (s : List (List ℕ)) (n : ℕ) (t' : Tool) : Type 0 where
  pub out : t'.out ≡ t.out ++ text
  pub holds : Holds s t'
  pub budget : t.budget ≤ t'.budget + n
  pub files : t'.files ≡ t.files
  pub maps : t'.maps ≡ t.maps

print_option_lem :
    (dir n : List ℕ) (t : Tool)
    → print_option dir n (length n) t ≡ done tt (record t { out = t.out ++ option_line dir n })
unfolding print_option option_line
print_option_lem dir n t =
    let head = codes " \\\n    $(wildcard " ++ dir in
    let tail = map path_char n ++ codes ".h)" in
    rw (take-length (length n) n (omega arith)) (
      ap (λ o. done tt (record t { out = o }))
        (append_assoc (t.out ++ head) (map path_char n) (codes ".h)")
          ∙ append_assoc t.out head tail))

module _ (dir n : List ℕ) (s : List (List ℕ)) (t : Tool) (h : Holds s t) where
  add_whole : hashtbl_add n (length n) t ≡ (
      if has s n
      then done true t
      else if t.budget == 0
      then Run.exited 1 t
      else done false (added s t h n []))
  add_whole = rw append-nil at (hashtbl_add_lem s t h n [])

  -- an option that was found before is not printed again
  update_old : has s n ≡ true → update_prereq dir n (length n) t ≡ done tt t
  unfolding update_prereq
  update_old e = rw (add_whole, e) refl

  printed : Tool
  printed = let t' = added s t h n [] in record t' { out = t.out ++ option_line dir n }

  update_new : has s n ≡ false → 0 < t.budget → update_prereq dir n (length n) t ≡ done tt printed
  unfolding update_prereq printed
  update_new e room =
      let there : (t.budget == 0) ≡ false = ground arith in
      rw (add_whole, e, there) (print_option_lem dir n (added s t h n []))

  printed-Printed : 0 < t.budget → Printed t (option_line dir n) (n ∷ s) 1 printed
  unfolding printed
  printed-Printed room =
      let a = added-Holds s t h n [] in
      record {
        out = refl;
        holds = record { items = a.items; reads = a.reads };
        budget = omega arith;
        files = refl;
        maps = refl;
      }

pub Printed-trans :
    {t u v : Tool} {a b : List ℕ} {r s : List (List ℕ)} {m n : ℕ}
    → Printed t a r m u
    → Printed u b s n v
    → Printed t (a ++ b) s (m + n) v
Printed-trans {t} {u} {v} {a} {b} p q = record {
  out = q.out ∙ ap (λ o. o ++ b) p.out ∙ append_assoc t.out a b;
  holds = q.holds;
  budget = omega (arith, p.budget, q.budget);
  files = q.files ∙ p.files;
  maps = q.maps ∙ p.maps;
}

pub Printed-le :
    {t u : Tool} {a : List ℕ} {s : List (List ℕ)} {m n : ℕ}
    → Printed t a s m u
    → m ≤ n
    → Printed t a s n u
Printed-le p le = record {
  out = p.out;
  holds = p.holds;
  budget = omega (arith, p.budget);
  files = p.files;
  maps = p.maps;
}

-- The options that are not in the table are printed, each once, and then are.
pub update_each-Printed :
    (dir : List ℕ) (names s : List (List ℕ)) (t : Tool)
    → Holds s t
    → length names ≤ t.budget
    → (t' : Tool) × (update_each dir names t ≡ done tt t')
      × Printed t (option_lines dir (fresh s names)) (seen s names) (length names) t'
unfolding update_each fresh seen option_lines
update_each-Printed dir [] s t h room = (
  t,
  refl,
  record {
    out = sym (append-nil t.out);
    holds = h;
    budget = omega arith;
    files = refl;
    maps = refl;
  },
)
update_each-Printed dir (n ∷ names) s t h room = elim (Bool-cases (has s n)) [
  | inl e ↦
      let (t', run, p) = update_each-Printed dir names s t h (omega arith) in
      (t', rw (update_old dir n s t h e, run) refl, rw e (Printed-le p (omega arith)))
  | inr e ↦
      let one = printed-Printed dir n s t h (omega arith) in
      let (t', run, p) =
        update_each-Printed dir names (n ∷ s) (printed dir n s t h) one.holds
          (omega (arith, one.budget)) in
      (
        t',
        rw (update_new dir n s t h e (omega arith), run) refl,
        rw e (Printed-le (Printed-trans one p) (omega arith)),
      )
]
