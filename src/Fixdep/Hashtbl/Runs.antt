-- ===== src/Fixdep/Hashtbl/Runs.antt =====
-- Sequences of calls of scripts/build/fixdep/hashtbl.c.
use esp_hostdriver.Prelude.{
  ℕ, ◌-◌, ◌≡◌, refl, ap, Bool, true, false, List, [], ◌∷◌, ◌++◌, ◌==◌, Bool-cases, inl, inr, length,
  Option, none, some,
}
use esp_hostdriver.Fixdep.{Tool, done, exited, fault}
use esp_hostdriver.Fixdep.Hashtbl.{hashtbl_add, hashtbl_clear}
use esp_hostdriver.Fixdep.Hashtbl.Set.{
  has, Holds, added, added-Holds, hashtbl_add_lem, hashtbl_clear-Holds,
}

-- A call: of `hashtbl_add` with a name and what stands behind it in memory, or of `hashtbl_clear`.
pub data Op : Type 0 where
  op_add : List ℕ → List ℕ → Op
  op_clear : Op

-- What the calls of `hashtbl_add` return, and the argument of `exit` if one of them ends the program.
abbrev pub Answers : Type 0
Answers = List Bool × Option ℕ

abbrev pub answer : Bool → Answers → Answers
answer b (bs, code) = (b ∷ bs, code)

unfoldable pub table_run : List Op → Tool → Answers
table_run [] t = ([], none)
table_run (op_add n rest ∷ ops) t = elim (hashtbl_add (n ++ rest) (length n) t) [
  | done b t' ↦ answer b (table_run ops t')
  | exited code t' ↦ ([], some code)
  | fault ↦ ([], none)
]
table_run (op_clear ∷ ops) t = elim (hashtbl_clear t) [
  | done _ t' ↦ table_run ops t'
  | exited code t' ↦ ([], some code)
  | fault ↦ ([], none)
]

-- The same calls of a set of names, with memory for `budget` more of them.
unfoldable pub set_run : List Op → List (List ℕ) → ℕ → Answers
set_run [] s budget = ([], none)
set_run (op_add n rest ∷ ops) s budget = elim (has s n) [
  | true ↦ answer true (set_run ops s budget)
  | false ↦ elim (budget == 0) [
    | true ↦ ([], some 1)
    | false ↦ answer false (set_run ops (n ∷ s) (budget - 1))
  ]
]
set_run (op_clear ∷ ops) s budget = set_run ops [] budget

pub Holds-table_run :
    (ops : List Op) (s : List (List ℕ)) (t : Tool)
    → Holds s t
    → table_run ops t ≡ set_run ops s t.budget
unfolding table_run set_run
Holds-table_run [] s t h = refl
Holds-table_run (op_add n rest ∷ ops) s t h = elim (Bool-cases (has s n)) [
  | inl e ↦
      rw (table_run, set_run, hashtbl_add_lem s t h n rest, e)
        (ap (answer true) (Holds-table_run ops s t h))
  | inr e ↦ elim (Bool-cases (t.budget == 0)) [
    | inl f ↦ rw (table_run, set_run, hashtbl_add_lem s t h n rest, e, f) refl
    | inr f ↦
        let after = added s t h n rest in
        rw (table_run, set_run, hashtbl_add_lem s t h n rest, e, f)
          (ap (answer false) (Holds-table_run ops (n ∷ s) after (added-Holds s t h n rest)))
  ]
]
Holds-table_run (op_clear ∷ ops) s t h =
    let (t', run, h', same, _) = hashtbl_clear-Holds t in
    rw (table_run, run, Holds-table_run ops [] t' h', same) refl

-- Whatever the table holds at first, once `hashtbl_clear` is called no sequence of calls tells it
-- from a set of names: each `hashtbl_add` returns whether its name was added since the last
-- `hashtbl_clear`, whatever the names hash to, and the program ends with 1 exactly at a new name for
-- which there is no memory.
pub table_run-set_run :
    (ops : List Op) (t : Tool) → table_run (op_clear ∷ ops) t ≡ set_run ops [] t.budget
unfolding table_run
table_run-set_run ops t =
    let (t', run, h, same, _) = hashtbl_clear-Holds t in
    rw (table_run, run, Holds-table_run ops [] t' h, same) refl
