-- ===== src/Fixdep/Depfile/Prints.antt =====
-- What scripts/build/fixdep prints for a dependency file as gcc writes it.
use esp_hostdriver.Prelude.{
  ℕ, zero, suc, ◌+◌, ◌-◌, ◌≤◌, ◌<◌, ◌≡◌, refl, ◌∙◌, ap, true, false, List, [], ◌∷◌, ◌++◌, ◌==◌,
  if◌then◌else◌, Bool-cases, inl, inr, arith, take, length, All, append_assoc, take-append,
}
use esp_hostdriver.Prelude.Codes.{codes}
use esp_hostdriver.Fixdep.{Tool, Cmd, done}
use esp_hostdriver.Fixdep.Hashtbl.Set.{Holds}
use esp_hostdriver.Fixdep.Prereq.{Endian}
use esp_hostdriver.Fixdep.Prereq.Output.{seen}
use esp_hostdriver.Fixdep.Files.{Os}
use esp_hostdriver.Fixdep.Depfile.{
  is_blank, run_length, c_string, with_string, print_rest, dep_round, dep_loop,
}
use esp_hostdriver.Fixdep.Depfile.Text.{run_length_whole, drop-append, ends_in}
use esp_hostdriver.Fixdep.Depfile.Rounds.{Dep, IsDep, dep_size, dep_round_item}
use esp_hostdriver.Fixdep.Depfile.Items.{
  Opens, file_options, prereq_lines, add_prereq-Printed, dep_item-ends_in,
}

-- The text of prerequisites, in front of others.
unfoldable pub deps_text : List Dep → List ℕ → List ℕ
deps_text [] end = end
deps_text (d ∷ ds) end = d.blanks ++ (d.name ++ d.stop ∷ deps_text ds end)

unfoldable pub deps_size : List Dep → ℕ
deps_size [] = 0
deps_size (d ∷ ds) = dep_size d + deps_size ds

-- Each prerequisite is one that can be opened.
abbrev pub IsDeps : Os → List Dep → Type 0
IsDeps os = All (λ d. IsDep d × Opens os d.name)

-- How many options the prerequisites name, those that are named twice included.
unfoldable pub options_count : Os → List Dep → ℕ
options_count os [] = 0
options_count os (d ∷ ds) = length (file_options os d.name) + options_count os ds

-- The output for prerequisites when the options `s` were printed before: the header is left out, and the
-- options of each other file that were not printed yet are put behind it.
unfoldable pub deps_lines : Os → List ℕ → List ℕ → List Dep → List (List ℕ) → List ℕ
deps_lines os header dir [] s = codes "\n"
deps_lines os header dir (d ∷ ds) s =
    let skip = deps_lines os header dir ds s in
    let rest = deps_lines os header dir ds (seen s (file_options os d.name)) in
    if ends_in d.name header then skip else prereq_lines os dir d.name s ++ rest

module _ (os : Os) (e : Endian) (header dir : List ℕ) where
  dep_round_blank :
      (go : List ℕ → ℕ → Cmd Unit) (tgt : ℕ) (tail pad : List ℕ) (t : Tool)
      → All (λ c. is_blank c ≡ true) tail
      → (length tail == 0) ≡ false
      → dep_round os e header dir go tgt (tail ++ 0 ∷ pad) (length tail) t
        ≡ done tt (record t { out = t.out ++ codes "\n" })
  unfolding dep_round run_length print_rest with_string c_string
  dep_round_blank go tgt tail pad t h some_left =
      let n = length tail in
      let whole : take n (tail ++ 0 ∷ pad) ≡ tail = take-append n tail (0 ∷ pad) refl in
      let nothing : n - n ≡ 0 = omega arith in
      rw (some_left, whole, run_length_whole is_blank tail h, drop-append tail (0 ∷ pad), nothing)
        refl

  -- white space at the end
  dep_round_end :
      (go : List ℕ → ℕ → Cmd Unit) (tgt : ℕ) (tail pad : List ℕ) (t : Tool)
      → All (λ c. is_blank c ≡ true) tail
      → dep_round os e header dir go tgt (tail ++ 0 ∷ pad) (length tail) t
        ≡ done tt (record t { out = t.out ++ codes "\n" })
  unfolding dep_round print_rest with_string c_string
  dep_round_end go tgt [] pad t h = refl
  dep_round_end go tgt (c ∷ tail) pad t h = dep_round_blank go tgt (c ∷ tail) pad t h (ground arith)

  pub dep_loop-deps_lines :
      (fuel tgt : ℕ) (ds : List Dep) (tail pad : List ℕ) (s : List (List ℕ)) (t : Tool)
      → IsDeps os ds
      → All (λ c. is_blank c ≡ true) tail
      → Holds s t
      → options_count os ds ≤ t.budget
      → 0 < tgt
      → deps_size ds + length tail < fuel
      → (t' : Tool) × (dep_loop os e header dir fuel tgt
            (deps_text ds (tail ++ 0 ∷ pad))
            (deps_size ds + length tail)
            t
          ≡ done tt t')
        × (t'.out ≡ t.out ++ deps_lines os header dir ds s)
  unfolding dep_loop deps_text deps_size options_count deps_lines
  dep_loop-deps_lines zero tgt ds tail pad s t are blank h room pos enough = absurd (omega arith)
  dep_loop-deps_lines (suc fuel) tgt [] tail pad s t are blank h room pos enough =
      let none_left : 0 + length tail ≡ length tail = omega arith in
      (
        record t { out = t.out ++ codes "\n" },
        rw none_left (dep_round_end _ tgt tail pad t blank),
        refl,
      )
  dep_loop-deps_lines (suc fuel) tgt (d ∷ ds) tail pad s t ((is, opens), are) blank h room pos
        enough =
      let end = tail ++ 0 ∷ pad in
      let rest = deps_text ds end in
      let left = deps_size ds + length tail in
      let go = dep_loop os e header dir fuel tgt in
      let round =
        dep_round_item os e header dir go tgt (dep_size d + deps_size ds + length tail) left d rest
          t is (omega arith) pos in
      elim (Bool-cases (ends_in d.name header)) [
        | inl f ↦
            let (t', run, out) =
              dep_loop-deps_lines fuel tgt ds tail pad s t are blank h (omega arith) pos
                (omega arith) in
            (
              t',
              rw (round, dep_item-ends_in os e header dir d rest (go rest left) is, f) run,
              rw f out,
            )
        | inr f ↦
            let (u, one, p) =
              add_prereq-Printed os e header dir d.name rest (go rest left) s t is.nonzero opens h
                (omega arith) in
            let (t', run, out) =
              dep_loop-deps_lines fuel tgt ds tail pad (seen s (file_options os d.name)) u are blank
                p.holds (omega (arith, p.budget)) pos (omega arith) in
            (
              t',
              rw (round, dep_item-ends_in os e header dir d rest (go rest left) is, f, one) run,
              rw f (
                  out
                  ∙ ap (λ o. o ++ deps_lines os header dir ds (seen s (file_options os d.name)))
                      p.out
                  ∙ append_assoc t.out (prereq_lines os dir d.name s) _),
            )
      ]
