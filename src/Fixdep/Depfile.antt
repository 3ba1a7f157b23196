-- ===== src/Fixdep/Depfile.antt =====
-- scripts/build/fixdep/fixdep.c: `parse_dep_file` and `main`. A pointer into the mapped file is the
-- memory from there to the end of the mapping, with the number of bytes in front of the file's end.
pub mod Balanced
pub mod Mapped
pub mod Balance
pub mod Text
pub mod Rounds
pub mod Items
pub mod Prints
pub mod Result
pub mod Unmapped
use esp_hostdriver.Prelude.{
  ℕ, zero, suc, ◌+◌, ◌-◌, ◌≡◌, Bool, true, false, not, ◌&&◌, ◌||◌, List, [], ◌∷◌, ◌++◌, Option,
  none, some, ◌==◌, ltb, leb, if◌then◌else◌, take, drop, get_or, set, length,
}
use esp_hostdriver.Prelude.Codes.{codes}
use esp_hostdriver.Fixdep.{Tool, Cmd, Run, done, exited, fault, pure, and_then, ◌>>=◌, ◌>>◌, print}
use esp_hostdriver.Fixdep.Hashtbl.{hashtbl_clear}
use esp_hostdriver.Fixdep.Prereq.{Endian, parse_prereq}
use esp_hostdriver.Fixdep.Files.{Os, Mapping, file_map, file_unmap, strrcmp, traps}

abbrev pub is_blank : ℕ → Bool
is_blank c = c == b' ' || c == b'\\' || c == b'\n' || c == b'\r'

-- How far `m` moves in `while(m < end && p(*m)) m++`, over the bytes in front of the end.
unfoldable pub run_length : (ℕ → Bool) → List ℕ → ℕ
run_length p [] = 0
run_length p (c ∷ s) = let rest = run_length p s in if p c then suc rest else 0

-- The string at a pointer, unless the mapping ends first.
unfoldable pub c_string : List ℕ → Option (List ℕ)
c_string [] = none
c_string (c ∷ s) =
    let rest = c_string s in
    if c == 0 then some [] else elim rest [ none ↦ none | some r ↦ some (c ∷ r) ]

-- A use of the string at a pointer.
unfoldable pub with_string : {A : Type 0} → List ℕ → (List ℕ → Cmd A) → Cmd A
unfolding c_string
with_string m f = elim (c_string m) [ none ↦ λ t. fault | some s ↦ f s ]

-- `*m = 0`, where `m` is `i` bytes behind `s`.
unfoldable pub end_string : {A : Type 0} → List ℕ → ℕ → (List ℕ → Cmd A) → Cmd A
end_string s i f = if ltb i (length s) then f (set s i 0) else λ t. fault

-- `printf("\n%s", m)`, the end of `parse_dep_file`.
unfoldable pub print_rest : List ℕ → Cmd Unit
unfolding with_string
print_rest m = with_string m λ s. print (codes "\n" ++ s)

-- The rest of the code for a prerequisite of `n` characters that is a target.
unfoldable pub dep_target : List ℕ → ℕ → Cmd Unit
unfolding end_string with_string print_rest
dep_target prereq n = end_string prereq n λ ended.
    with_string ended λ name. print (codes "\n\n" ++ name) >> print_rest (drop (n + 1) prereq)

module _ (os : Os) (e : Endian) (conf_header conf_dir : List ℕ) where
  -- A prerequisite that is not the header: its name, and what follows. `return` if it cannot be mapped.
  unfoldable pub add_prereq : List ℕ → Cmd Unit → Cmd Unit
  unfolding with_string file_map parse_prereq file_unmap
  add_prereq prereq next = with_string prereq λ name.
      print (codes " \\\n  " ++ name)
      >> (file_map os true name >>= λ mapped. elim mapped [
        | none ↦ pure tt
        | some f ↦ parse_prereq conf_dir f.mem f.size e >> (file_unmap f.fd >> next)
      ])

  -- The rest of a round for a prerequisite of `n` characters, and the next round.
  unfoldable pub dep_item : List ℕ → ℕ → Cmd Unit → Cmd Unit
  unfolding end_string add_prereq
  dep_item prereq n next = end_string prereq n λ ended.
      if strrcmp ended n conf_header (length conf_header) then add_prereq ended next else next

  -- A round of the loop over the prerequisites. `tgt` is the number of bytes from the target to the end.
  -- In front of an empty prerequisite stands no colon: it was skipped, or is a 0 by now.
  unfoldable pub dep_round : (List ℕ → ℕ → Cmd Unit) → ℕ → List ℕ → ℕ → Cmd Unit
  dep_round next tgt m left =
      let blanks = run_length is_blank (take left m) in
      let prereq = drop blanks m in
      let left1 = left - blanks in
      let n = run_length (λ c. not (is_blank c)) (take left1 prereq) in
      let left2 = left1 - n in
      let last = if n == 0 then 0 else get_or prereq (n - 1) 0 in
      if left == 0
      then print_rest m
      else if last == b':'
      then dep_target prereq n
      else if left2 == 0 || tgt == 0 || left1 == 0
      then print_rest (drop n prereq)
      else dep_item prereq n (next (drop (n + 1) prereq) (left2 - 1))

  -- The loop, with fuel.
  unfoldable pub dep_loop : ℕ → ℕ → List ℕ → ℕ → Cmd Unit
  dep_loop zero tgt m left t = done tt t
  dep_loop (suc fuel) tgt m left t = dep_round (dep_loop fuel tgt) tgt m left t

  -- `parse_dep_file`; each round takes a byte.
  unfoldable pub parse_dep_file : List ℕ → ℕ → Cmd Unit
  parse_dep_file dmap len =
      let blanks = run_length is_blank (take len dmap) in
      let tgt = drop blanks dmap in
      let left = len - blanks in
      let n = run_length (λ c. not (c == b':')) (take left tgt) in
      let text = if ltb n left then set tgt n 0 else tgt in
      hashtbl_clear
      >> (with_string text (λ name. print (name ++ codes ":"))
          >> dep_loop (suc len) left (drop (n + 1) tgt) (left - n - 1))

-- `main`, with the arguments behind the name of the program.
unfoldable pub fixdep_main : Os → Endian → List (List ℕ) → Cmd ℕ
fixdep_main os e (depfile ∷ conf_header ∷ conf_dir ∷ []) =
    traps e
    >> (file_map os true depfile >>= λ mapped. elim mapped [
      | none ↦ pure 1
      | some f ↦
          parse_dep_file os e conf_header conf_dir f.mem f.size >> (file_unmap f.fd >> pure 0)
    ])
fixdep_main os e _ = traps e >> pure 1
