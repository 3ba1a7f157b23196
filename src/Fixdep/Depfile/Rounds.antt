-- ===== src/Fixdep/Depfile/Rounds.antt =====
-- One round of the loop of `parse_dep_file` in scripts/build/fixdep/fixdep.c.
use esp_hostdriver.Prelude.{
  ℕ, suc, ◌+◌, ◌-◌, ◌<◌, ◌≡◌, ◌≢◌, refl, true, false, not, List, [], ◌∷◌, ◌++◌, ◌==◌, ==_ne, arith,
  take, drop, get_or, length, All,
}
use esp_hostdriver.Fixdep.{Tool, Cmd}
use esp_hostdriver.Fixdep.Prereq.{Endian}
use esp_hostdriver.Fixdep.Files.{Os}
use esp_hostdriver.Fixdep.Depfile.{is_blank, run_length, dep_item, dep_round}
use esp_hostdriver.Fixdep.Depfile.Text.{
  run_length-append, drop-append, drop-append_next, take-append_more, get_or-append,
}

-- A prerequisite in a dependency file: white space or backslashes, the name, and one of them behind it.
pub record Dep : Type 0 where
  pub blanks : List ℕ
  pub name : List ℕ
  pub stop : ℕ

-- A name has no blank and no 0, and is not that of a target.
pub record IsDep (d : Dep) : Type 0 where
  pub blank : All (λ c. is_blank c ≡ true) d.blanks
  pub solid : All (λ c. not (is_blank c) ≡ true) d.name
  pub nonzero : All (λ c. c ≢ 0) d.name
  pub ended : is_blank d.stop ≡ true
  pub some_name : 0 < length d.name
  pub no_target : get_or d.name (length d.name - 1) 0 ≢ b':'

abbrev pub dep_size : Dep → ℕ
dep_size d = length d.blanks + (length d.name + 1)

blanks_length :
    (b name s : List ℕ) (n : ℕ)
    → All (λ c. is_blank c ≡ true) b
    → All (λ c. not (is_blank c) ≡ true) name
    → 0 < length name
    → length b < n
    → run_length is_blank (take n (b ++ (name ++ s))) ≡ length b
blanks_length b [] s n h k pos lt = absurd (omega arith)
blanks_length b (c ∷ name) s n h (hc, k) pos lt =
    let more = n - length b - 1 in
    let split : take n (b ++ (c ∷ name ++ s)) ≡ b ++ c ∷ take more (name ++ s) =
      take-append_more n (suc more) b (c ∷ name ++ s) (omega arith) in
    rw split (run_length-append is_blank b c (take more (name ++ s)) h (ground (arith, hc)))

name_length :
    (name rest : List ℕ) (stop n : ℕ)
    → All (λ c. not (is_blank c) ≡ true) name
    → is_blank stop ≡ true
    → length name < n
    → run_length (λ c. not (is_blank c)) (take n (name ++ stop ∷ rest)) ≡ length name
name_length name rest stop n h e lt =
    let more = n - length name - 1 in
    let split : take n (name ++ stop ∷ rest) ≡ name ++ stop ∷ take more rest =
      take-append_more n (suc more) name (stop ∷ rest) (omega arith) in
    rw split (run_length-append _ name stop (take more rest) h (rw e refl))

module _ (os : Os) (e : Endian) (header dir : List ℕ) where
  -- a round takes a prerequisite whole
  pub dep_round_item :
      (go : List ℕ → ℕ → Cmd Unit) (tgt left r : ℕ) (d : Dep) (rest : List ℕ) (t : Tool)
      → IsDep d
      → left ≡ dep_size d + r
      → 0 < tgt
      → dep_round os e header dir go tgt (d.blanks ++ (d.name ++ d.stop ∷ rest)) left t
        ≡ dep_item os e header dir (d.name ++ d.stop ∷ rest) (length d.name) (go rest r) t
  unfolding dep_round
  dep_round_item go tgt left r d rest t is size pos =
      let prereq = d.name ++ d.stop ∷ rest in
      let n = length d.name in
      let l1 = n + 1 + r in
      let blanks : run_length is_blank (take left (d.blanks ++ prereq)) ≡ length d.blanks =
        blanks_length d.blanks d.name (d.stop ∷ rest) left is.blank is.solid is.some_name
          (omega (arith, size)) in
      let left1 : left - length d.blanks ≡ l1 = omega (arith, size) in
      let name : run_length (λ c. not (is_blank c)) (take l1 prereq) ≡ n =
        name_length d.name rest d.stop l1 is.solid is.ended (omega arith) in
      let left2 : l1 - n ≡ suc r = omega arith in
      let behind : drop (n + 1) prereq ≡ rest = drop-append_next (n + 1) d.name d.stop rest refl in
      let last : get_or prereq (n - 1) 0 ≡ get_or d.name (n - 1) 0 =
        get_or-append d.name (d.stop ∷ rest) (n - 1) 0 (omega (arith, is.some_name)) in
      let some_left : (left == 0) ≡ false = ground (arith, size) in
      let some_name : (n == 0) ≡ false = ground (arith, is.some_name) in
      let some_left1 : (l1 == 0) ≡ false = ground arith in
      let some_left2 : (suc r == 0) ≡ false = ground arith in
      let some_tgt : (tgt == 0) ≡ false = ground arith in
      let no_target : (get_or d.name (n - 1) 0 == b':') ≡ false = ==_ne _ _ is.no_target in
      let next : suc r - 1 ≡ r = omega arith in
      rw
        (
          some_left,
          blanks,
          drop-append d.blanks prereq,
          left1,
          name,
          left2,
          some_name,
          last,
          no_target,
          some_left2,
          some_tgt,
          some_left1,
          behind,
          next,
        )
        refl
