-- ===== src/Fixdep/Prereq/Options/Bytes.antt =====
-- Where an option starts in the memory of a file, for scripts/build/fixdep/fixdep.c.
use esp_hostdriver.Prelude.{
  ℕ, zero, suc, ◌+◌, ◌-◌, ◌≤◌, ◌<◌, ◌≡◌, refl, sym, ◌∙◌, ap, Bool, true, false, List, [], ◌∷◌,
  arith, some, ◌==◌, ne_of_==, ltb, Bool-cases, Option-cases, inl, inr, take, drop, get_or, length,
  length-take, length-drop,
}
use esp_hostdriver.Libc.Strings.{str_eq}
use esp_hostdriver.Fixdep.{Tool, pure}
use esp_hostdriver.Fixdep.Hashtbl.Set.{str_eq_same}
use esp_hostdriver.Fixdep.Prereq.{update_prereq, option_end, prefix, check_option}
use esp_hostdriver.Fixdep.Prereq.Options.{
  update_end, update_here, prefix_short, take-take, drop-take, drop-drop, option_end-le,
  update_prereq-take,
}

get_or-take : (xs : List ℕ) (n i d : ℕ) → i < n → get_or (take n xs) i d ≡ get_or xs i d
get_or-take [] zero i d h = refl
get_or-take [] (suc n) i d h = refl
get_or-take (x ∷ xs) zero i d h = absurd (omega arith)
get_or-take (x ∷ xs) (suc n) zero d h = refl
get_or-take (x ∷ xs) (suc n) (suc i) d h = get_or-take xs n i d (omega arith)

get_or-drop : (xs : List ℕ) (n i k d : ℕ) → k ≡ n + i → get_or (drop n xs) i d ≡ get_or xs k d
get_or-drop xs zero i k d h = ap (λ j. get_or xs j d) (omega arith)
get_or-drop [] (suc n) i k d h = refl
get_or-drop (x ∷ xs) (suc n) i zero d h = absurd (omega arith)
get_or-drop (x ∷ xs) (suc n) i (suc k) d h = get_or-drop xs n i k d (omega arith)

pub drop_next :
    (xs : List ℕ) (i d : ℕ) → i < length xs → drop i xs ≡ get_or xs i d ∷ drop (suc i) xs
drop_next [] i d h = absurd (omega arith)
drop_next (x ∷ xs) zero d h = refl
drop_next (x ∷ xs) (suc i) d h = drop_next xs i d (omega arith)

module _ (dir mem : List ℕ) (len : ℕ) (fits : len ≤ length mem) where
  abbrev pub file : List ℕ
  file = take len mem

  abbrev pub starts : ℕ → Bool
  starts p = str_eq (take 7 (drop p file)) prefix

  pub length_suffix : (p : ℕ) → length (drop p file) ≡ len - p
  length_suffix p = omega (arith, length-drop p file, length-take len mem)

  starts-lt : (p : ℕ) → starts p ≡ true → p + 7 ≤ len
  starts-lt p h = elim (Bool-cases (ltb len (p + 7))) [
    | inr e ↦ ground arith
    | inl e ↦ absurd (cc (prefix_short (drop p file) (ground (arith, length_suffix p)), h))
  ]

  -- the bytes at which an option starts
  pub starts-get_or : (p i : ℕ) → starts p ≡ true → i < 7 → get_or mem (p + i) 0 ≡ get_or prefix i 0
  starts-get_or p i h lt =
      sym (get_or-take mem len (p + i) 0 (omega (arith, starts-lt p h)))
      ∙ sym (get_or-drop file p i (p + i) 0 refl)
      ∙ sym (get_or-take (drop p file) 7 i 0 lt)
      ∙ ap (λ s. get_or s i 0) (str_eq_same (take 7 (drop p file)) prefix h)

  starts_head : (p : ℕ) → p + 7 ≤ len → take 7 (drop p mem) ≡ take 7 (drop p file)
  starts_head p h =
      sym (take-take 7 (len - p) (drop p mem) (omega arith))
      ∙ ap (take 7) (sym (drop-take p len (len - p) mem refl))

  starts_tail : (p : ℕ) → drop 7 (drop p file) ≡ take (len - (p + 7)) (drop (p + 7) mem)
  starts_tail p = drop-drop 7 p (p + 7) file refl ∙ drop-take (p + 7) len (len - (p + 7)) mem refl

  -- the name of an option is the same in the memory and in the file
  update_same :
      (p n : ℕ) (t : Tool)
      → option_end (drop 7 (drop p file)) ≡ some n
      → update_prereq dir (drop (p + 7) mem) n t ≡ update_end dir (drop 7 (drop p file)) (some n) t
  update_same p n t g =
      let tail = drop 7 (drop p file) in
      let room : n ≤ len - p - 7 =
        omega (arith, option_end-le tail n g, length-drop 7 (drop p file), length_suffix p) in
      let name : take n (drop (p + 7) mem) ≡ take n tail =
        sym (take-take n (len - (p + 7)) (drop (p + 7) mem) (omega arith))
        ∙ ap (take n) (sym (starts_tail p)) in
      update_prereq-take dir (drop (p + 7) mem) (take n tail) n t name
        (omega (arith, length-take n tail, option_end-le tail n g))

  pub check_option_here :
      (p : ℕ) (t : Tool) → check_option dir mem len p t ≡ update_here dir (drop p file) t
  unfolding check_option update_here
  check_option_here p t = elim (Bool-cases (ltb len (p + 7))) [
    | inl e ↦ rw (e, prefix_short (drop p file) (ground (arith, length_suffix p))) refl
    | inr e ↦
        rw (e, starts_head p (ground arith), sym (starts_tail p))
          (elim (Bool-cases (starts p)) [
            | inr f ↦ rw f refl
            | inl f ↦ elim (Option-cases (option_end (drop 7 (drop p file)))) [
              | inl g ↦ rw (f, g) refl
              | inr (n, g) ↦ rw (f, g) (update_same p n t g)
            ]
          ])
  ]

  pub update_here_no : (p : ℕ) → starts p ≡ false → update_here dir (drop p file) ≡ pure tt
  unfolding update_here
  update_here_no p e = rw e refl

  -- no option starts at two of the four places that one word can tell of
  pub starts_once :
      (p q i j : ℕ)
      → starts p ≡ true
      → p + i ≡ q + j
      → i < 7
      → j < 7
      → (get_or prefix i 0 == get_or prefix j 0) ≡ false
      → starts q ≡ false
  starts_once p q i j h same hi hj ne = elim (Bool-cases (starts q)) [
    | inr e ↦ e
    | inl e ↦ absurd (
        ne_of_== _ _ ne
          (sym (starts-get_or p i h hi) ∙ ap (λ k. get_or mem k 0) same ∙ starts-get_or q j e hj))
  ]
