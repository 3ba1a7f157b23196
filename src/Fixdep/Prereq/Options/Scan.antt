-- ===== src/Fixdep/Prereq/Options/Scan.antt =====
-- `parse_prereq` of scripts/build/fixdep/fixdep.c looks at every fourth byte and misses no option.
use esp_hostdriver.Prelude.{
  ℕ, zero, suc, ◌+◌, ◌-◌, ◌*◌, ◌≤◌, ◌<◌, ◌≡◌, refl, List, [], arith, ltb, Bool-cases, inl, inr,
  take, drop, get_or, length, length-take,
}
use esp_hostdriver.Fixdep.{Tool, ◌>>=◌, ◌>>◌}
use esp_hostdriver.Fixdep.Prereq.{Endian, scan_words, parse_prereq}
use esp_hostdriver.Fixdep.Prereq.Options.{
  options, update_each, update_here, options_step, options_short,
}
use esp_hostdriver.Fixdep.Prereq.Options.Bytes.{drop_next, length_suffix}
use esp_hostdriver.Fixdep.Prereq.Options.Words.{check_word_lem}
use mathlib.Core.Path.{fun_ext}

module _ (dir mem : List ℕ) (len : ℕ) (fits : len ≤ length mem) where
  abbrev text : ℕ → List ℕ
  text p = drop p (take len mem)

  options_next :
      (p : ℕ)
      → p < len
      → update_each dir (options (text p))
        ≡ update_here dir (text p) >> update_each dir (options (text (suc p)))
  options_next p h =
      let split = drop_next (take len mem) p 0 (omega (arith, length-take len mem)) in
      rw split (options_step dir (get_or (take len mem) p 0) (text (suc p)))

  options_end : (p : ℕ) → len < p + 7 → options (text p) ≡ []
  options_end p h = options_short (text p) (omega (arith, length_suffix dir mem len fits p))

  options_next_four :
      (p : ℕ)
      → p + 3 < len
      → update_each dir (options (text p)) ≡ (
          update_here dir (text p) >>= λ _. update_here dir (text (suc p)) >>= λ _.
          update_here dir (text (suc (suc p))) >>= λ _.
          update_here dir (text (suc (suc (suc p)))) >>= λ _.
          update_each dir (options (text (suc (suc (suc (suc p)))))))
  options_next_four p h =
      rw
        (
          options_next p (omega arith),
          options_next (suc p) (omega arith),
          options_next (suc (suc p)) (omega arith),
          options_next (suc (suc (suc p))) (omega arith),
        )
        refl

  -- the `n + 1`-th word, and the words behind it, tell of the places from `4 * n + 1` on
  scan_words-update_each :
      (e : Endian) (fuel n : ℕ) (t : Tool)
      → len ≤ 4 * suc n + fuel
      → scan_words dir mem len e fuel (suc n) t ≡ update_each dir (options (text (4 * n + 1))) t
  unfolding scan_words update_each
  scan_words-update_each e zero n t h = rw (options_end (4 * n + 1) (omega arith)) refl
  scan_words-update_each e (suc fuel) n t h = elim (Bool-cases (ltb (4 * suc n) len)) [
    | inr l ↦ rw (l, options_end (4 * n + 1) (ground arith)) refl
    | inl l ↦
        let p = 4 * n + 1 in
        let later : scan_words dir mem len e fuel (suc (suc n))
            ≡ update_each dir (options (text (4 * suc n + 1))) =
          fun_ext (λ u. scan_words-update_each e fuel (suc n) u (omega arith)) in
        let q4 : 4 * suc n + 1 ≡ suc (suc (suc (suc p))) = omega arith in
        let q3 : 4 * suc n - 3 ≡ p = omega arith in
        let q2 : 4 * suc n - 2 ≡ suc p = omega arith in
        let q1 : 4 * suc n - 1 ≡ suc (suc p) = omega arith in
        let q0 : 4 * suc n - 0 ≡ suc (suc (suc p)) = omega arith in
        let round =
          rw (q3, q2, q1, q0) at
            (check_word_lem dir mem len fits e n
              (update_each dir (options (text (suc (suc (suc (suc p))))))) t) in
        rw (l, later, q4, options_next_four p (ground arith)) round
  ]

  -- `parse_prereq` calls `update_prereq` for the options that the file names from its second byte on,
  -- in their order, and for no other: although it reads the file in steps of four bytes, and in either
  -- order of the bytes of an `int`. All of the file is mapped.
  pub parse_prereq-options :
      (e : Endian) (t : Tool)
      → parse_prereq dir mem len e t ≡ update_each dir (options (drop 1 (take len mem))) t
  unfolding parse_prereq
  parse_prereq-options e t = scan_words-update_each e len 0 t (omega arith)
