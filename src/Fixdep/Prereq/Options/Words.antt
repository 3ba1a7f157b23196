-- ===== src/Fixdep/Prereq/Options/Words.antt =====
-- One round of `parse_prereq` of scripts/build/fixdep/fixdep.c: a word tells of four places.
use esp_hostdriver.Prelude.{
  ℕ, zero, suc, ◌+◌, ◌-◌, ◌*◌, ◌≤◌, ◌<◌, ◌≡◌, refl, ◌∙◌, ap, true, false, List, arith, some, ◌==◌,
  Bool-cases, Option-cases, inl, inr, drop, get_or, length,
}
use esp_hostdriver.Fixdep.{Tool, Cmd, done, pure, and_then, ◌>>=◌}
use esp_hostdriver.Fixdep.Prereq.{
  Endian, little, big, prefix, word, word_at, offset, int_conf, int_onfi, int_nfig, int_fig_,
  check_word,
}
use esp_hostdriver.Fixdep.Prereq.Options.{update_here}
use esp_hostdriver.Fixdep.Prereq.Options.Bytes.{
  file, starts, starts-get_or, starts_once, check_option_here, update_here_no,
}

-- A word that reads as a part of `CONFIG_` tells where `CONFIG_` would start.
offset_conf : (e : Endian) → offset e (word e b'C' b'O' b'N' b'F') ≡ some 0
unfolding offset word int_conf int_onfi int_nfig int_fig_
offset_conf little = refl
offset_conf big = refl

offset_onfi : (e : Endian) → offset e (word e b'O' b'N' b'F' b'I') ≡ some 1
unfolding offset word int_conf int_onfi int_nfig int_fig_
offset_onfi little = refl
offset_onfi big = refl

offset_nfig : (e : Endian) → offset e (word e b'N' b'F' b'I' b'G') ≡ some 2
unfolding offset word int_conf int_onfi int_nfig int_fig_
offset_nfig little = refl
offset_nfig big = refl

offset_fig_ : (e : Endian) → offset e (word e b'F' b'I' b'G' b'_') ≡ some 3
unfolding offset word int_conf int_onfi int_nfig int_fig_
offset_fig_ little = refl
offset_fig_ big = refl

module _ (dir mem : List ℕ) (len : ℕ) (fits : len ≤ length mem) where
  module _ (e : Endian) (n : ℕ) where
    -- the place `j` bytes in front of the word
    abbrev at : ℕ → ℕ
    at j = 4 * suc n - j

    byte_started :
        (j i k : ℕ)
        → starts dir mem len fits (at j) ≡ true
        → k ≡ j + i
        → j < 4
        → k < 7
        → get_or mem (4 * suc n + i) 0 ≡ get_or prefix k 0
    byte_started j i k h same hj hk =
        ap (λ b. get_or mem b 0) (omega arith) ∙ starts-get_or dir mem len fits (at j) k h hk

    check_started :
        (j : ℕ) (t : Tool)
        → starts dir mem len fits (at j) ≡ true
        → j < 4
        → offset e (
            word e
              (get_or prefix j 0)
              (get_or prefix (j + 1) 0)
              (get_or prefix (j + 2) 0)
              (get_or prefix (j + 3) 0))
          ≡ some j
        → check_word dir mem len e (suc n) t
          ≡ update_here dir (drop (at j) (file dir mem len fits)) t
    unfolding check_word word_at
    check_started j t h hj off =
        let first : get_or mem (4 * suc n) 0 ≡ get_or prefix j 0 =
          ap (λ b. get_or mem b 0) (omega arith)
          ∙ starts-get_or dir mem len fits (at j) j h (omega arith) in
        let found : offset e (word_at e mem (suc n)) ≡ some j =
          rw
            (
              first,
              byte_started j 1 (j + 1) h refl hj (omega arith),
              byte_started j 2 (j + 2) h refl hj (omega arith),
              byte_started j 3 (j + 3) h refl hj (omega arith),
            )
            off in
        rw (check_word, found) (check_option_here dir mem len fits (at j) t)

    offset-lt : (w j : ℕ) → offset e w ≡ some j → j < 4
    unfolding offset
    offset-lt w j h = ground (arith, h)

    check_nothing :
        (t : Tool)
        → ((j : ℕ) → j < 4 → starts dir mem len fits (at j) ≡ false)
        → check_word dir mem len e (suc n) t ≡ done tt t
    unfolding check_word
    check_nothing t none' = elim (Option-cases (offset e (word_at e mem (suc n)))) [
      | inl o ↦ rw (check_word, o) refl
      | inr (j, o) ↦
          rw
            (
              check_word,
              o,
              check_option_here dir mem len fits (at j) t,
              update_here_no dir mem len fits (at j) (none' j (offset-lt _ j o)),
            )
            refl
    ]

    -- where one option starts no other does
    other :
        (j k : ℕ)
        → starts dir mem len fits (at j) ≡ true
        → j < 4
        → k < 4
        → (get_or prefix j 0 == get_or prefix k 0) ≡ false
        → update_here dir (drop (at k) (file dir mem len fits)) ≡ pure tt
    other j k h hj hk ne = update_here_no dir mem len fits (at k) (
        starts_once dir mem len fits (at j) (at k) j k h (omega arith) (omega arith) (omega arith)
          ne)

    nowhere :
        starts dir mem len fits (at 0) ≡ false
        → starts dir mem len fits (at 1) ≡ false
        → starts dir mem len fits (at 2) ≡ false
        → starts dir mem len fits (at 3) ≡ false
        → (j : ℕ) → j < 4
        → starts dir mem len fits (at j) ≡ false
    nowhere a b c d zero h = a
    nowhere a b c d (suc zero) h = b
    nowhere a b c d (suc (suc zero)) h = c
    nowhere a b c d (suc (suc (suc zero))) h = d
    nowhere a b c d (suc (suc (suc (suc j)))) h = absurd (omega arith)

    -- one round is the search at the four places that its word can tell of
    pub check_word_lem :
        (f : Cmd Unit) (t : Tool)
        → and_then (check_word dir mem len e (suc n) t) (λ _. f)
          ≡ (update_here dir (drop (at 3) (file dir mem len fits)) >>= λ _.
                update_here dir (drop (at 2) (file dir mem len fits)) >>= λ _.
                update_here dir (drop (at 1) (file dir mem len fits)) >>= λ _.
                update_here dir (drop (at 0) (file dir mem len fits)) >>= λ _. f)
              t
    check_word_lem f t = elim (Bool-cases (starts dir mem len fits (at 3))) [
      | inl h3 ↦
          rw
            (
              check_started 3 t h3 (omega arith) (offset_fig_ e),
              other 3 2 h3 (omega arith) (omega arith) refl,
              other 3 1 h3 (omega arith) (omega arith) refl,
              other 3 0 h3 (omega arith) (omega arith) refl,
            )
            refl
      | inr h3 ↦ elim (Bool-cases (starts dir mem len fits (at 2))) [
        | inl h2 ↦
            rw
              (
                check_started 2 t h2 (omega arith) (offset_nfig e),
                update_here_no dir mem len fits (at 3) h3,
                other 2 1 h2 (omega arith) (omega arith) refl,
                other 2 0 h2 (omega arith) (omega arith) refl,
              )
              refl
        | inr h2 ↦ elim (Bool-cases (starts dir mem len fits (at 1))) [
          | inl h1 ↦
              rw
                (
                  check_started 1 t h1 (omega arith) (offset_onfi e),
                  update_here_no dir mem len fits (at 3) h3,
                  update_here_no dir mem len fits (at 2) h2,
                  other 1 0 h1 (omega arith) (omega arith) refl,
                )
                refl
          | inr h1 ↦ elim (Bool-cases (starts dir mem len fits (at 0))) [
            | inl h0 ↦
                rw
                  (
                    check_started 0 t h0 (omega arith) (offset_conf e),
                    update_here_no dir mem len fits (at 3) h3,
                    update_here_no dir mem len fits (at 2) h2,
                    update_here_no dir mem len fits (at 1) h1,
                  )
                  refl
            | inr h0 ↦
                rw
                  (
                    check_nothing t (nowhere h0 h1 h2 h3),
                    update_here_no dir mem len fits (at 3) h3,
                    update_here_no dir mem len fits (at 2) h2,
                    update_here_no dir mem len fits (at 1) h1,
                    update_here_no dir mem len fits (at 0) h0,
                  )
                  refl
          ]
        ]
      ]
    ]
