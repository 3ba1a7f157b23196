-- ===== src/Fixdep/Depfile/Mapped.antt =====
-- `file_map` and `file_unmap` of scripts/build/fixdep/util.c around the use of a file.
use esp_hostdriver.Prelude.{
  ℕ, ◌+◌, ◌-◌, ◌≤◌, ◌≡◌, refl, true, List, ◌∷◌, Option, none, some, ◌==◌, ==_self, Bool-cases,
  Option-cases, inl, inr, arith, length, length-append, replicate,
}
use esp_hostdriver.Fixdep.{Tool, Cmd, Run, done, exited, fault, and_then, ◌>>=◌, ◌>>◌}
use esp_hostdriver.Libc.Files.{close_file}
use esp_hostdriver.Fixdep.Files.{Os, Mapping, file_map, give_up, paged, map_open, file_unmap}
use esp_hostdriver.Fixdep.Depfile.Balanced.{Returns, IsBalanced, Returns-from}

-- What `file_map` leaves: nothing new, or a descriptor and a mapping.
pub data Mapped (t : Tool) : Run (Option Mapping) → Type 0 where
  is_unmapped : (u : Tool) → u.files ≡ t.files → u.maps ≡ t.maps → Mapped t (done none u)
  is_mapped :
      (u : Tool) (f : Mapping)
      → u.files ≡ f.fd ∷ t.files
      → u.maps ≡ t.maps + 1
      → f.size ≤ length f.mem
      → Mapped t (done (some f) u)

Mapped-give_up : (t : Tool) (fd : ℕ) → Mapped t (give_up fd (record t { files = fd ∷ t.files }))
Mapped-give_up t fd = is_unmapped _ (rw (==_self fd) refl) refl

length-paged : (bytes : List ℕ) → length bytes ≤ length (paged bytes)
unfolding paged
length-paged bytes = omega (arith, length-append bytes (replicate _ 0))

Mapped-map_open :
    (os : Os) (name : List ℕ) (fd : ℕ) (t : Tool)
    → Mapped t (map_open os name fd (record t { files = fd ∷ t.files }))
unfolding map_open
Mapped-map_open os name fd t = elim (Bool-cases (os.stats name)) [
  | inr e ↦ rw e (Mapped-give_up t fd)
  | inl e ↦ elim (Bool-cases (length (os.content name) == 0)) [
    | inl f ↦ rw (e, f) (Mapped-give_up t fd)
    | inr f ↦ elim (Bool-cases (os.maps_file name)) [
      | inr g ↦ rw (e, f, g) (Mapped-give_up t fd)
      | inl g ↦
          rw (e, f, g) (is_mapped _ _ refl refl (omega (arith, length-paged (os.content name))))
    ]
  ]
]

pub Mapped-file_map : (os : Os) (name : List ℕ) (t : Tool) → Mapped t (file_map os true name t)
unfolding file_map
Mapped-file_map os name t = elim (Option-cases (os.open_file name t.files)) [
  | inl e ↦ rw (file_map, e) (is_unmapped t refl refl)
  | inr (fd, e) ↦ rw (file_map, e) (Mapped-map_open os name fd t)
]

-- A file is used between `file_map` and `file_unmap`.
module _ {A B : Type 0} (os : Os) (name : List ℕ) (none_next : Cmd B) (use_file : Mapping → Cmd A)
    (next : Cmd B) (none_balanced : IsBalanced none_next)
    (use_balanced : (f : Mapping) → f.size ≤ length f.mem → IsBalanced (use_file f))
    (next_balanced : IsBalanced next) where
  Returns-file_unmap :
      (t u : Tool) (fd : ℕ) (r : Run A)
      → u.files ≡ fd ∷ t.files
      → u.maps ≡ t.maps + 1
      → Returns u r
      → Returns t (and_then r (λ _. file_unmap fd >> next))
  unfolding file_unmap
  Returns-file_unmap t u fd (done a v) e g h =
      let w : Tool = record v { maps = v.maps - 1; files = close_file fd v.files } in
      let files : w.files ≡ t.files = rw (h.0, e, ==_self fd) refl in
      Returns-from t w (next w) files (omega (arith, h.1)) (next_balanced.returns w)
  Returns-file_unmap t u fd (exited code v) e g h = tt
  Returns-file_unmap t u fd fault e g h = tt

  pub IsBalanced-mapped : IsBalanced (
      file_map os true name >>= λ mapped. elim mapped [
        | none ↦ none_next
        | some f ↦ use_file f >> (file_unmap f.fd >> next)
      ])
  IsBalanced-mapped = record {
    returns = λ t. used t (file_map os true name t) (Mapped-file_map os name t);
  }
    where
      used :
          (t : Tool) (r : Run (Option Mapping))
          → Mapped t r
          → Returns t (
              and_then r (λ mapped. elim mapped [
                | none ↦ none_next
                | some f ↦ use_file f >> (file_unmap f.fd >> next)
              ]))
      used t _ (is_unmapped u e g) = Returns-from t u (none_next u) e g (none_balanced.returns u)
      used t _ (is_mapped u f e g fits) =
          Returns-file_unmap t u f.fd (use_file f u) e g ((use_balanced f fits).returns u)
