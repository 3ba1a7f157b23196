-- ===== src/Fixdep/Depfile/Unmapped.antt =====
-- An empty prerequisite in scripts/build/fixdep/fixdep.c.
use esp_hostdriver.Prelude.{
  ℕ, suc, ◌+◌, ◌<◌, ◌≡◌, refl, true, false, List, [], ◌∷◌, ◌++◌, none, some, ==_self,
}
use esp_hostdriver.Prelude.Codes.{codes}
use esp_hostdriver.Fixdep.{Tool, done}
use esp_hostdriver.Fixdep.Prereq.{Endian}
use esp_hostdriver.Fixdep.Files.{Os, map_open, file_map}
use esp_hostdriver.Fixdep.Depfile.{with_string, add_prereq, dep_loop}
use esp_hostdriver.Fixdep.Depfile.Text.{c_string-append, ends_in}
use esp_hostdriver.Fixdep.Depfile.Rounds.{Dep, IsDep, dep_size, dep_round_item}
use esp_hostdriver.Fixdep.Depfile.Items.{dep_item-ends_in}

file_map_empty :
    (os : Os) (name : List ℕ) (fd : ℕ) (t : Tool)
    → os.open_file name t.files ≡ some fd
    → os.stats name ≡ true
    → os.content name ≡ []
    → file_map os true name t ≡ done none t
unfolding file_map map_open
file_map_empty os name fd t opened stats empty =
    rw (file_map, opened, stats, empty, ==_self fd) refl

-- A prerequisite that is an empty file is the last that `parse_dep_file` prints: the loop over the
-- prerequisites ends there with success, whatever follows in the dependency file. The file can be
-- opened, is not the configuration header, and is not a target.
pub dep_loop_empty :
    (os : Os) (e : Endian) (header dir : List ℕ) (fuel tgt left r fd : ℕ) (d : Dep) (rest : List ℕ)
    (t : Tool)
    → IsDep d
    → left ≡ dep_size d + r
    → 0 < tgt
    → ends_in d.name header ≡ false
    → os.open_file d.name t.files ≡ some fd
    → os.stats d.name ≡ true
    → os.content d.name ≡ []
    → dep_loop os e header dir (suc fuel) tgt (d.blanks ++ (d.name ++ d.stop ∷ rest)) left t
      ≡ done tt (record t { out = t.out ++ (codes " \\\n  " ++ d.name) })
unfolding dep_loop add_prereq with_string
dep_loop_empty os e header dir fuel tgt left r fd d rest t is size pos other opened stats empty =
    let go = dep_loop os e header dir fuel tgt in
    let t1 : Tool = record t { out = t.out ++ (codes " \\\n  " ++ d.name) } in
    rw
      (
        dep_round_item os e header dir go tgt left r d rest t is size pos,
        dep_item-ends_in os e header dir d rest (go rest r) is,
        other,
        add_prereq,
        with_string,
        c_string-append d.name rest is.nonzero,
        file_map_empty os d.name fd t1 opened stats empty,
      )
      refl
