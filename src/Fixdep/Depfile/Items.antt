-- ===== src/Fixdep/Depfile/Items.antt =====
-- What `parse_dep_file` of scripts/build/fixdep/fixdep.c does for one prerequisite.
use esp_hostdriver.Prelude.{
  ℕ, ◌+◌, ◌-◌, ◌≤◌, ◌<◌, ◌%◌, ◌^◌, ◌≡◌, ◌≢◌, refl, ◌∙◌, true, false, List, ◌∷◌, ◌++◌, some, ◌==◌,
  ==_self, ltb, if◌then◌else◌, Bool-cases, inl, inr, arith, take, drop, length, All, replicate,
  length-append, append_assoc, take-append,
}
use esp_hostdriver.Prelude.Codes.{codes}
use esp_hostdriver.Libc.Files.{close_file}
use esp_hostdriver.Fixdep.{Tool, Cmd, done}
use esp_hostdriver.Fixdep.Hashtbl.Set.{Holds}
use esp_hostdriver.Fixdep.Prereq.{Endian, parse_prereq}
use esp_hostdriver.Fixdep.Prereq.Options.{options, update_each}
use esp_hostdriver.Fixdep.Prereq.Options.Scan.{parse_prereq-options}
use esp_hostdriver.Fixdep.Prereq.Output.{Printed, option_lines, fresh, seen, update_each-Printed}
use esp_hostdriver.Fixdep.Files.{Os, paged, map_open, file_map, file_unmap}
use esp_hostdriver.Fixdep.Depfile.{with_string, end_string, dep_item, add_prereq}
use esp_hostdriver.Fixdep.Depfile.Text.{set-append, c_string-append, ends_in, strrcmp-ends_in}
use esp_hostdriver.Fixdep.Depfile.Rounds.{Dep, IsDep}

-- The operating system opens and maps a file, whatever else is open.
pub record Opens (os : Os) (name : List ℕ) : Type 0 where
  pub fd : List ℕ → ℕ
  pub opened : (files : List ℕ) → os.open_file name files ≡ some (fd files)
  pub stats : os.stats name ≡ true
  pub maps_file : os.maps_file name ≡ true
  pub some_bytes : 0 < length (os.content name)
  pub small : length (os.content name) < 2 ^ 32

-- The options of a file that `parse_prereq` finds.
abbrev pub file_options : Os → List ℕ → List (List ℕ)
file_options os name = options (drop 1 (os.content name))

pub file_map-Opens :
    (os : Os) (name : List ℕ) (o : Opens os name) (t : Tool)
    → file_map os true name t
      ≡ done
          (some (record {
            fd = o.fd t.files;
            mem = paged (os.content name);
            size = length (os.content name);
          }))
          (record t { files = o.fd t.files ∷ t.files; maps = t.maps + 1 })
unfolding file_map map_open
file_map-Opens os name o t =
    let some_bytes : (length (os.content name) == 0) ≡ false = ground (arith, o.some_bytes) in
    let small : length (os.content name) % 2 ^ 32 ≡ length (os.content name) =
      omega (arith, o.small) in
    rw (file_map, o.opened t.files, o.stats, some_bytes, o.maps_file, small) refl

-- The name of a file, and those of its options that are new.
abbrev pub prereq_lines : Os → List ℕ → List ℕ → List (List ℕ) → List ℕ
prereq_lines os dir name s =
    codes " \\\n  " ++ name ++ option_lines dir (fresh s (file_options os name))

module _ (os : Os) (e : Endian) (header dir : List ℕ) where
  parse_file :
      (name : List ℕ) (t : Tool)
      → parse_prereq dir (paged (os.content name)) (length (os.content name)) e t
        ≡ update_each dir (file_options os name) t
  unfolding paged
  parse_file name t =
      let bytes = os.content name in
      let pages = replicate ((4096 - length bytes % 4096) % 4096) 0 in
      let file : take (length bytes) (bytes ++ pages) ≡ bytes =
        take-append (length bytes) bytes pages refl in
      rw
        (
          parse_prereq-options dir (paged bytes) (length bytes)
              (omega (arith, length-append bytes pages)) e t,
          file,
        )
        refl

  pub add_prereq-Printed :
      (name rest : List ℕ) (next : Cmd Unit) (s : List (List ℕ)) (t : Tool)
      → All (λ c. c ≢ 0) name
      → Opens os name
      → Holds s t
      → length (file_options os name) ≤ t.budget
      → (u : Tool) × (add_prereq os e header dir (name ++ 0 ∷ rest) next t ≡ next u)
        × Printed t
            (prereq_lines os dir name s)
            (seen s (file_options os name))
            (length (file_options os name))
            u
  unfolding add_prereq with_string file_unmap
  add_prereq-Printed name rest next s t nonzero o h room =
      let t1 : Tool = record t {
        out = t.out ++ (codes " \\\n  " ++ name);
        files = o.fd t.files ∷ t.files;
        maps = t.maps + 1;
      } in
      let (t2, run, p) =
        update_each-Printed dir (file_options os name) s t1
          (record { items = h.items; reads = h.reads }) room in
      let u : Tool = record t2 { maps = t2.maps - 1; files = close_file (o.fd t.files) t2.files } in
      let shut : close_file (o.fd t.files) t2.files ≡ t.files =
        rw (p.files, ==_self (o.fd t.files)) refl in
      let t0 : Tool = record t { out = t.out ++ (codes " \\\n  " ++ name) } in
      let all_run : add_prereq os e header dir (name ++ 0 ∷ rest) next t ≡ next u =
        rw
          (
            add_prereq,
            with_string,
            c_string-append name rest nonzero,
            file_map-Opens os name o t0,
            parse_file name t1,
            run,
          )
          refl in
      (
        u,
        all_run,
        record {
          out = p.out ∙ append_assoc t.out (codes " \\\n  " ++ name) _;
          holds = record { items = p.holds.items; reads = p.holds.reads };
          budget = p.budget;
          files = shut;
          maps = omega (arith, p.maps);
        },
      )

  pub dep_item-ends_in :
      (d : Dep) (rest : List ℕ) (next : Cmd Unit)
      → IsDep d
      → dep_item os e header dir (d.name ++ d.stop ∷ rest) (length d.name) next ≡ (
          if ends_in d.name header
          then next
          else add_prereq os e header dir (d.name ++ 0 ∷ rest) next)
  unfolding dep_item end_string
  dep_item-ends_in d rest next is =
      let fits : ltb (length d.name) (length (d.name ++ d.stop ∷ rest)) ≡ true =
        ground (arith, length-append d.name (d.stop ∷ rest)) in
      rw (fits, set-append d.name d.stop 0 rest, strrcmp-ends_in d.name (0 ∷ rest) header)
        (elim (Bool-cases (ends_in d.name header)) [ inl f ↦ rw f refl | inr f ↦ rw f refl ])
