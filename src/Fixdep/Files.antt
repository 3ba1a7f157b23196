-- ===== src/Fixdep/Files.antt =====
-- scripts/build/fixdep/util.c. What the operating system answers is `Os`; the messages to stderr are
-- left out.
use esp_hostdriver.Prelude.{
  ℕ, ◌+◌, ◌-◌, ◌%◌, ◌^◌, Bool, true, not, List, ◌∷◌, ◌++◌, Option, none, some, ◌==◌, ltb,
  if◌then◌else◌, take, drop, length, replicate,
}
use esp_hostdriver.Libc.Strings.{str_eq}
use esp_hostdriver.Libc.Files.{close_file}
use esp_hostdriver.Fixdep.{Cmd, done, exited}
use esp_hostdriver.Fixdep.Prereq.{Endian, word, int_conf}

-- What `open` of a name returns when some descriptors are open (none for -1), whether `fstat` and
-- `mmap` succeed on it, and the bytes of the file.
pub record Os : Type 0 where
  pub open_file : List ℕ → List ℕ → Option ℕ
  pub stats : List ℕ → Bool
  pub maps_file : List ℕ → Bool
  pub content : List ℕ → List ℕ

-- The results of `file_map`. The memory at `map` is that of whole pages: the file, and zeros.
pub record Mapping : Type 0 where
  pub fd : ℕ
  pub mem : List ℕ
  pub size : ℕ

abbrev pub page_size : ℕ
page_size = 4096

unfoldable pub paged : List ℕ → List ℕ
paged bytes = bytes ++ replicate ((page_size - length bytes % page_size) % page_size) 0

-- The label `err`.
abbrev pub give_up : ℕ → Cmd (Option Mapping)
give_up fd t = done none (record t { files = close_file fd t.files })

-- What follows `open` in `file_map`. `*_size` has 32 bits.
unfoldable pub map_open : Os → List ℕ → ℕ → Cmd (Option Mapping)
unfolding paged
map_open os filename fd t =
    let bytes = os.content filename in
    if not (os.stats filename)
    then give_up fd t
    else if length bytes == 0
    then give_up fd t
    else if not (os.maps_file filename)
    then give_up fd t
    else done (some (record { fd = fd; mem = paged bytes; size = length bytes % 2 ^ 32 }))
        (record t { maps = t.maps + 1 })

-- `file_map`, with whether all its pointers lead somewhere; none is -1.
unfoldable pub file_map : Os → Bool → List ℕ → Cmd (Option Mapping)
unfolding map_open
file_map os dests filename t =
    if not dests then done none t else elim (os.open_file filename t.files) [
      | none ↦ done none t
      | some fd ↦ map_open os filename fd (record t { files = fd ∷ t.files })
    ]

unfoldable pub file_unmap : ℕ → Cmd Unit
file_unmap fd t = done tt (record t { maps = t.maps - 1; files = close_file fd t.files })

-- `strrcmp`: whether it returns another value than 0.
unfoldable pub strrcmp : List ℕ → ℕ → List ℕ → ℕ → Bool
strrcmp s slen sub sublen =
    if ltb slen sublen
    then true
    else not (str_eq (take sublen (drop (slen - sublen) s)) (take sublen sub))

unfoldable pub traps : Endian → Cmd Unit
traps e t = if word e b'C' b'O' b'N' b'F' == int_conf e then done tt t else exited 2 t
