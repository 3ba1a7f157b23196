-- ===== src/Fixdep/Prereq.antt =====
-- scripts/build/fixdep/fixdep.c: `parse_prereq`, which looks for the options that a file names, and
-- `update_prereq`, with the macros of util.h.
pub mod Options
pub mod Output
use esp_hostdriver.Prelude.{
  ℕ, zero, suc, ◌+◌, ◌-◌, ◌*◌, ◌/◌, ◌%◌, ◌^◌, ◌≡◌, Bool, true, false, ◌&&◌, ◌||◌, List, [], ◌∷◌,
  ◌++◌, Option, none, some, ◌==◌, ltb, leb, if◌then◌else◌, take, drop, get_or, map,
}
use esp_hostdriver.Prelude.Codes.{codes}
use esp_hostdriver.Libc.Strings.{str_eq}
use esp_hostdriver.Fixdep.{Tool, Cmd, Run, done, pure, and_then, ◌>>=◌, ◌>>◌, print}
use esp_hostdriver.Fixdep.Hashtbl.{hashtbl_add}

-- The order of the bytes of an `int` on the host.
pub data Endian : Type 0 where
  little big : Endian

-- An `int` in memory, as its bit pattern.
unfoldable pub word : Endian → ℕ → ℕ → ℕ → ℕ → ℕ
word little a b c d = a + b * 2 ^ 8 + c * 2 ^ 16 + d * 2 ^ 24
word big a b c d = d + c * 2 ^ 8 + b * 2 ^ 16 + a * 2 ^ 24

unfoldable pub ntohl : Endian → ℕ → ℕ
unfolding word
ntohl e x = word e (x / 2 ^ 24 % 256) (x / 2 ^ 16 % 256) (x / 2 ^ 8 % 256) (x % 256)

-- `INT_CONF`, `INT_ONFI`, `INT_NFIG` and `INT_FIG_`
unfoldable pub int_conf : Endian → ℕ
unfolding ntohl
int_conf e = ntohl e 0x434f4e46

unfoldable pub int_onfi : Endian → ℕ
unfolding ntohl
int_onfi e = ntohl e 0x4f4e4649

unfoldable pub int_nfig : Endian → ℕ
unfolding ntohl
int_nfig e = ntohl e 0x4e464947

unfoldable pub int_fig_ : Endian → ℕ
unfolding ntohl
int_fig_ e = ntohl e 0x4649475f

-- `isalnum(c) || c == '_'`, in the C locale.
abbrev pub is_name : ℕ → Bool
is_name c =
    leb b'0' c && leb c b'9' || leb b'A' c && leb c b'Z' || leb b'a' c && leb c b'z' || c == b'_'

-- What `update_prereq` writes for a character of an option.
abbrev pub path_char : ℕ → ℕ
path_char c = if c == b'_' then b'/' else if leb b'A' c && leb c b'Z' then c + 32 else c

-- What `update_prereq` writes for a new option.
unfoldable pub print_option : List ℕ → List ℕ → ℕ → Cmd Unit
print_option conf_dir m slen =
    print (codes " \\\n    $(wildcard " ++ conf_dir)
    >> print (map path_char (take slen m))
    >> print (codes ".h)")

-- `update_prereq`: the memory from the option on, and its length.
unfoldable pub update_prereq : List ℕ → List ℕ → ℕ → Cmd Unit
unfolding print_option
update_prereq conf_dir m slen =
    hashtbl_add m slen >>= λ there. if there then pure tt else print_option conf_dir m slen

-- The loop over `q`: how many characters the option has, or none if the file ends first.
unfoldable pub option_end : List ℕ → Option ℕ
option_end [] = none
option_end (c ∷ s) =
    let rest = option_end s in
    if is_name c then elim rest [ none ↦ none | some n ↦ some (suc n) ] else some 0

abbrev pub prefix : List ℕ
prefix = codes "CONFIG_"

-- How far `p` is in front of `m`, at which stands `w`, or none for `continue`.
unfoldable pub offset : Endian → ℕ → Option ℕ
unfolding int_conf int_onfi int_nfig int_fig_
offset e w =
    if w == int_conf e
    then some 0
    else if w == int_onfi e
    then some 1
    else if w == int_nfig e
    then some 2
    else if w == int_fig_ e
    then some 3
    else none

-- The int at `m`, the `k`-th of the file. Behind the end of the file a mapping reads as 0.
unfoldable pub word_at : Endian → List ℕ → ℕ → ℕ
word_at e mem k =
    let i = 4 * k in
    word e (get_or mem i 0) (get_or mem (i + 1) 0) (get_or mem (i + 2) 0) (get_or mem (i + 3) 0)

module _ (conf_dir mem : List ℕ) (len : ℕ) where
  -- The rest of a round, at `p`.
  unfoldable pub check_option : ℕ → Cmd Unit
  unfolding option_end update_prereq
  check_option p =
      if ltb len (p + 7)
      then pure tt
      else if str_eq (take 7 (drop p mem)) prefix
      then elim (option_end (take (len - (p + 7)) (drop (p + 7) mem))) [
        | none ↦ pure tt
        | some n ↦ update_prereq conf_dir (drop (p + 7) mem) n
      ]
      else pure tt

  unfoldable pub check_word : Endian → ℕ → Cmd Unit
  unfolding word_at offset check_option
  check_word e k = elim (offset e (word_at e mem k)) [
    | none ↦ pure tt
    | some j ↦ check_option (4 * k - j)
  ]

  -- The loop over `m`, from the `k`-th int on, with fuel.
  unfoldable pub scan_words : Endian → ℕ → ℕ → Cmd Unit
  unfolding check_word
  scan_words e zero k t = done tt t
  scan_words e (suc fuel) k t =
      let go = check_word e k >> scan_words e fuel (suc k) in
      (if ltb (4 * k) len then go else pure tt) t

  -- `parse_prereq`; a file has no more ints than bytes.
  unfoldable pub parse_prereq : Endian → Cmd Unit
  unfolding scan_words
  parse_prereq e = scan_words e len 1
