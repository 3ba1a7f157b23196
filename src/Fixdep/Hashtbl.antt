-- ===== src/Fixdep/Hashtbl.antt =====
-- scripts/build/fixdep/hashtbl.c: the set of the options that were found. A name is the memory from
-- its first byte on, and its length.
pub mod Set
pub mod Runs
use Prim.Native.Nat.{bit_xor}
use esp_hostdriver.Prelude.{
  ℕ, zero, suc, ◌+◌, ◌-◌, ◌*◌, ◌%◌, ◌^◌, ◌≡◌, Bool, true, false, ◌&&◌, List, [], ◌∷◌, ◌==◌, ltb,
  if◌then◌else◌, take,
}
use esp_hostdriver.Libc.Strings.{str_eq}
use esp_hostdriver.Fixdep.{Item, Tool, Cmd, Run, done, exited}

abbrev pub table_size : ℕ
table_size = 256

-- A `char` as an operand of `^`: it is signed, and its sign is extended to the 32 bits.
abbrev pub extend : ℕ → ℕ
extend c = if ltb c 128 then c else c + (2 ^ 32 - 256)

-- The loop of `strhash`, over the bytes that are left.
unfoldable pub hash_loop : ℕ → List ℕ → ℕ
hash_loop hash [] = hash
hash_loop hash (c ∷ str) = hash_loop (bit_xor hash (extend c) * 0x01000193 % 2 ^ 32) str

unfoldable pub strhash : List ℕ → ℕ → ℕ
unfolding hash_loop
strhash str sz = hash_loop 2166136261 (take sz str)

-- The loop of `hashtbl_lookup` over a bucket. Two names of the same length are compared.
unfoldable pub find_item : List Item → List ℕ → ℕ → ℕ → Bool
find_item [] name len hash = false
find_item (aux ∷ items) name len hash =
    let rest = find_item items name len hash in
    if aux.hash == hash && aux.len == len && str_eq aux.name (take len name) then true else rest

unfoldable pub hashtbl_lookup : List ℕ → ℕ → ℕ → Tool → Bool
unfolding find_item
hashtbl_lookup name len hash t = find_item (t.hashtab (hash % table_size)) name len hash

-- A print to one bucket.
abbrev pub set_bucket : ℕ → List Item → (ℕ → List Item) → ℕ → List Item
set_bucket i items hashtab j = if j == i then items else hashtab j

-- `hashtbl_add`: whether the name was there. Without memory it ends the program.
unfoldable pub hashtbl_add : List ℕ → ℕ → Cmd Bool
unfolding hashtbl_lookup strhash
hashtbl_add name len t =
    let hash = strhash name len in
    let aux : Item = record { len = len; hash = hash; name = take len name } in
    let i = hash % table_size in
    if hashtbl_lookup name len hash t
    then done true t
    else if t.budget == 0
    then exited 1 t
    else done false
        (record t { budget = t.budget - 1; hashtab = set_bucket i (aux ∷ t.hashtab i) t.hashtab })

-- The loop of `hashtbl_clear`, from a bucket on; `n` buckets are left.
unfoldable pub clear_from : ℕ → ℕ → (ℕ → List Item) → ℕ → List Item
clear_from i zero hashtab = hashtab
clear_from i (suc n) hashtab = clear_from (suc i) n (set_bucket i [] hashtab)

unfoldable pub hashtbl_clear : Cmd Unit
unfolding clear_from
hashtbl_clear t = done tt (record t { hashtab = clear_from 0 table_size t.hashtab })
