-- ===== src/Net/Itoa.antt =====
-- `itoa` of net/netdev.c.
pub mod Print
use mathlib.Core.List.{reverse}
use esp_hostdriver.Prelude.{
  ℕ, zero, suc, ◌+◌, ◌-◌, ◌/◌, ◌%◌, ◌≤◌, ◌<◌, ◌≡◌, Option, none, some, List, [], ◌∷◌, ◌++◌, arith,
  ltb, ◌==◌, if◌then◌else◌,
}
use esp_hostdriver.Libc.Decimal.{print_d, ten}

-- `d = (v % base) % 0xff`, as a character.
abbrev pub digit : ℕ → ℕ → ℕ
digit v base = let d = v % base % 0xff in if ltb d 10 then b'0' + d else b'a' + d - 10

-- The do-while loop with `len - i` rounds left: what is left of `v`, and `inv_s`. The conversions of
-- `v` are those of an `unsigned int`.
pub itoa_loop : ℕ → ℕ → ℕ → List ℕ → ℕ × List ℕ
itoa_loop zero v base inv_s = (v, inv_s)
itoa_loop (suc k) v base inv_s =
    let rest = itoa_loop k (v / base) base (inv_s ++ digit v base ∷ []) in
    if v / base == 0 then (0, inv_s ++ digit v base ∷ []) else rest

-- `itoa`: the text, or none for the null pointer. The text can have `len` characters, and its 0 is
-- then written behind the buffer.
unfoldable pub itoa : ℕ → ℕ → ℕ → Option (List ℕ)
unfolding itoa_loop
itoa v base len =
    let (rest, inv_s) = itoa_loop len v base [] in if rest == 0 then some (reverse inv_s) else none
