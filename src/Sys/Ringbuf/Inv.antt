-- ===== src/Sys/Ringbuf/Inv.antt =====
-- The representation invariant of `ringbuf_t`, and the arithmetic of its indices.
use esp_hostdriver.Prelude.{
  ℕ, suc, ◌+◌, ◌^◌, ◌≤◌, ◌<◌, ◌≡◌, ◌≢◌, ◌⊎◌, inl, inr, List, arith, length, length-set, add_size,
}
use native.Mathlib.Decide.{dec_lt}
use native.Mathlib.Nat.{mod-eq_of_lt, mod_self}
use esp_hostdriver.Sys.Ringbuf.{Ringbuf, init, next, advance_rd, put, left, contains}

pub record IsValid (r : Ringbuf) : Type 0 where
  pub storage : r.size ≤ length r.buf
  pub small : r.size ≤ 2 ^ 63
  pub rd_in : r.rd < r.size
  pub wr_in : r.wr < r.size

-- How far `wr` can still move, by the two positions of the indices.
abbrev LeftOf : Ringbuf → ℕ → Type 0
LeftOf r n = ((r.wr ≤ r.rd) × (n + r.wr ≡ r.rd)) ⊎ ((r.rd < r.wr) × (n + r.wr ≡ r.rd + r.size))

module _ {r : Ringbuf} (v : IsValid r) where
  pub left-LeftOf : LeftOf r (left r)
  unfolding left
  left-LeftOf = ground arith

  -- `ringbuf_left` and `ringbuf_contains` do not wrap, and share the ring but for one slot.
  pub left-add-contains : left r + contains r + 1 ≡ r.size
  unfolding contains
  left-add-contains = ground arith

  pub advance_rd-IsValid : IsValid (advance_rd r)
  advance_rd-IsValid = omega arith

  pub put-IsValid : (b : ℕ) → IsValid (put r b)
  put-IsValid b = omega (arith, length-set r.buf r.wr b)

-- `ringbuf_init` over a storage of at least `n` bytes, with `n` from 1 to 2 ^ 63, makes a valid ring
-- that contains no byte.
pub init-IsValid :
    (s : List ℕ) (n : ℕ)
    → 0 < n
    → n ≤ 2 ^ 63
    → n ≤ length s
    → IsValid (init s n) × (contains (init s n) ≡ 0)
unfolding init contains
init-IsValid s n pos small fits = ground arith

pub next_cases :
    (i size : ℕ)
    → i < size
    → size ≤ 2 ^ 63
    → ((i + 1 < size) × (next i size ≡ i + 1)) ⊎ ((i + 1 ≡ size) × (next i size ≡ 0))
next_cases i size h s =
    let sum : add_size i 1 ≡ i + 1 = omega arith in
    elim (dec_lt (i + 1) size) [
      | yes p ↦ inl (p, rw sum (mod-eq_of_lt p))
      | no p ↦
          let wrapped : i + 1 ≡ size = omega arith in
          inr (wrapped, rw (sum, wrapped, mod_self size))
    ]

module _ {r : Ringbuf} (v : IsValid r) where
  pub contains-zero : next r.rd r.size ≡ r.wr → contains r ≡ 0
  contains-zero h = omega (arith, left-LeftOf v, left-add-contains v, next_cases r.rd r.size)

  pub contains-advance_rd : next r.rd r.size ≢ r.wr → contains r ≡ suc (contains (advance_rd r))
  contains-advance_rd h = omega (
    arith,
    left-LeftOf v,
    left-add-contains v,
    next_cases r.rd r.size,
    left-LeftOf (advance_rd-IsValid v),
    left-add-contains (advance_rd-IsValid v),
  )

  pub left-zero : r.wr ≡ r.rd → left r ≡ 0
  left-zero h = omega (arith, left-LeftOf v)

  pub left-pos : r.wr ≢ r.rd → 0 < left r
  left-pos h = omega (arith, left-LeftOf v)

  pub contains-put : (b : ℕ) → r.wr ≢ r.rd → contains (put r b) ≡ suc (contains r)
  contains-put b h = omega (
    arith,
    left-LeftOf v,
    left-add-contains v,
    next_cases r.wr r.size,
    left-LeftOf (put-IsValid v b),
    left-add-contains (put-IsValid v b),
  )
