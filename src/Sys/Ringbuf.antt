-- ===== src/Sys/Ringbuf.antt =====
-- sys/ringbuf.c: a ring of bytes over storage of the caller, one slot of which stays unused. `rd` is
-- the index of the byte read last and `wr` that of the byte written next. A function that changes
-- `*buf` returns the new ring.
pub mod Inv
pub mod Refine
pub mod Queue
mod Tests
use esp_hostdriver.Prelude.{
  ℕ, zero, suc, ◌+◌, ◌%◌, Bool, List, [], ◌∷◌, ◌==◌, ltb, if◌then◌else◌, get_or, set, add_size,
  sub_size,
}

-- `ringbuf_t`; `buf` stands for the bytes that its `data` points to.
pub record Ringbuf : Type 0 where
  pub rd : ℕ
  pub wr : ℕ
  pub size : ℕ
  pub buf : List ℕ

-- `ringbuf_init`
pub init : List ℕ → ℕ → Ringbuf
init data' n = record { rd = sub_size n 1; wr = 0; size = n; buf = data' }

-- `(i + 1) % buf->size`
abbrev pub next : ℕ → ℕ → ℕ
next i size = add_size i 1 % size

-- The body of the loop of `ringbuf_read`: the ring after the read of one byte.
abbrev pub advance_rd : Ringbuf → Ringbuf
advance_rd r = record r { rd = next r.rd r.size }

-- The body of the loop of `ringbuf_write`: the ring after the write of one byte.
abbrev pub put : Ringbuf → ℕ → Ringbuf
put r b = record r { buf = set r.buf r.wr b; wr = next r.wr r.size }

-- The loop of `ringbuf_read` with `n - i` rounds left. The list is what goes to `data[i..]`.
pub read_loop : ℕ → ℕ → Ringbuf → ℕ × List ℕ × Ringbuf
read_loop zero i r = (i, [], r)
read_loop (suc k) i r =
    let r' = advance_rd r in
    let rest = read_loop k (i + 1) r' in
    if next r.rd r.size == r.wr
    then (i, [], r)
    else (rest.0, get_or r'.buf r'.rd 0 ∷ rest.1, rest.2)

-- `ringbuf_read`: the count, the bytes and the ring.
pub read : Ringbuf → ℕ → ℕ × List ℕ × Ringbuf
unfolding read_loop
read r n = read_loop n 0 r

-- The loop of `ringbuf_write`. The list is `data[i..n)`.
pub write_loop : List ℕ → ℕ → Ringbuf → ℕ × Ringbuf
write_loop [] i r = (i, r)
write_loop (b ∷ bs) i r =
    let rest = write_loop bs (i + 1) (put r b) in if r.wr == r.rd then (i, r) else rest

-- `ringbuf_write`
unfoldable pub write : Ringbuf → List ℕ → ℕ × Ringbuf
unfolding write_loop
write r src = write_loop src 0 r

-- `ringbuf_left`
unfoldable pub left : Ringbuf → ℕ
left r = add_size (sub_size r.rd r.wr) (if ltb r.rd r.wr then r.size else 0)

-- `ringbuf_contains`
unfoldable pub contains : Ringbuf → ℕ
unfolding left
contains r = sub_size (sub_size r.size (left r)) 1

-- `ringbuf_empty`
unfoldable pub empty : Ringbuf → ℕ
empty r = if next r.rd r.size == r.wr then 1 else 0

-- `ringbuf_full`
unfoldable pub full : Ringbuf → ℕ
full r = if r.wr == r.rd then 1 else 0

-- A user's calls: a read of at most so many bytes, a write of these bytes.
pub data Op : Type 0 where
  get : ℕ → Op
  put_all : List ℕ → Op

-- The calls in order, with the count and the bytes that each returns.
pub ring_run : Ringbuf → List Op → List (ℕ × List ℕ)
ring_run r [] = []
ring_run r (get n ∷ ops) = let (k, out, r') = read r n in (k, out) ∷ ring_run r' ops
ring_run r (put_all src ∷ ops) = let (k, r') = write r src in (k, []) ∷ ring_run r' ops
