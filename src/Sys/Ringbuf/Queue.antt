-- ===== src/Sys/Ringbuf/Queue.antt =====
-- What a user of sys/ringbuf.c sees: a bounded queue of bytes.
use esp_hostdriver.Prelude.{
  ℕ, ◌+◌, ◌-◌, ◌≡◌, ◌↔◌, refl, sym, ap₂, ◌∙◌, inl, inr, Bool-cases, ◌==◌, ne_of_==, List, [], ◌∷◌,
  ◌++◌, arith, length, take, drop, min,
}
use esp_hostdriver.Sys.Ringbuf.{
  Ringbuf, left, contains, empty, full, read, write, next, ring_run, Op, get, put_all,
}
use esp_hostdriver.Sys.Ringbuf.Inv.{IsValid, left-add-contains, left-zero, left-pos}
use esp_hostdriver.Sys.Ringbuf.Refine.{
  contents, length-contents, contents-nil, contents-advance_rd, Reads, read_loop-Reads, Writes,
  write_loop-Writes,
}

-- `ringbuf_read` of `n` bytes returns the oldest bytes, `n` of them or all that there are, says how
-- many, leaves the others in their order, and keeps the invariant and the storage.
pub read-take-drop :
    {r : Ringbuf} (n : ℕ)
    → IsValid r
    → let (k, out, r') = read r n in
      (k ≡ min n (length (contents r)))
      × (out ≡ take n (contents r))
      × (contents r' ≡ drop n (contents r))
      × (r'.buf ≡ r.buf)
      × IsValid r'
unfolding read
read-take-drop n v = ground (arith, read_loop-Reads n 0 v)

-- `ringbuf_write` takes as many of the bytes as `ringbuf_left` says there is room for, returns their
-- number, appends exactly these in their order, and keeps the invariant.
pub write-append :
    {r : Ringbuf} (src : List ℕ)
    → IsValid r
    → let (k, r') = write r src in
      (k ≡ min (length src) (left r)) × (contents r' ≡ contents r ++ take (left r) src) × IsValid r'
unfolding write
write-append src v = ground (arith, write_loop-Writes src 0 v)

-- On a valid ring `ringbuf_contains` is the number of unread bytes, `ringbuf_left` is the rest of the
-- `size - 1` usable slots, `ringbuf_empty` is 1 exactly when no byte is unread, and `ringbuf_full` is 1
-- exactly when `size - 1` bytes are.
counters-contents :
    {r : Ringbuf}
    → IsValid r
    → (contains r ≡ length (contents r))
      × (left r + length (contents r) + 1 ≡ r.size)
      × ((empty r ≡ 1) ↔ (contents r ≡ []))
      × ((full r ≡ 1) ↔ (length (contents r) + 1 ≡ r.size))
unfolding empty full
counters-contents {r} v = (
  sym (length-contents r),
  omega (arith, length-contents r, left-add-contains v),
  (λ h. contents-nil v (ground arith), λ h. none_unread h),
  (
    λ h. omega (arith, length-contents r, left-add-contains v, left-zero v (ground arith)),
    λ h. all_used h,
  ),
)
  where
    none_unread : contents r ≡ [] → empty r ≡ 1
    none_unread h = elim (Bool-cases (next r.rd r.size == r.wr)) [
      | inl e ↦ rw e
      | inr e ↦ cc (contents-advance_rd v (ne_of_== _ _ e))
    ]

    all_used : length (contents r) + 1 ≡ r.size → full r ≡ 1
    all_used h = elim (Bool-cases (r.wr == r.rd)) [
      | inl e ↦ rw e
      | inr e ↦
          absurd
            (omega (arith, length-contents r, left-add-contains v, left-pos v (ne_of_== _ _ e)))
    ]

read-Reads : (n : ℕ) {r : Ringbuf} → IsValid r → Reads n 0 r (read r n)
unfolding read
read-Reads n v = read_loop-Reads n 0 v

write-Writes : (src : List ℕ) {r : Ringbuf} → IsValid r → Writes src 0 r (write r src)
unfolding write
write-Writes src v = write_loop-Writes src 0 v

-- The bounded queue: each call with what it returns.
unfoldable pub queue_run : ℕ → List ℕ → List Op → List (ℕ × List ℕ)
queue_run cap q [] = []
queue_run cap q (get n ∷ ops) = (min n (length q), take n q) ∷ queue_run cap (drop n q) ops
queue_run cap q (put_all src ∷ ops) =
    (min (length src) (cap - length q), []) ∷ queue_run cap (q ++ take (cap - length q) src) ops

-- No sequence of reads and writes tells a valid ring from the queue of its unread bytes that holds at
-- most `size - 1` bytes: every call returns the same count and the same bytes.
pub ring_run_refines :
    (ops : List Op) {r : Ringbuf}
    → IsValid r
    → ring_run r ops ≡ queue_run (r.size - 1) (contents r) ops
unfolding ring_run queue_run
ring_run_refines [] v = refl
ring_run_refines (get n ∷ ops) {r} v =
    let s = read-Reads n v in
    ap₂ ◌∷◌ (ground arith)
      (ring_run_refines ops s.valid ∙ ap₂ (λ cap q. queue_run (cap - 1) q ops) s.size_kept s.rest)
ring_run_refines (put_all src ∷ ops) {r} v =
    let s = write-Writes src v in
    let room : left r ≡ r.size - 1 - length (contents r) =
      omega (arith, length-contents r, left-add-contains v) in
    rw (← room) (
      ap₂ ◌∷◌ (ground arith) (
        ring_run_refines ops s.valid
        ∙ ap₂ (λ cap q. queue_run (cap - 1) q ops) s.size_kept s.bytes))
