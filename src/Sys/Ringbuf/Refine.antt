-- ===== src/Sys/Ringbuf/Refine.antt =====
-- The queue of bytes that a valid ring of sys/ringbuf.c stands for.
use esp_hostdriver.Prelude.{
  ℕ, zero, suc, ◌+◌, ◌-◌, ◌^◌, ◌≤◌, ◌<◌, ◌≡◌, ◌≢◌, ◌⊎◌, refl, ap, ap₂, ◌∙◌, inl, inr, List, [], ◌∷◌,
  ◌++◌, append-nil, append_assoc, arith, length, get_or, set, take, drop, get_or-set_self,
  get_or-set_ne, min, Bool-cases, ◌==◌, eq_of_==, ne_of_==,
}
use esp_hostdriver.Sys.Ringbuf.{
  Ringbuf, next, advance_rd, put, left, contains, read_loop, write_loop,
}
use esp_hostdriver.Sys.Ringbuf.Inv.{
  IsValid, next_cases, advance_rd-IsValid, put-IsValid, left-LeftOf, left-add-contains,
  contains-zero, contains-advance_rd, contains-put, left-zero, left-pos,
}

module _ (buf : List ℕ) (size : ℕ) where
  -- The `n` bytes from index `i` on, round the ring.
  pub segment : ℕ → ℕ → List ℕ
  segment i zero = []
  segment i (suc n) = get_or buf i 0 ∷ segment (next i size) n

  length-segment : (i n : ℕ) → length (segment i n) ≡ n
  unfolding segment
  length-segment i zero = refl
  length-segment i (suc n) = ap suc (length-segment (next i size) n)

-- The bytes that were written and not yet read, oldest first.
unfoldable pub contents : Ringbuf → List ℕ
unfolding segment
contents r = segment r.buf r.size (next r.rd r.size) (contains r)

pub length-contents : (r : Ringbuf) → length (contents r) ≡ contains r
unfolding contents
length-contents r = length-segment r.buf r.size (next r.rd r.size) (contains r)

-- `w` lies `n` steps behind `i`, round the ring.
abbrev Ahead : ℕ → ℕ → ℕ → ℕ → Type 0
Ahead size i n w = (i + n ≡ w) ⊎ (i + n ≡ w + size)

module _ (buf : List ℕ) (size w b : ℕ) (fits : size ≤ length buf) (small : size ≤ 2 ^ 63)
    (w_in : w < size) where
  segment-set :
      (n i : ℕ)
      → i < size
      → n < size
      → Ahead size i n w
      → segment (set buf w b) size i (suc n) ≡ segment buf size i n ++ b ∷ []
  unfolding segment
  segment-set zero i hi hn a =
      let e : i ≡ w = omega arith in rw (e, get_or-set_self buf w b 0 (omega arith))
  segment-set (suc n) i hi hn a =
      let e : w ≢ i = omega arith in
      ap₂ ◌∷◌ (get_or-set_ne buf w i b 0 e) (
        segment-set n (next i size) (omega (arith, next_cases i size hi small)) (omega arith)
          (omega (arith, next_cases i size hi small)))

module _ {r : Ringbuf} (v : IsValid r) where
  wr-Ahead : Ahead r.size (next r.rd r.size) (contains r) r.wr
  wr-Ahead =
      omega (arith, left-LeftOf v, left-add-contains v, next_cases r.rd r.size v.rd_in v.small)

  contents-put : (b : ℕ) → r.wr ≢ r.rd → contents (put r b) ≡ contents r ++ b ∷ []
  unfolding contents
  contents-put b h =
      ap (segment (set r.buf r.wr b) r.size (next r.rd r.size)) (contains-put v b h)
      ∙ segment-set r.buf r.size r.wr b v.storage v.small v.wr_in (contains r) (next r.rd r.size)
          (omega (arith, next_cases r.rd r.size v.rd_in v.small))
          (omega (arith, left-add-contains v)) wr-Ahead

  pub contents-advance_rd :
      next r.rd r.size ≢ r.wr
      → contents r ≡ get_or r.buf (next r.rd r.size) 0 ∷ contents (advance_rd r)
  unfolding contents segment
  contents-advance_rd h = ap (segment r.buf r.size (next r.rd r.size)) (contains-advance_rd v h)

  pub contents-nil : next r.rd r.size ≡ r.wr → contents r ≡ []
  unfolding contents segment
  contents-nil h = rw (contains-zero v h)

-- What a read of at most `k` bytes leaves, started with `i` bytes read.
pub record Reads (k i : ℕ) (r : Ringbuf) (result : ℕ × List ℕ × Ringbuf) : Type 0 where
  pub valid : IsValid result.2
  pub count : result.0 ≡ i + min k (length (contents r))
  pub bytes : result.1 ≡ take k (contents r)
  pub rest : contents result.2 ≡ drop k (contents r)
  pub size_kept : result.2.size ≡ r.size
  pub storage_kept : result.2.buf ≡ r.buf

pub read_loop-Reads : (k i : ℕ) {r : Ringbuf} → IsValid r → Reads k i r (read_loop k i r)
unfolding read_loop
read_loop-Reads zero i {r} v = record {
  valid = v;
  count = omega arith;
  bytes = refl;
  rest = refl;
  size_kept = refl;
  storage_kept = refl;
}
read_loop-Reads (suc k) i {r} v = elim (Bool-cases (next r.rd r.size == r.wr)) [
  | inl e ↦ ground (arith, contents-nil v (eq_of_== _ _ e))
  | inr e ↦ ground (
    arith,
    contents-advance_rd v (ne_of_== _ _ e),
    read_loop-Reads k (i + 1) (advance_rd-IsValid v),
  )
]

-- What a write of `src` leaves, started with `i` bytes written.
pub record Writes (src : List ℕ) (i : ℕ) (r : Ringbuf) (result : ℕ × Ringbuf) : Type 0 where
  pub valid : IsValid result.1
  pub count : result.0 ≡ i + min (length src) (left r)
  pub bytes : contents result.1 ≡ contents r ++ take (left r) src
  pub size_kept : result.1.size ≡ r.size

take_zero {ℓ} : {A : Type ℓ} (n : ℕ) (xs : List A) → n ≡ 0 → take n xs ≡ []
take_zero n xs e = rw e

take-nil {ℓ} : (A : Type ℓ) (n : ℕ) → take {A = A} n [] ≡ []
take-nil A zero = refl
take-nil A (suc n) = refl

take-cons {ℓ} :
    {A : Type ℓ} (n : ℕ) (x : A) (xs : List A) → 0 < n → take n (x ∷ xs) ≡ x ∷ take (n - 1) xs
take-cons zero x xs h = elim h [ ]
take-cons (suc n) x xs h = ap (λ k. x ∷ take k xs) (omega arith)

left-put : {r : Ringbuf} (v : IsValid r) (b : ℕ) → r.wr ≢ r.rd → left (put r b) ≡ left r - 1
left-put {r} v b h =
    omega (arith, left-add-contains v, left-add-contains (put-IsValid v b), contains-put v b h)

pub write_loop-Writes :
    (src : List ℕ) (i : ℕ) {r : Ringbuf} → IsValid r → Writes src i r (write_loop src i r)
unfolding write_loop
write_loop-Writes [] i {r} v = record {
  valid = v;
  count = omega arith;
  bytes = rw (take-nil, append-nil);
  size_kept = refl;
}
write_loop-Writes (b ∷ bs) i {r} v = elim (Bool-cases (r.wr == r.rd)) [
  | inl e ↦
      let none_left : left r ≡ 0 = left-zero v (eq_of_== _ _ e) in
      ground (arith, take_zero (left r) (b ∷ bs), append-nil (contents r))
  | inr e ↦
      let h : r.wr ≢ r.rd = ne_of_== _ _ e in
      ground (
        arith,
        left-pos v h,
        left-put v b h,
        contents-put v b h,
        take-cons (left r) b bs,
        append_assoc (contents r) (b ∷ []) (take (left r - 1) bs),
        write_loop-Writes bs (i + 1) (put-IsValid v b),
      )
]
