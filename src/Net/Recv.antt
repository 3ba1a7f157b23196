-- ===== src/Net/Recv.antt =====
-- Messages on their way from the reader thread to `bos_recvfrom`.
use esp_hostdriver.Prelude.{
  ℕ, zero, suc, ◌+◌, ◌-◌, ◌^◌, ◌≤◌, ◌<◌, ◌≡◌, ◌≢◌, refl, ap, ◌∙◌, inl, inr, Bool-cases, true, none,
  some, List, [], ◌∷◌, ◌++◌, arith, length, take, drop, ltb, ◌==◌, ==_ne, ==_self, sub_size,
  add_size, min,
}
use esp_hostdriver.Sys.Ringbuf
use esp_hostdriver.Sys.Ringbuf.{Ringbuf, left}
use esp_hostdriver.Host.{
  Ptr, FsNode, Filed, stream, dgram, Socket, Datagram, World, done, pure, ◌>>=◌, update, load_node,
  load_sock, store_sock,
}
use esp_hostdriver.Host.Ret.{ret}
use esp_hostdriver.Bos.{find_fd, fd_acquire}
use esp_hostdriver.Net.Device.{domain_cfg}
use esp_hostdriver.Net.Calls.{sock_of}
use esp_hostdriver.Net.Transfer.{consume, dgram_count, bos_recvfrom, bos_recv}

-- A descriptor of a socket, as it is found in the state.
pub record IsSock (w : World) (fd_id : ℕ) (sock : Ptr) (s : Socket) : Type 0 where
  pub fd : Filed
  pub node : FsNode
  pub fd_at : find_fd fd_id w.fd_lst ≡ some fd
  pub node_at : w.nodes fd.node ≡ some (record node { data' = sock })
  pub some_sock : sock ≢ 0
  pub sock_at : w.socks sock ≡ some s

-- The state with another socket at an address.
abbrev pub with_sock : World → Ptr → Socket → World
with_sock w sock s = record w { socks = update w.socks sock (some s) }

-- Sockets of the two kinds.
abbrev pub dgram_sock : Socket → List Datagram → Socket
dgram_sock s ds = record s { ty = dgram; dgrams = ds }

abbrev pub stream_sock : Socket → Ringbuf → Socket
stream_sock s ring = record s { ty = stream; ring = ring }

module _ {w : World} {fd_id : ℕ} {sock : Ptr} (s : Socket) where
  pub recv-dgram :
      (len : ℕ) (d : Datagram) (rest : List Datagram)
      → IsSock w fd_id sock (dgram_sock s (d ∷ rest))
      → bos_recv fd_id len w
        ≡ done
            (record {
              result = ret (dgram_count len d);
              bytes = take (dgram_count len d) (drop d.idx d.payload);
              from = none;
            })
            (with_sock w sock (dgram_sock s (consume d (dgram_count len d) rest)))
  unfolding bos_recv bos_recvfrom fd_acquire sock_of load_node load_sock store_sock
  recv-dgram len d rest i =
      rw i.fd_at (rw i.node_at (rw (==_ne sock 0 i.some_sock) (rw i.sock_at refl)))

  -- `bos_recvfrom` with a place for the sender.
  pub recvfrom-dgram :
      (len : ℕ) (d : Datagram) (rest : List Datagram)
      → s.addr.domain ≡ 0
      → IsSock w fd_id sock (dgram_sock s (d ∷ rest))
      → bos_recvfrom fd_id len true w
        ≡ done
            (record {
              result = ret (dgram_count len d);
              bytes = take (dgram_count len d) (drop d.idx d.payload);
              from = some d.addr;
            })
            (with_sock w sock (dgram_sock s (consume d (dgram_count len d) rest)))
  unfolding bos_recvfrom fd_acquire sock_of load_node load_sock store_sock domain_cfg
  recvfrom-dgram len d rest inet i =
      rw i.fd_at (rw i.node_at (rw (==_ne sock 0 i.some_sock) (rw i.sock_at (rw inet refl))))

  pub recv-stream :
      (len : ℕ) (ring : Ringbuf)
      → IsSock w fd_id sock (stream_sock s ring)
      → bos_recv fd_id len w ≡ (
          let (n, bytes, ring') = Ringbuf.read ring len in
          done
            (record { result = ret n; bytes = bytes; from = none })
            (with_sock w sock (stream_sock s ring')))
  unfolding bos_recv bos_recvfrom fd_acquire sock_of load_node load_sock store_sock
  recv-stream len ring i =
      rw i.fd_at (rw i.node_at (rw (==_ne sock 0 i.some_sock) (rw i.sock_at refl)))

  pub IsSock-with_sock :
      {t : Socket} (u : Socket) → IsSock w fd_id sock t → IsSock (with_sock w sock u) fd_id sock u
  IsSock-with_sock u i = record {
    fd = i.fd;
    node = i.node;
    fd_at = i.fd_at;
    node_at = i.node_at;
    some_sock = i.some_sock;
    sock_at = rw (==_self sock) refl;
  }

module _ (w : World) (sock : Ptr) where
  -- The second of two stores to a socket is the one that counts.
  with_sock-with_sock : (t u : Socket) → with_sock (with_sock w sock t) sock u ≡ with_sock w sock u
  with_sock-with_sock t u = ap (λ f. record w { socks = f }) (λ i q. twice q i)
    where
      twice :
          (q : Ptr)
          → update (update w.socks sock (some t)) sock (some u) q ≡ update w.socks sock (some u) q
      twice q = elim (Bool-cases (sock == q)) [ inl e ↦ rw e refl | inr e ↦ rw e refl ]

take-nil : (n : ℕ) → take {A = ℕ} n [] ≡ []
take-nil zero = refl
take-nil (suc n) = refl

drop-nil : (n : ℕ) → drop {A = ℕ} n [] ≡ []
drop-nil zero = refl
drop-nil (suc n) = refl

take-split : (n m k : ℕ) (p : List ℕ) → k ≡ n + m → take k p ≡ take n p ++ take m (drop n p)
take-split zero m k p e = let same : k ≡ m = omega arith in rw same refl
take-split (suc n) m zero p e = absurd (omega arith)
take-split (suc n) m (suc k) [] e = rw (take-nil m) refl
take-split (suc n) m (suc k) (x ∷ p) e = ap (λ r. x ∷ r) (take-split n m k p (omega arith))

drop-drop : (i n k : ℕ) (p : List ℕ) → k ≡ i + n → drop n (drop i p) ≡ drop k p
drop-drop zero n k p e = let same : k ≡ n = omega arith in rw same refl
drop-drop (suc i) n zero p e = absurd (omega arith)
drop-drop (suc i) n (suc k) [] e = drop-nil n
drop-drop (suc i) n (suc k) (x ∷ p) e = drop-drop i n k p (omega arith)

take-add :
    (n m i : ℕ) (p : List ℕ)
    → take (n + m) (drop i p) ≡ take n (drop i p) ++ take m (drop (i + n) p)
take-add n m i p =
    take-split n m (n + m) (drop i p) refl
    ∙ ap (λ r. take n (drop i p) ++ take m r) (drop-drop i n (i + n) p refl)

pub dgram_count-min :
    (len : ℕ) (d : Datagram)
    → d.idx ≤ length d.payload
    → length d.payload < 2 ^ 64
    → dgram_count len d ≡ min len (length d.payload - d.idx)
dgram_count-min len d h small =
    let left : sub_size (length d.payload) d.idx ≡ length d.payload - d.idx = omega arith in
    elim (Bool-cases (ltb (length d.payload - d.idx) len)) [
      | inl e ↦ rw (left, e) (ground arith)
      | inr e ↦ rw (left, e) (ground arith)
    ]

-- A datagram that is not read to its end by `n` more bytes.
module _ (d : Datagram) (n m : ℕ) (inside : d.idx + n < length d.payload)
    (small : length d.payload < 2 ^ 64) where
  abbrev later : Datagram
  later = record d { idx = d.idx + n }

  count_first : dgram_count n d ≡ n
  count_first = omega (arith, dgram_count-min n d (omega arith) small)

  count_both : dgram_count (n + m) d ≡ n + dgram_count m later
  count_both = omega (
    arith,
    dgram_count-min (n + m) d (omega arith) small,
    dgram_count-min m later (omega arith) small,
  )

  consume_first : (rest : List Datagram) → consume d n rest ≡ later ∷ rest
  consume_first rest =
      let at : add_size d.idx n ≡ d.idx + n = omega arith in
      rw (at, ==_ne (d.idx + n) (length d.payload) (omega arith)) refl

  consume_both : (k : ℕ) (rest : List Datagram) → consume d (n + k) rest ≡ consume later k rest
  consume_both k rest = let at : d.idx + (n + k) ≡ d.idx + n + k = omega arith in rw at refl

-- Two calls of `bos_recv` with the lengths `n` and `m` get the bytes that one call with `n + m` gets,
-- and leave the same state, if the first datagram of the socket has more than `n` bytes left.
pub recv-recv :
    {w : World} {fd_id : ℕ} {sock : Ptr} (s : Socket) (d : Datagram) (rest : List Datagram)
    (n m : ℕ)
    → IsSock w fd_id sock (dgram_sock s (d ∷ rest))
    → d.idx + n < length d.payload
    → length d.payload < 2 ^ 64
    → (bos_recv fd_id n >>= λ a. bos_recv fd_id m >>= λ b. pure (a.bytes ++ b.bytes)) w
      ≡ (bos_recv fd_id (n + m) >>= λ c. pure c.bytes) w
recv-recv {w} {fd_id} {sock} s d rest n m i inside small =
    let d' = later d n m inside small in
    let k = dgram_count m d' in
    let i' = IsSock-with_sock s (dgram_sock s (d' ∷ rest)) i in
    rw
      (
        recv-dgram s n d rest i,
        recv-dgram s (n + m) d rest i,
        count_first d n m inside small,
        count_both d n m inside small,
        consume_first d n m inside small rest,
        consume_both d n m inside small k rest,
      )
      (rw
        (
          recv-dgram s m d' rest i',
          with_sock-with_sock w sock (dgram_sock s (d' ∷ rest)) (dgram_sock s (consume d' k rest)),
          take-add n k d.idx d.payload,
        )
        refl)
