-- ===== src/Net/Deliver.antt =====
-- Messages that wait at a socket and the calls of `bos_recv` in net/netdev.c that take them, and those
-- that the reader thread hands over: `deliver`, the end of the callback `recv` in esp01/esp01.c.
use esp_hostdriver.Bos.Descriptors.{ℕ-cases}
use esp_hostdriver.Prelude.{
  ℕ, zero, suc, ◌^◌, ◌≤◌, ◌<◌, ◌≡◌, refl, ap, ◌∙◌, none, List, [], ◌∷◌, ◌++◌, arith, All, map,
  length, take, drop, take-length, ==_self, min, add_size, some, inl, inr, Bool-cases, ◌==◌,
}
use esp_hostdriver.Sys.Ringbuf
use esp_hostdriver.Sys.Ringbuf.{Ringbuf, left}
use esp_hostdriver.Sys.Ringbuf.Inv.{IsValid}
use esp_hostdriver.Sys.Ringbuf.Refine.{contents}
use esp_hostdriver.Sys.Ringbuf.Queue.{read-take-drop, write-append}
use esp_hostdriver.Host.{
  Ptr, SockAddr, Socket, Datagram, World, done, Cmd, pure, ◌>>=◌, ◌>>◌, malloc, load_sock,
  store_sock, Ends, ends, bind, dgram, fault,
}
use esp_hostdriver.Host.Ret.{ret}
use esp_hostdriver.Esp.Notice.{deliver}
use esp_hostdriver.Net.Transfer.{dgram_count, bos_recv}
use esp_hostdriver.Net.Recv.{
  IsSock, with_sock, dgram_sock, stream_sock, recv-dgram, recv-stream, IsSock-with_sock,
  dgram_count-min,
}

-- Calls of `bos_recv` one after another, `k` of them: the bytes that each got.
unfoldable pub recv_each : ℕ → ℕ → ℕ → Cmd (List (List ℕ))
recv_each fd_id len zero = pure []
recv_each fd_id len (suc k) = do
  r ← bos_recv fd_id len
  more ← recv_each fd_id len k
  pure (r.bytes ∷ more)

abbrev pub fresh_dgram : List ℕ × SockAddr → Datagram
fresh_dgram (payload, from) = record { idx = 0; payload = payload; addr = from }

-- No datagram is begun, and each fits into a buffer of `len` bytes.
abbrev pub Fit : ℕ → List (List ℕ × SockAddr) → Type 0
Fit len = All (λ m. (length m.0 ≤ len) × (length m.0 < 2 ^ 64))

-- A message of at least a byte for a datagram socket is a fault, whether there is memory for it or not.
pub deliver-dgram :
    (w : World) {t : Socket} (idx : ℕ) (sock : Ptr) (payload : List ℕ) (from : SockAddr)
    → w.socks sock ≡ some t
    → t.ty ≡ dgram
    → 0 < length payload
    → deliver idx sock payload from w ≡ fault
unfolding deliver load_sock malloc
deliver-dgram w idx sock [] from there kind some_byte = absurd (omega arith)
deliver-dgram w idx sock (b ∷ bs) from there kind some_byte = rw there (
    rw kind (elim (ℕ-cases w.budget) [
      | inl out ↦ rw out refl
      | inr (m, room) ↦
          rw room (elim (Bool-cases (w.fresh == 0)) [ inl e ↦ rw e refl | inr e ↦ rw e refl ])
    ]))

module _ {fd_id : ℕ} {sock : Ptr} (s : Socket) where
  recv_whole :
      {w : World} (len : ℕ) (m : List ℕ × SockAddr) (rest : List Datagram)
      → length m.0 ≤ len
      → length m.0 < 2 ^ 64
      → IsSock w fd_id sock (dgram_sock s (fresh_dgram m ∷ rest))
      → bos_recv fd_id len w
        ≡ done
            (record { result = ret (length m.0); bytes = m.0; from = none })
            (with_sock w sock (dgram_sock s rest))
  recv_whole len (payload, a) rest fits small i =
      let d = fresh_dgram (payload, a) in
      let count : dgram_count len d ≡ length payload =
        omega (arith, dgram_count-min len d (omega arith) small) in
      let end : add_size 0 (length payload) ≡ length payload = omega arith in
      recv-dgram s len d rest i
      ∙ rw
          (count, end, ==_self (length payload), take-length (length payload) payload (omega arith))
          refl

  -- As many calls of `bos_recv` as datagrams wait at a socket return them in their order, each whole, and
  -- none is left. None of them is begun, and the caller's buffer has room for each.
  pub recv_each-dgrams :
      (len : ℕ) (ms : List (List ℕ × SockAddr)) {w : World}
      → Fit len ms
      → IsSock w fd_id sock (dgram_sock s (map fresh_dgram ms))
      → Ends
          (λ got v. (got ≡ map (λ m. m.0) ms) × IsSock v fd_id sock (dgram_sock s []))
          (recv_each fd_id len (length ms) w)
  unfolding recv_each
  recv_each-dgrams len [] f i = ends (refl, i)
  recv_each-dgrams len (m ∷ ms) f i = rw (recv_whole len m (map fresh_dgram ms) f.0.0 f.0.1 i) (
      bind (recv_each-dgrams len ms f.1 (IsSock-with_sock s (dgram_sock s (map fresh_dgram ms)) i))
        (λ got v h. ends (ap (λ l. m.0 ∷ l) h.0, h.1)))

  pub deliver-stream :
      {w : World} (idx : ℕ) (ring : Ringbuf) (payload : List ℕ) (from : SockAddr)
      → IsSock w fd_id sock (stream_sock s ring)
      → deliver idx sock payload from w
        ≡ done tt (with_sock w sock (stream_sock s (Ringbuf.write ring payload).1))
  unfolding deliver load_sock store_sock
  deliver-stream idx ring payload from i = rw i.sock_at refl

  -- What comes on a connection goes behind the bytes that are unread, as far as there is room for it,
  -- and `bos_recv` returns the first of these bytes, `len` of them or all, and leaves the others.
  pub deliver-recv_stream :
      {w : World} (idx : ℕ) (ring : Ringbuf) (payload : List ℕ) (from : SockAddr) (len : ℕ)
      → IsValid ring
      → IsSock w fd_id sock (stream_sock s ring)
      → Ends
          (λ r v.
            let unread = contents ring ++ take (left ring) payload in
            (r.result ≡ ret (min len (length unread)))
            × (r.bytes ≡ take len unread)
            × (ring' : Ringbuf) × IsValid ring'
            × (contents ring' ≡ drop len unread)
            × IsSock v fd_id sock (stream_sock s ring'))
          ((deliver idx sock payload from >> bos_recv fd_id len) w)
  deliver-recv_stream {w} idx ring payload from len valid i =
      let ring1 = (Ringbuf.write ring payload).1 in
      let ring2 = (Ringbuf.read ring1 len).2 in
      let put = write-append payload valid in
      let got = read-take-drop len put.2 in
      let i1 = IsSock-with_sock s (stream_sock s ring1) i in
      rw (deliver-stream idx ring payload from i) (
        rw (recv-stream s len ring1 i1) (
          ends (
            ap ret (got.0 ∙ ap (λ l. min len (length l)) put.1),
            got.1 ∙ ap (take len) put.1,
            ring2,
            got.4,
            got.2 ∙ ap (drop len) put.1,
            IsSock-with_sock s (stream_sock s ring2) i1,
          )))
