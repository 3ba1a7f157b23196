-- ===== src/Net/Transfer.antt =====
-- The calls of net/netdev.c that move bytes.
use esp_hostdriver.Prelude.{
  ℕ, Bool, false, Option, none, some, List, [], ◌∷◌, ◌==◌, ltb, if◌then◌else◌, length, take, drop,
  sub_size, add_size,
}
use esp_hostdriver.Sys.Ringbuf
use esp_hostdriver.Host.{
  Ptr, Filed, SockAddr, stream, dgram, Datagram, Cmd, pure, ◌>>=◌, ◌>>◌, load_sock, store_sock,
  load_dev,
}
use esp_hostdriver.Host.Ret.{Ret, ret, fail, is_zero}
use esp_hostdriver.Bos.{fd_acquire}
use esp_hostdriver.Net.Device.{NetdevOps, domain_cfg, assign_netdev}
use esp_hostdriver.Net.Calls.{sock_of}

-- The end of `bos_sendto`: `dev->ops.send`, if it is set.
unfoldable pub send_op : (ℕ → NetdevOps) → Ptr → Ptr → List ℕ → ℕ → Cmd Ret
send_op drivers dev sock payload len = do
  d ← load_dev dev
  elim (drivers d.ops).send [ none ↦ pure fail | some op ↦ op sock payload len ]

module _ (drivers : ℕ → NetdevOps) where
  -- `bos_sendto`; `payload` holds the bytes that `data` points to, up to a 0 behind them.
  unfoldable pub bos_sendto : ℕ → List ℕ → ℕ → Option SockAddr → ℕ → Cmd Ret
  unfolding sock_of send_op domain_cfg
  bos_sendto fd_id payload len addr addr_len = do
    found ← fd_acquire fd_id
    sock ← sock_of found
    if sock == 0 then pure fail else (do
      s ← load_sock sock
      elim s.ty [
        | stream ↦
            if s.dev == 0
            then pure fail
            else elim addr [ some _ ↦ pure fail | none ↦ send_op drivers s.dev sock payload len ]
        | dgram ↦ elim addr [
          | none ↦ if s.dev == 0 then pure fail else send_op drivers s.dev sock payload len
          | some a ↦ (do
            (_, size) ← domain_cfg s.addr.domain
            if addr_len == size
                then (do
                  r ← assign_netdev sock a addr_len
                  if is_zero r
                      then (do s ← load_sock sock; send_op drivers s.dev sock payload len)
                      else pure fail)
                else pure fail)
        ]
      ])

  -- `bos_send`
  unfoldable pub bos_send : ℕ → List ℕ → ℕ → Cmd Ret
  unfolding bos_sendto
  bos_send fd_id payload len = bos_sendto fd_id payload len none 0

  -- `write` of the socket file system
  unfoldable pub netfs_write : Filed → List ℕ → ℕ → Cmd Ret
  unfolding bos_send
  netfs_write fd payload n = bos_send fd.id payload n

-- What a receive returns: the result, the bytes that go to `data`, and the address that goes to
-- `*addr`.
pub record Received : Type 0 where
  pub result : Ret
  pub bytes : List ℕ
  pub from : Option SockAddr

abbrev pub nothing : Ret → Received
nothing r = record { result = r; bytes = []; from = none }

-- The first datagram of a socket after `n` of its bytes are taken: it goes once it is read to its
-- end.
abbrev pub consume : Datagram → ℕ → List Datagram → List Datagram
consume d n rest =
    if add_size d.idx n == length d.payload
    then rest
    else record d { idx = add_size d.idx n } ∷ rest

-- `MIN(data_len, dgram->len - dgram->idx)`
abbrev pub dgram_count : ℕ → Datagram → ℕ
dgram_count len d =
    let left = sub_size (length d.payload) d.idx in if ltb left len then left else len

-- `bos_recvfrom`. The caller's `*addr_len` is that of an address, or both pointers are null.
unfoldable pub bos_recvfrom : ℕ → ℕ → Bool → Cmd Received
unfolding sock_of domain_cfg
bos_recvfrom fd_id len wants_addr = do
  found ← fd_acquire fd_id
  sock ← sock_of found
  if sock == 0 then pure (nothing fail) else (do
    s ← load_sock sock
    elim s.ty [
      | dgram ↦ elim s.dgrams [
        | [] ↦ pure (nothing (ret 0))
        | d ∷ rest ↦ (do
          if wants_addr then (do _ ← domain_cfg s.addr.domain; pure tt) else pure tt
          let n = dgram_count len d
          store_sock sock (record s { dgrams = consume d n rest })
          pure (record {
            result = ret n;
            bytes = take n (drop d.idx d.payload);
            from = if wants_addr then some d.addr else none;
          }))
      ]
      | stream ↦ (do
        let (n, bytes, ring) = Ringbuf.read s.ring len
        store_sock sock (record s { ring = ring })
        pure (record { result = ret n; bytes = bytes; from = none }))
    ])

-- `bos_recv`
unfoldable pub bos_recv : ℕ → ℕ → Cmd Received
unfolding bos_recvfrom
bos_recv fd_id len = bos_recvfrom fd_id len false

-- `read` of the socket file system
unfoldable pub netfs_read : Filed → ℕ → Cmd Received
unfolding bos_recv
netfs_read fd n = bos_recv fd.id n
