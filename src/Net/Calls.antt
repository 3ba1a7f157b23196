-- ===== src/Net/Calls.antt =====
-- The calls of net/netdev.c that set sockets up and tear them down. `drivers` says what the table of
-- operations with a number does.
use esp_hostdriver.Prelude.{
  ℕ, ◌+◌, Bool, Option, none, some, List, ◌==◌, ltb, if◌then◌else◌, length,
}
use esp_hostdriver.Inet.{InetDevCfg}
use esp_hostdriver.Host.{
  Ptr, ft_reg, Filed, SockAddr, SockType, stream, dgram, Cmd, pure, fault, ◌>>=◌, ◌>>◌, get, put,
  expect, load_node, load_sock, store_sock, load_dev, list_rm, list_first, update,
}
use esp_hostdriver.Host.Ret.{Ret, ret, fail, is_zero}
use esp_hostdriver.Bos.{o_rdwr, depth, fd_alloc, fd_free, fd_acquire, node_create, node_destroy}
use esp_hostdriver.Net.Itoa.{itoa}
use esp_hostdriver.Net.Device.{NetdevOps, domain_cfg, netdev_sock_alloc, assign_netdev}

-- `itoa(id, 10, name, 8)` into a buffer of 8 bytes. A text of 8 digits has no room for its 0, and
-- with none the buffer is read as it was: both are faults.
unfoldable pub sock_name : ℕ → Cmd (List ℕ)
sock_name id = elim (itoa id 10 8) [
  | none ↦ λ _. fault
  | some name ↦ if ltb (length name) 8 then pure name else λ _. fault
]

-- `fd->node->data` of a descriptor that may be null.
unfoldable pub sock_of : Option Filed → Cmd Ptr
sock_of found = do fd ← expect found; n ← load_node fd.node; pure n.data'

-- A node with the given number for its name, and a descriptor for it: the id.
unfoldable pub open_sock : ℕ → Ptr → Cmd Ret
unfolding sock_name
open_sock number sock = do
  name ← sock_name number
  w ← get
  node ← node_create w.net_root name (length name) ft_reg sock w.netfs_id
  made ← fd_alloc node o_rdwr 0
  fd ← expect made
  pure (ret fd.id)

-- `bos_socket`
unfoldable pub bos_socket : SockAddr → ℕ → SockType → Cmd Ret
unfolding open_sock domain_cfg
bos_socket junk domain ty = do
  _ ← domain_cfg domain
  sock ← netdev_sock_alloc junk ty
  s ← load_sock sock
  store_sock sock (record s { addr = record junk { domain = domain } })
  w ← get
  put (record w { sock_count = w.sock_count + 1 })
  open_sock (w.sock_count + 1) sock

module _ (drivers : ℕ → NetdevOps) where
  -- `bos_net_configure`
  unfoldable pub bos_net_configure : InetDevCfg → ℕ → Cmd Ret
  unfolding domain_cfg
  bos_net_configure cfg cfg_size = do
    w ← get
    let dev = list_first w.dev_lst
    d ← load_dev dev
    (size, _) ← domain_cfg d.domain
    if cfg_size == size
        then (do
          put (record w { devs = update w.devs dev (some (record d { cfg = cfg })) })
          op ← expect (drivers d.ops).configure
          op dev cfg)
        else pure fail

  -- `bos_connect`
  unfoldable pub bos_connect : ℕ → SockAddr → ℕ → Cmd Ret
  unfolding sock_of
  bos_connect fd_id addr addr_len = do
    found ← fd_acquire fd_id
    elim found [
      | none ↦ pure fail
      | some fd ↦ (do
        sock ← sock_of (some fd)
        s ← load_sock sock
        if s.dev == 0
            then (do
              r ← assign_netdev sock addr addr_len
              if is_zero r
                  then (do
                    s ← load_sock sock
                    d ← load_dev s.dev
                    elim (drivers d.ops).connect [ none ↦ pure fail | some op ↦ op sock ])
                  else pure fail)
            else pure fail)
    ]

  -- `bos_listen`
  unfoldable pub bos_listen : ℕ → ℕ → Cmd Ret
  unfolding sock_of
  bos_listen fd_id backlog = do
    found ← fd_acquire fd_id
    sock ← sock_of found
    s ← load_sock sock
    elim s.ty [
      | dgram ↦ pure fail
      | stream ↦ if s.dev == 0 then pure fail else (do
        d ← load_dev s.dev
        elim (drivers d.ops).listen [ none ↦ pure fail | some op ↦ op sock backlog ])
    ]

  -- `bos_close`
  unfoldable pub bos_close : ℕ → Cmd Ret
  bos_close fd_id = do
    found ← fd_acquire fd_id
    elim found [
      | none ↦ pure fail
      | some fd ↦ (do
        n ← load_node fd.node
        if n.data' == 0 then pure (ret 0) else (do
          s ← load_sock n.data'
          if s.dev == 0 then pure (ret 0) else (do
            d ← load_dev s.dev
            r ← elim (drivers d.ops).close [ none ↦ pure fail | some op ↦ op n.data' ]
            if is_zero r then node_destroy depth fd.node >> pure r else pure r)))
    ]

  -- `close` of the socket file system. A node that the free of the descriptor leaves without users is
  -- destroyed.
  unfoldable pub netfs_close : Filed → Cmd Ret
  unfolding sock_of
  netfs_close fd = do
    sock ← sock_of (some fd)
    if sock == 0 then pure tt else (do
      s ← load_sock sock
      if s.dev == 0
          then pure tt
          else (do d ← load_dev s.dev; op ← expect (drivers d.ops).close; _ ← op sock; pure tt))
    fd_free fd
    n ← load_node fd.node
    if n.ref_cnt == 0 then node_destroy depth fd.node >> pure (ret 0) else pure (ret 0)

-- `bos_bind`
unfoldable pub bos_bind : ℕ → SockAddr → ℕ → Cmd Ret
unfolding sock_of
bos_bind fd_id addr addr_len = do
  found ← fd_acquire fd_id
  sock ← sock_of found
  assign_netdev sock addr addr_len

-- `bos_accept`. The caller's `*addr_len` is that of an address, or both pointers are null; the second
-- result is what goes to `*addr`. The name is made from the parameter `fd_id`, which hides the
-- counter of the same name.
unfoldable pub bos_accept : ℕ → Bool → Cmd (Ret × Option SockAddr)
unfolding sock_of open_sock domain_cfg
bos_accept fd_id wants_addr = do
  found ← fd_acquire fd_id
  sock ← sock_of found
  s ← load_sock sock
  elim s.ty [
    | dgram ↦ pure (fail, none)
    | stream ↦ if s.dev == 0 then pure (fail, none) else (do
      let cl = list_first s.clients
      if cl == 0 then pure (fail, none) else (do
        c ← load_sock cl
        if wants_addr then (do _ ← domain_cfg c.addr.domain; pure tt) else pure tt
        store_sock cl (record c { dev = s.dev })
        s ← load_sock sock
        store_sock sock (record s { clients = list_rm cl s.clients })
        r ← open_sock (fd_id + 1) cl
        pure (r, if wants_addr then some c.addr else none)))
  ]

-- `open` of the socket file system
unfoldable pub netfs_open : Cmd Ret
netfs_open = pure (ret 0)
