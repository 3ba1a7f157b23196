-- ===== src/Net/Device.antt =====
-- The first part of net/netdev.c: set-up, devices, and sockets without descriptors.
use esp_hostdriver.Prelude.{
  ℕ, true, false, Option, none, some, List, [], ◌∷◌, ◌++◌, ◌==◌, if◌then◌else◌, replicate,
}
use esp_hostdriver.Prelude.Codes.{codes}
use esp_hostdriver.Sys.Ringbuf
use esp_hostdriver.Sys.Ringbuf.{Ringbuf}
use esp_hostdriver.Inet.{InetDevCfg, inet_match_addr, sizeof_sock_addr_inet}
use esp_hostdriver.Host.{
  Ptr, ft_dir, SockAddr, SockType, stream, dgram, Cmd, pure, fault, ◌>>=◌, ◌>>◌, get, put, malloc,
  load_node, store_node, load_sock, store_sock, load_dev, list_rm, update,
}
use esp_hostdriver.Host.Ret.{Ret, ret, fail}
use esp_hostdriver.Bos.{register, node_create}

-- `netdev_ops_t`: what a driver can do for a socket. None stands for a null callback.
pub record NetdevOps : Type 0 where
  pub configure : Option (Ptr → InetDevCfg → Cmd Ret)
  pub connect : Option (Ptr → Cmd Ret)
  pub listen : Option (Ptr → ℕ → Cmd Ret)
  pub close : Option (Ptr → Cmd Ret)
  pub send : Option (Ptr → List ℕ → ℕ → Cmd Ret)

-- `sizeof(inet_dev_cfg_t)`
abbrev pub sizeof_inet_dev_cfg : ℕ
sizeof_inet_dev_cfg = 56

-- `domain_cfg[domain]`: the sizes of a configuration and of an address. The table has one row, for
-- `AF_INET`; a read behind it is a fault.
unfoldable pub domain_cfg : ℕ → Cmd (ℕ × ℕ)
domain_cfg domain =
    if domain == 0 then pure (sizeof_inet_dev_cfg, sizeof_sock_addr_inet) else λ _. fault

-- `netdev_init`
unfoldable pub netdev_init : Cmd Ret
netdev_init = do
  r ← register (some (record { has_open = true; has_close = true }))
  elim r [
    | fail ↦ pure fail
    | ret id ↦ (do
      w ← get
      put (record w { netfs_id = id })
      root ← node_create 0 (codes "socket") 6 ft_dir 0 id
      w ← get
      put (record w { net_root = root })
      pure (if root == 0 then fail else ret 0))
  ]

-- The configuration of a device that `netdev_register` clears.
abbrev pub no_cfg : InetDevCfg → InetDevCfg
no_cfg c = record c {
  ssid = [];
  hostname = [];
  dhcp = false;
  ip = 0;
  gw = 0;
  netmask = 0;
  password = [];
}

-- `netdev_register`: the device, or null. `zeroed` is the configuration of zeros; its enumerators are
-- not among those that the header names.
unfoldable pub netdev_register : InetDevCfg → ℕ → ℕ → Ptr → Cmd Ptr
unfolding domain_cfg
netdev_register zeroed ops domain data' = do
  _ ← domain_cfg domain
  dev ← malloc
  if dev == 0 then pure 0 else (do
    w ← get
    put (record w {
      devs =
          update w.devs dev
            (some (record { domain = domain; ops = ops; data' = data'; cfg = no_cfg zeroed }));
      dev_lst = w.dev_lst ++ dev ∷ [];
    })
    pure dev)

-- `netdev_release`
unfoldable pub netdev_release : Ptr → Cmd Ret
netdev_release dev = do
  w ← get
  put (record w { dev_lst = list_rm dev w.dev_lst; devs = update w.devs dev none })
  pure (ret 0)

abbrev pub rx_size : ℕ
rx_size = 32

-- `netdev_sock_alloc`. The memory that it leaves as it is, the address among it, is `junk`. If there
-- is no memory for the ring's bytes, the ring is over none.
unfoldable pub netdev_sock_alloc : SockAddr → SockType → Cmd Ptr
netdev_sock_alloc junk ty = do
  sock ← malloc
  if sock == 0 then (λ _. fault) else elim ty [
    | stream ↦ (do
      rx ← malloc
      let buf = if rx == 0 then [] else replicate rx_size 0
      store_sock sock (record {
        dev = 0;
        ring = Ringbuf.init buf rx_size;
        dgrams = [];
        clients = [];
        ty = stream;
        addr = junk;
      })
      pure sock)
    | dgram ↦ (do
      store_sock sock (record {
        dev = 0;
        ring = record { rd = 0; wr = 0; size = 0; buf = [] };
        dgrams = [];
        clients = [];
        ty = dgram;
        addr = junk;
      })
      pure sock)
  ]

-- `netdev_sock_free`
unfoldable pub netdev_sock_free : Ptr → Cmd (Unit {0})
netdev_sock_free sock = do
  _ ← load_sock sock
  w ← get
  put (record w { socks = update w.socks sock none })

-- `list_find(net_root->childs, data, sock)`
unfoldable pub find_by_data : Ptr → List Ptr → Cmd Ptr
find_by_data sock [] = pure 0
find_by_data sock (c ∷ cs) = do
  n ← load_node c
  if n.data' == sock then pure c else find_by_data sock cs

-- `netdev_sock_disconnect`
unfoldable pub netdev_sock_disconnect : Ptr → Cmd (Unit {0})
unfolding find_by_data
netdev_sock_disconnect sock = do
  w ← get
  root ← load_node w.net_root
  node ← find_by_data sock root.childs
  if node == 0 then pure tt else (do n ← load_node node; store_node node (record n { data' = 0 }))

-- The loop of `assign_netdev` over `dev_lst`: the first device of the domain that matches.
unfoldable pub find_dev : SockAddr → ℕ → List Ptr → Cmd Ptr
find_dev addr addr_len [] = pure 0
find_dev addr addr_len (dev ∷ devs) = do
  d ← load_dev dev
  if d.domain == addr.domain
      then (do
        _ ← domain_cfg addr.domain
        if inet_match_addr d.cfg addr.inet addr_len then pure dev else find_dev addr addr_len devs)
      else find_dev addr addr_len devs

-- `assign_netdev`
unfoldable pub assign_netdev : Ptr → SockAddr → ℕ → Cmd Ret
unfolding find_dev domain_cfg
assign_netdev sock addr addr_len = do
  s ← load_sock sock
  (_, len) ← domain_cfg s.addr.domain
  if addr_len == len
      then (do
        w ← get
        dev ← find_dev addr addr_len w.dev_lst
        if dev == 0
            then pure fail
            else (do store_sock sock (record s { dev = dev; addr = addr }); pure (ret 0)))
      else pure fail
