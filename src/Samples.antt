-- ===== src/Samples.antt =====
-- Test data: a program with one ESP01 device and a few sockets.
use esp_hostdriver.Prelude.{
  ℕ, none, some, List, [], ◌∷◌, ◌==◌, if◌then◌else◌, replicate, false, true,
}
use esp_hostdriver.Inet.{Mode, Enc, InetDevCfg}
use esp_hostdriver.Sys.Ringbuf.{Ringbuf}
use esp_hostdriver.Host.{
  Ptr, ft_dir, ft_reg, FsNode, Filed, SockAddr, stream, dgram, Socket, Netdev, Esp, inval, World,
}

abbrev pub no_addr : SockAddr
no_addr = record { domain = 0; inet = record { addr = 0; port = 0 } }

-- 192.168.4.1, port 80
abbrev pub server_addr : SockAddr
server_addr = record { domain = 0; inet = record { addr = 0xc0a80401; port = 80 } }

abbrev pub device_cfg : InetDevCfg
device_cfg = record {
  ssid = 65 ∷ [];
  password = 66 ∷ [];
  hostname = [];
  dhcp = false;
  mode = Mode.client;
  enc = Enc.wpa2_psk;
  ip = 0xc0a80402;
  gw = 0xc0a80401;
  netmask = 0xffffff00;
}

abbrev pub free_ring : Ringbuf
free_ring = record { rd = 3; wr = 0; size = 4; buf = replicate 4 0 }

-- At 20 a datagram socket without a device, at 21 a stream socket of the device at 10, whose driver's
-- state is at 11. The nodes are the root at 1 and those of the two sockets, with the descriptors 1
-- and 2.
abbrev pub dgram_socket : Socket
dgram_socket = record {
  dev = 0;
  ring = free_ring;
  dgrams = [];
  clients = [];
  ty = dgram;
  addr = no_addr;
}

abbrev pub stream_socket : Socket
stream_socket = record {
  dev = 10;
  ring = free_ring;
  dgrams = [];
  clients = [];
  ty = stream;
  addr = server_addr;
}

abbrev pub driver_state : Esp
driver_state = record { links = 9 ∷ 0 ∷ 0 ∷ 0 ∷ 0 ∷ []; tcp_server = 0 }

abbrev pub device : Netdev
device = record { domain = 0; ops = 1; data' = 11; cfg = device_cfg }

abbrev pub node_of : Ptr → FsNode
node_of sock = record {
  fs_id = 0;
  data' = sock;
  ref_cnt = 1;
  ty = ft_reg;
  childs = [];
  parent = 1;
  name = 49 ∷ [];
}

abbrev pub fd_of : ℕ → Ptr → Filed
fd_of id node = record { id = id; fp = 0; node = node; mode = 12; mode_mask = 0 }

-- The device will still send `input`.
abbrev pub program : List ℕ → World
program input = record {
  fresh = 100;
  budget = 5;
  fs_lst = record { id = 0; ops = record { has_open = true; has_close = true } } ∷ [];
  fd_lst = fd_of 1 2 ∷ fd_of 2 3 ∷ [];
  fd_count = 2;
  nodes = λ p. if p == 2 then some (node_of 20) else if p == 3 then some (node_of 21) else none;
  socks = λ p. if p == 20 then some dgram_socket else if p == 21 then some stream_socket else none;
  devs = λ p. if p == 10 then some device else none;
  dev_lst = 10 ∷ [];
  esps = λ p. if p == 11 then some driver_state else none;
  netfs_id = 0;
  net_root = 1;
  sock_count = 2;
  serial = record {
    response = none;
    cmd_result = inval;
    line = [];
    input = input;
    hangup = false;
    output = [];
  };
}

abbrev pub root_node : FsNode
root_node = record {
  fs_id = 0;
  data' = 0;
  ref_cnt = 0;
  ty = ft_dir;
  childs = 2 ∷ 3 ∷ [];
  parent = 0;
  name = [];
}

-- The program with the root node, too.
abbrev pub rooted : World
rooted = record (program []) {
  nodes = λ p.
      if p == 1
      then some root_node
      else if p == 2
      then some (node_of 20)
      else if p == 3
      then some (node_of 21)
      else none;
}
