-- ===== src/Net/Open.antt =====
-- `bos_socket` of net/netdev.c as a whole: the node and the descriptor of a new socket.
pub mod Fresh
pub mod Accept
mod Tests
use Prim.Native.Nat.{bit_and, bit_or}
use esp_hostdriver.Prelude.{
  ℕ, zero, suc, ◌+◌, ◌-◌, ◌%◌, ◌^◌, ◌≤◌, ◌<◌, ◌≡◌, ◌≢◌, refl, Bool, true, false, some, none, List,
  [], ◌∷◌, ◌++◌, arith, length, ltb, take, take-length, ==_ne, ==_self, ◌==◌, if◌then◌else◌, not,
  leb,
}
use esp_hostdriver.Libc.Decimal.{ten, print_d, length-print_d-le}
use esp_hostdriver.Host.{
  Ptr, ft_reg, FsNode, Filed, Socket, World, Run, done, Cmd, and_then, pure, ◌>>=◌, ◌>>◌, expect,
  malloc, load_node, store_node, update,
}
use esp_hostdriver.Host.Ret.{Ret, ret}
use esp_hostdriver.Bos.{
  o_rdwr, fmode_default, has_fs, add_child, node_create_plain, node_create, fd_alloc,
}
use esp_hostdriver.Bos.{find_fd}
use esp_hostdriver.Bos.Descriptors.{IsFds, find_fd_above, find_fd-new, find_fd-snoc, Ascending-snoc}
use esp_hostdriver.Net.Recv.{IsSock}
use esp_hostdriver.Net.Itoa.{itoa}
use esp_hostdriver.Net.Itoa.Print.{itoa-print_d}
use esp_hostdriver.Net.Calls.{sock_name, open_sock}

-- The socket layer is set up: its file system is registered, and its root is there, below what `malloc`
-- will return.
pub record IsSetUp (w : World) : Type 0 where
  pub root : FsNode
  pub root_at : w.nodes w.net_root ≡ some root
  pub some_root : w.net_root ≢ 0
  pub root_old : w.net_root < w.fresh
  pub few_ids : w.fd_count < 2 ^ 31 - 1
  pub registered : has_fs w.netfs_id w.fs_lst ≡ true

-- The node of a socket.
abbrev pub sock_node : World → ℕ → Ptr → ℕ → FsNode
sock_node w number sock refs = record {
  fs_id = w.netfs_id;
  data' = sock;
  ref_cnt = refs;
  ty = ft_reg;
  childs = [];
  parent = w.net_root;
  name = take (length (print_d number)) (print_d number);
}

module _ (w : World) (u : IsSetUp w) (number : ℕ) (sock : Ptr) (b : ℕ)
    (room : w.budget ≡ suc (suc b)) (few : number < 10 ^ 7) where
  name_short : length (print_d number) ≤ 7
  name_short = length-print_d-le 6 number (omega arith)

  sock_name_lem : sock_name number w ≡ done (print_d number) w
  unfolding sock_name
  sock_name_lem =
      let short : ltb (length (print_d number)) 8 ≡ true = ground (arith, name_short) in
      let pos : 0 < 8 = omega arith in
      let printed : ltb number (ten 8) ≡ true = ground arith in
      rw (sock_name, itoa-print_d number 8 pos, printed) (rw short refl)

  with_node : World
  with_node = record w {
    fresh = w.fresh + 1;
    budget = suc b;
    nodes =
        update (update w.nodes w.fresh (some (sock_node w number sock 0))) w.net_root
          (some (record u.root { childs = u.root.childs ++ w.fresh ∷ [] }));
  }

  node_create_lem :
      node_create w.net_root (print_d number) (length (print_d number)) ft_reg sock w.netfs_id w
      ≡ done w.fresh with_node
  unfolding node_create node_create_plain malloc store_node load_node add_child with_node
  node_create_lem =
      let fits : ltb 32 (length (print_d number) + 1) ≡ false = ground (arith, name_short) in
      let old = u.root_old in
      rw (fits, u.registered, room)
        (rw (==_ne w.fresh 0 (omega arith), ==_ne w.net_root 0 u.some_root)
          (rw (==_ne w.fresh w.net_root (omega arith), u.root_at) refl))

  -- The descriptor.
  pub new_fd : Filed
  new_fd = record {
    id = w.fd_count + 1;
    fp = 0;
    node = w.fresh;
    mode = bit_or (o_rdwr - bit_and o_rdwr 0) (bit_and fmode_default 0);
    mode_mask = 0;
  }

  pub with_fd : World
  with_fd = record w {
    fresh = w.fresh + 1 + 1;
    budget = b;
    fd_count = w.fd_count + 1;
    fd_lst = w.fd_lst ++ new_fd ∷ [];
    nodes = update with_node.nodes w.fresh (some (sock_node w number sock 1));
  }

  fd_alloc_lem : fd_alloc w.fresh o_rdwr 0 with_node ≡ done (some new_fd) with_fd
  unfolding fd_alloc malloc load_node store_node with_node with_fd new_fd
  fd_alloc_lem =
      let old = u.root_old in
      let few_made = u.few_ids in
      let in_range : leb (2 ^ 31 - 1) w.fd_count ≡ false = ground arith in
      rw (in_range, ==_ne (w.fresh + 1) 0 (omega arith))
        (rw (==_ne w.net_root w.fresh (omega arith), ==_self w.fresh) refl)

  pub open_sock_lem : open_sock number sock w ≡ done (ret (w.fd_count + 1)) with_fd
  unfolding open_sock new_fd
  open_sock_lem = rw sock_name_lem (rw node_create_lem (rw fd_alloc_lem refl))

  -- The new descriptor is of the socket, and the others are what they were.
  pub record IsNew (s : Socket) (v : World) : Type 0 where
    pub unused_id : find_fd (w.fd_count + 1) w.fd_lst ≡ none
    pub is_sock : IsSock v (w.fd_count + 1) sock s
    pub others : (id : ℕ) → id ≢ w.fd_count + 1 → find_fd id v.fd_lst ≡ find_fd id w.fd_lst
    pub ids : IsFds v

  pub with_fd-IsNew : (s : Socket) → IsFds w → w.socks sock ≡ some s → sock ≢ 0 → IsNew s with_fd
  unfolding with_fd new_fd
  with_fd-IsNew s fds there some_sock = record {
    unused_id = find_fd_above w.fd_count 0 w.fd_lst fds;
    is_sock = record {
      fd = new_fd;
      node = sock_node w number sock 1;
      fd_at = find_fd-new w.fd_count 0 w.fd_lst new_fd fds refl;
      node_at = rw (==_self w.fresh) refl;
      some_sock = some_sock;
      sock_at = there;
    };
    others = λ id ne. find_fd-snoc id w.fd_lst new_fd ne;
    ids = Ascending-snoc w.fd_count 0 w.fd_lst new_fd fds refl;
  }
