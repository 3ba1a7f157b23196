-- ===== src/Net/Open/Fresh.antt =====
-- `bos_socket` of net/netdev.c: what it makes and what it leaves alone.
use esp_hostdriver.Prelude.{
  ℕ, suc, ◌+◌, ◌^◌, ◌<◌, ◌≡◌, ◌≢◌, refl, sym, some, none, [], arith, replicate, ==_ne, ==_self, ap,
}
use esp_hostdriver.Sys.Ringbuf
use esp_hostdriver.Host.{
  Ptr, SockAddr, SockType, stream, dgram, Socket, World, done, update, malloc, load_sock,
  store_sock, Ends, ends,
}
use esp_hostdriver.Host.Ret.{ret}
use esp_hostdriver.Bos.{find_fd}
use esp_hostdriver.Bos.Descriptors.{IsFds}
use esp_hostdriver.Net.Device.{domain_cfg, netdev_sock_alloc, rx_size}
use esp_hostdriver.Net.Calls.{open_sock, bos_socket}
use esp_hostdriver.Net.Recv.{IsSock}
use esp_hostdriver.Net.Open.{IsSetUp, with_fd, open_sock_lem, with_fd-IsNew}

-- A socket of the domain `AF_INET`, without a device.
abbrev pub new_socket : SockAddr → SockType → Socket
new_socket addr stream = record {
  dev = 0;
  ring = Ringbuf.init (replicate rx_size 0) rx_size;
  dgrams = [];
  clients = [];
  ty = stream;
  addr = addr;
}
new_socket addr dgram = record {
  dev = 0;
  ring = record { rd = 0; wr = 0; size = 0; buf = [] };
  dgrams = [];
  clients = [];
  ty = dgram;
  addr = addr;
}

abbrev pub inet_addr_of : SockAddr → SockAddr
inet_addr_of junk = record junk { domain = 0 }

module _ (w : World) (junk : SockAddr) (b : ℕ) (room : w.budget ≡ suc (suc (suc (suc b))))
    (pos : 0 < w.fresh) where
  -- The addresses that are used, and the memory that is left behind the node and the descriptor.
  unfoldable pub after : SockType → Ptr
  after stream = w.fresh + 1 + 1
  after dgram = w.fresh + 1

  unfoldable pub spare : SockType → ℕ
  spare stream = b
  spare dgram = suc b

  unfoldable pub made : SockType → World
  made ty = record w {
    fresh = after ty;
    budget = suc (suc (spare ty));
    socks = update w.socks w.fresh (some (new_socket junk ty));
  }

  pub sock_alloc_lem : (ty : SockType) → netdev_sock_alloc junk ty w ≡ done w.fresh (made ty)
  unfolding netdev_sock_alloc malloc store_sock made after spare
  sock_alloc_lem stream =
      rw room (rw (==_ne w.fresh 0 (omega arith)) (rw (==_ne (w.fresh + 1) 0 (omega arith)) refl))
  sock_alloc_lem dgram = rw room (rw (==_ne w.fresh 0 (omega arith)) refl)

  -- The state before the node is made.
  set_up : SockType → World
  set_up ty = record (made ty) {
    socks = update (made ty).socks w.fresh (some (new_socket (inet_addr_of junk) ty));
    sock_count = w.sock_count + 1;
  }

  bos_socket-open_sock :
      (ty : SockType) → bos_socket junk 0 ty w ≡ open_sock (w.sock_count + 1) w.fresh (set_up ty)
  unfolding bos_socket domain_cfg load_sock store_sock set_up made
  bos_socket-open_sock stream = rw (sock_alloc_lem stream) (rw (==_self w.fresh) refl)
  bos_socket-open_sock dgram = rw (sock_alloc_lem dgram) (rw (==_self w.fresh) refl)

  after_old : (ty : SockType) (p : Ptr) → p < w.fresh → p < after ty
  unfolding after
  after_old stream p h = omega arith
  after_old dgram p h = omega arith

  set_up-IsSetUp : (ty : SockType) → IsSetUp w → IsSetUp (set_up ty)
  unfolding set_up made
  set_up-IsSetUp ty u = record {
    root = u.root;
    root_at = u.root_at;
    some_root = u.some_root;
    few_ids = u.few_ids;
    root_old = after_old ty w.net_root u.root_old;
    registered = u.registered;
  }

  -- In a socket layer that is set up, with memory for four objects, after fewer than 10 ^ 7 - 1 calls
  -- of `bos_socket` and 2 ^ 31 - 1 of `fs_fd_alloc`, `bos_socket` of the domain `AF_INET` returns an id
  -- that no descriptor had, and under it is found a descriptor of a new socket of the type, without a
  -- device, at the address that `malloc` gives, where there was none. What the other ids and addresses
  -- lead to is what it was.
  pub bos_socket-IsNew :
      (ty : SockType)
      → IsSetUp w
      → w.sock_count + 1 < 10 ^ 7
      → IsFds w
      → w.socks w.fresh ≡ none
      → Ends
          (λ r v.
            (r ≡ ret (w.fd_count + 1))
            × (find_fd (w.fd_count + 1) w.fd_lst ≡ none)
            × IsSock v (w.fd_count + 1) w.fresh (new_socket (inet_addr_of junk) ty)
            × ((id : ℕ) → id ≢ w.fd_count + 1 → find_fd id v.fd_lst ≡ find_fd id w.fd_lst)
            × ((p : Ptr) → p ≢ w.fresh → v.socks p ≡ w.socks p)
            × ((p : Ptr) (t : Socket) → w.socks p ≡ some t → v.socks p ≡ some t)
            × IsFds v)
          (bos_socket junk 0 ty w)
  unfolding with_fd set_up made
  bos_socket-IsNew ty u few fds unused =
      let x = set_up-IsSetUp ty u in
      let new =
        with_fd-IsNew (set_up ty) x (w.sock_count + 1) w.fresh (spare ty) refl few
          (new_socket (inet_addr_of junk) ty) fds (rw (==_self w.fresh) refl) (omega arith) in
      rw (bos_socket-open_sock ty) (
        rw (open_sock_lem (set_up ty) x (w.sock_count + 1) w.fresh (spare ty) refl few) (
          ends (
            refl,
            new.unused_id,
            new.is_sock,
            new.others,
            λ p ne. rw (==_ne w.fresh p (λ e. ne (sym e))) refl,
            λ p t there.
                rw
                  (==_ne w.fresh p
                    (λ e. let same : w.socks w.fresh ≡ w.socks p = ap w.socks e in cc))
                  there,
            new.ids,
          )))
