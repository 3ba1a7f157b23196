-- ===== src/Esp/Incoming.antt =====
-- A connection that the device accepted: the callback `accept` of esp01/esp01.c makes its socket, and
-- `bos_accept` of net/netdev.c takes it.
mod Tests
use esp_hostdriver.Prelude.{
  ℕ, zero, suc, ◌+◌, ◌^◌, ◌<◌, ◌≡◌, ◌≢◌, refl, ap, ◌∙◌, true, some, none, List, [], ◌∷◌, ◌++◌,
  arith, set, get_elem?, ◌==◌, ==_ne, ==_self, if◌then◌else◌,
}
use esp_hostdriver.Host.{
  Ptr, SockAddr, stream, Socket, Netdev, Esp, World, Run, done, Cmd, pure, ◌>>=◌, ◌>>◌, and_then,
  update, load_dev, load_esp, store_esp, load_sock, store_sock, Ends, mono,
}
use esp_hostdriver.Host.Ret.{Ret, ret}
use esp_hostdriver.Bos.{find_fd}
use esp_hostdriver.Bos.Descriptors.{IsFds}
use esp_hostdriver.Net.Calls.{bos_accept}
use esp_hostdriver.Net.Recv.{IsSock}
use esp_hostdriver.Net.Open.{IsSetUp}
use esp_hostdriver.Net.Open.Fresh.{new_socket, sock_alloc_lem, made, after, spare}
use esp_hostdriver.Net.Open.Accept.{server_sock, bos_accept-IsNew}
use esp_hostdriver.Esp.Notice.{link_of, esp_accept}
use esp_hostdriver.Esp.Wire.{IsLinked}

-- The device's driver has the server `server`, and a link with the number `link_id`.
pub record IsListening (w : World) (dev server : Ptr) (link_id : ℕ) : Type 0 where
  pub device : Netdev
  pub state : Esp
  pub link : Ptr
  pub device_at : w.devs dev ≡ some device
  pub state_at : w.esps device.data' ≡ some state
  pub server_is : state.tcp_server ≡ server
  pub link_there : get_elem? state.links link_id ≡ some link

module _ (w : World) (junk : SockAddr) (dev server : Ptr) (link_id : ℕ) (remote : SockAddr) (b : ℕ)
    (l : IsListening w dev server link_id) (room : w.budget ≡ suc (suc (suc (suc b))))
    (some_server : server ≢ 0) (old : server < w.fresh) (s : Socket) (waiting : List Ptr)
    (server_at : w.socks server ≡ some (server_sock s waiting)) where
  -- The state with the new socket in its link and among those that wait.
  incoming : World
  incoming = record w {
    fresh = w.fresh + 1 + 1;
    budget = suc (suc b);
    socks =
        update
          (update (update w.socks w.fresh (some (new_socket junk stream))) w.fresh
            (some (new_socket remote stream)))
          server (some (server_sock s (waiting ++ w.fresh ∷ [])));
    esps =
        update w.esps l.device.data'
          (some (record l.state { links = set l.state.links link_id w.fresh }));
  }

  esp_accept_lem : esp_accept junk dev link_id remote w ≡ done tt incoming
  unfolding esp_accept load_dev load_esp store_esp load_sock store_sock link_of incoming made after
      spare
  esp_accept_lem = rw l.device_at (
      rw l.state_at (
        rw (l.server_is, ==_ne server 0 some_server)
          (rw (sock_alloc_lem w junk b room (omega arith) stream) (
            rw (==_self w.fresh)
              (rw l.link_there (rw (==_ne w.fresh server (omega arith), server_at) refl))))))

  incoming-IsSock :
      {fd_id : ℕ}
      → IsSock w fd_id server (server_sock s waiting)
      → IsSock incoming fd_id server (server_sock s (waiting ++ w.fresh ∷ []))
  unfolding incoming
  incoming-IsSock i = record {
    fd = i.fd;
    node = i.node;
    fd_at = i.fd_at;
    node_at = i.node_at;
    some_sock = i.some_sock;
    sock_at = rw (==_self server) refl;
  }

  incoming-IsSetUp : IsSetUp w → IsSetUp incoming
  unfolding incoming
  incoming-IsSetUp u = record {
    root = u.root;
    root_at = u.root_at;
    some_root = u.some_root;
    few_ids = u.few_ids;
    root_old = (let before = u.root_old in omega arith);
    registered = u.registered;
  }

get_elem?-set :
    {a : Ptr} (xs : List Ptr) (i : ℕ) (p : Ptr)
    → get_elem? xs i ≡ some a
    → get_elem? (set xs i p) i ≡ some p
get_elem?-set [] i p e = absurd cc
get_elem?-set (x ∷ xs) zero p e = refl
get_elem?-set (x ∷ xs) (suc i) p e = get_elem?-set xs i p e

incoming-IsLinked :
    {w v : World} {dev server : Ptr} {link_id sock : ℕ} (l : IsListening w dev server link_id)
    → v.devs ≡ w.devs
    → v.esps
      ≡ update w.esps l.device.data'
          (some (record l.state { links = set l.state.links link_id sock }))
    → IsLinked v dev link_id sock
incoming-IsLinked {dev = dev} {link_id = link_id} {sock = sock} l devs esps = record {
  device = l.device;
  state = record l.state { links = set l.state.links link_id sock };
  device_at = ap (λ f. f dev) devs ∙ l.device_at;
  state_at = ap (λ f. f l.device.data') esps ∙ rw (==_self l.device.data') refl;
  link_at = get_elem?-set l.state.links link_id sock l.link_there;
}

module _ {w : World} {dev server : Ptr} {link_id : ℕ} (s : Socket) {fd_id : ℕ}
    (junk remote : SockAddr) where
  -- The device's news of a connection to the listening socket of a server, at which none waits, and
  -- `bos_accept`: it returns an id that no descriptor had and the address of the other side, and under the
  -- id is found a new socket with that address and the listener's device. The device's link is the
  -- socket's from then on, and none waits. The socket layer is set up, there is memory for four objects,
  -- the address is of `AF_INET`, the listener's id is less than 10 ^ 7 - 1, and fewer than 2 ^ 31 - 1 ids
  -- were given.
  pub esp_accept-bos_accept :
      (b : ℕ)
      → IsListening w dev server link_id
      → IsSock w fd_id server (server_sock s [])
      → s.dev ≢ 0
      → remote.domain ≡ 0
      → server < w.fresh
      → IsSetUp w
      → IsFds w
      → w.budget ≡ suc (suc (suc (suc b)))
      → fd_id + 1 < 10 ^ 7
      → Ends
          (λ got v.
            (got.0 ≡ ret (w.fd_count + 1))
            × (got.1 ≡ some remote)
            × (find_fd (w.fd_count + 1) w.fd_lst ≡ none)
            × IsSock v (w.fd_count + 1) w.fresh (record (new_socket remote stream) { dev = s.dev })
            × (v.socks server ≡ some (server_sock s []))
            × IsLinked v dev link_id w.fresh)
          ((esp_accept junk dev link_id remote >> bos_accept fd_id true) w)
  unfolding incoming
  esp_accept-bos_accept b l i some_dev inet old u fds room few =
      let v = incoming w junk dev server link_id remote b l room i.some_sock old s [] i.sock_at in
      let client_at : v.socks w.fresh ≡ some (new_socket remote stream) =
        rw (==_ne server w.fresh (omega arith), ==_self w.fresh) refl in
      rw (esp_accept_lem w junk dev server link_id remote b l room i.some_sock old s [] i.sock_at) (
        mono
          (bos_accept-IsNew v fd_id server w.fresh s (new_socket remote stream) []
            (incoming-IsSock w junk dev server link_id remote b l room i.some_sock old s []
              i.sock_at i)
            client_at (omega arith) (omega arith) some_dev inet b
            (incoming-IsSetUp w junk dev server link_id remote b l room i.some_sock old s []
              i.sock_at u)
            refl few fds)
          (λ got x h. (h.0, h.1, h.2, h.3, h.4, incoming-IsLinked l h.8 h.7)))
