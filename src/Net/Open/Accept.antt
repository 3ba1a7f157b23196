-- ===== src/Net/Open/Accept.antt =====
-- `bos_accept` of net/netdev.c with a connection that waits.
use esp_hostdriver.Prelude.{
  ℕ, suc, ◌+◌, ◌^◌, ◌<◌, ◌≡◌, ◌≢◌, refl, sym, true, some, none, List, ◌∷◌, ==_ne, ==_self,
}
use esp_hostdriver.Host.{
  Ptr, stream, Socket, World, pure, and_then, update, load_node, load_sock, store_sock, Ends, ends,
}
use esp_hostdriver.Host.Ret.{ret}
use esp_hostdriver.Bos.{find_fd, fd_acquire}
use esp_hostdriver.Bos.Descriptors.{IsFds}
use esp_hostdriver.Net.Device.{domain_cfg}
use esp_hostdriver.Net.Calls.{sock_of, open_sock, bos_accept}
use esp_hostdriver.Net.Recv.{IsSock}
use esp_hostdriver.Net.Open.{IsSetUp, with_fd, open_sock_lem, with_fd-IsNew}

-- A listening socket with the connections that wait.
abbrev pub server_sock : Socket → List Ptr → Socket
server_sock s clients = record s { ty = stream; clients = clients }

module _ (w : World) (fd_id : ℕ) (sock cl : Ptr) (s c : Socket) (rest : List Ptr)
    (i : IsSock w fd_id sock (server_sock s (cl ∷ rest))) (client_at : w.socks cl ≡ some c)
    (some_client : cl ≢ 0) (other : cl ≢ sock) (some_dev : s.dev ≢ 0)
    (inet : c.addr.domain ≡ 0) where
  -- The state before the node is made.
  taken : World
  taken = record w {
    socks =
        update (update w.socks cl (some (record c { dev = s.dev }))) sock
          (some (server_sock s rest));
  }

  bos_accept-open_sock :
      bos_accept fd_id true w
      ≡ and_then (open_sock (fd_id + 1) cl taken) (λ r. pure (r, some c.addr))
  unfolding bos_accept fd_acquire sock_of load_node load_sock store_sock domain_cfg taken
  bos_accept-open_sock = rw i.fd_at (
      rw i.node_at (
        rw i.sock_at (
          rw (==_ne s.dev 0 some_dev, ==_ne cl 0 some_client)
            (rw client_at (rw inet (rw (==_ne cl sock other, i.sock_at) (rw (==_self cl) refl)))))))

  taken-IsSetUp : IsSetUp w → IsSetUp taken
  unfolding taken
  taken-IsSetUp u = record {
    root = u.root;
    root_at = u.root_at;
    some_root = u.some_root;
    few_ids = u.few_ids;
    root_old = u.root_old;
    registered = u.registered;
  }

  -- A connection that waits at a listening socket is taken by `bos_accept`, if there is memory for a node
  -- and a descriptor, the id of the listener is less than 10 ^ 7 - 1 and fewer than 2 ^ 31 - 1 ids were
  -- given: it returns an id that no
  -- descriptor had, under which the connection's socket is found from then on, with the device of the
  -- listening socket, and the address of the other side. The connection does not wait any more, those
  -- behind it do, and what the other ids and addresses lead to is what it was, as are devices and drivers.
  pub bos_accept-IsNew :
      (b : ℕ)
      → IsSetUp w
      → w.budget ≡ suc (suc b)
      → fd_id + 1 < 10 ^ 7
      → IsFds w
      → Ends
          (λ got v.
            (got.0 ≡ ret (w.fd_count + 1))
            × (got.1 ≡ some c.addr)
            × (find_fd (w.fd_count + 1) w.fd_lst ≡ none)
            × IsSock v (w.fd_count + 1) cl (record c { dev = s.dev })
            × (v.socks sock ≡ some (server_sock s rest))
            × ((id : ℕ) → id ≢ w.fd_count + 1 → find_fd id v.fd_lst ≡ find_fd id w.fd_lst)
            × ((p : Ptr) → p ≢ cl → p ≢ sock → v.socks p ≡ w.socks p)
            × (v.esps ≡ w.esps)
            × (v.devs ≡ w.devs)
            × IsFds v)
          (bos_accept fd_id true w)
  unfolding with_fd taken
  bos_accept-IsNew b u room few fds =
      let x = taken-IsSetUp u in
      let new =
        with_fd-IsNew taken x (fd_id + 1) cl b room few (record c { dev = s.dev }) fds
          (rw (==_ne sock cl (λ e. other (sym e)), ==_self cl) refl) some_client in
      rw bos_accept-open_sock (
        rw (open_sock_lem taken x (fd_id + 1) cl b room few) (
          ends (
            refl,
            refl,
            new.unused_id,
            new.is_sock,
            rw (==_self sock) refl,
            new.others,
            λ p nc ns. rw (==_ne sock p (λ e. ns (sym e)), ==_ne cl p (λ e. nc (sym e))) refl,
            refl,
            refl,
            new.ids,
          )))
