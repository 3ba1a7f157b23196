-- ===== src/Net/Open/Tests.antt =====
-- A socket that is made, and a connection that is taken, at the test data with a root node.
use esp_hostdriver.Prelude.{
  ℕ, ◌≡◌, ◌≢◌, refl, true, none, some, [], ◌∷◌, ◌==◌, if◌then◌else◌, arith,
}
use esp_hostdriver.Host.{Ptr, stream, Socket, World, Ends}
use esp_hostdriver.Host.Ret.{ret}
use esp_hostdriver.Bos.{find_fd, has_fs}
use esp_hostdriver.Bos.Descriptors.{IsFds}
use esp_hostdriver.Net.Calls.{bos_socket, bos_accept}
use esp_hostdriver.Net.Recv.{IsSock}
use esp_hostdriver.Net.Open.{IsSetUp}
use esp_hostdriver.Net.Open.Fresh.{new_socket, inet_addr_of, bos_socket-IsNew}
use esp_hostdriver.Net.Open.Accept.{server_sock, bos_accept-IsNew}
use esp_hostdriver.Samples.{
  rooted, root_node, no_addr, server_addr, stream_socket, node_of, fd_of, free_ring,
}

-- A connection, of which the socket at 22 is.
abbrev connection : Socket
connection = record {
  dev = 0;
  ring = free_ring;
  dgrams = [];
  clients = [];
  ty = stream;
  addr = server_addr;
}

abbrev waiting : World
waiting = record rooted {
  socks = λ p.
      if p == 21
      then some (server_sock stream_socket (22 ∷ []))
      else if p == 22
      then some connection
      else none;
}

waiting-IsSetUp : IsSetUp waiting
unfolding has_fs
waiting-IsSetUp = record {
  root = root_node;
  root_at = refl;
  some_root = omega arith;
  few_ids = omega arith;
  root_old = omega arith;
  registered = refl;
}

server-IsSock : IsSock waiting 2 21 (server_sock stream_socket (22 ∷ []))
unfolding find_fd
server-IsSock = record {
  fd = fd_of 2 3;
  node = node_of 21;
  fd_at = refl;
  node_at = refl;
  some_sock = omega arith;
  sock_at = refl;
}

waiting-IsFds : IsFds waiting
waiting-IsFds = (omega arith, (omega arith, omega arith))

bos_socket-IsNew_example :
    Ends
      (λ r v.
        (r ≡ ret 3)
        × (find_fd 3 waiting.fd_lst ≡ none)
        × IsSock v 3 100 (new_socket (inet_addr_of no_addr) stream)
        × ((id : ℕ) → id ≢ 3 → find_fd id v.fd_lst ≡ find_fd id waiting.fd_lst)
        × ((p : Ptr) → p ≢ 100 → v.socks p ≡ waiting.socks p)
        × ((p : Ptr) (t : Socket) → waiting.socks p ≡ some t → v.socks p ≡ some t)
        × IsFds v)
      (bos_socket no_addr 0 stream waiting)
bos_socket-IsNew_example =
    bos_socket-IsNew waiting no_addr 1 refl (omega arith) stream waiting-IsSetUp (omega arith)
      waiting-IsFds refl

bos_accept-IsNew_example :
    Ends
      (λ got v.
        (got.0 ≡ ret 3)
        × (got.1 ≡ some server_addr)
        × (find_fd 3 waiting.fd_lst ≡ none)
        × IsSock v 3 22 (record connection { dev = 10 })
        × (v.socks 21 ≡ some (server_sock stream_socket []))
        × ((id : ℕ) → id ≢ 3 → find_fd id v.fd_lst ≡ find_fd id waiting.fd_lst)
        × ((p : Ptr) → p ≢ 22 → p ≢ 21 → v.socks p ≡ waiting.socks p)
        × (v.esps ≡ waiting.esps)
        × (v.devs ≡ waiting.devs)
        × IsFds v)
      (bos_accept 2 true waiting)
bos_accept-IsNew_example =
    bos_accept-IsNew waiting 2 21 22 stream_socket connection [] server-IsSock refl (omega arith)
      (omega arith) (omega arith) refl 3 waiting-IsSetUp refl (omega arith) waiting-IsFds
