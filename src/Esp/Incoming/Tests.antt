-- ===== src/Esp/Incoming/Tests.antt =====
-- A connection at link 1 of the device of the test data, whose server is the stream socket.
use esp_hostdriver.Prelude.{◌≡◌, refl, true, none, some, [], ◌∷◌, ◌==◌, if◌then◌else◌, arith}
use esp_hostdriver.Host.{stream, Esp, World, Ends, ◌>>◌}
use esp_hostdriver.Host.Ret.{ret}
use esp_hostdriver.Bos.{find_fd, has_fs}
use esp_hostdriver.Bos.Descriptors.{IsFds}
use esp_hostdriver.Net.Calls.{bos_accept}
use esp_hostdriver.Net.Recv.{IsSock}
use esp_hostdriver.Net.Open.{IsSetUp}
use esp_hostdriver.Net.Open.Fresh.{new_socket}
use esp_hostdriver.Net.Open.Accept.{server_sock}
use esp_hostdriver.Esp.Notice.{esp_accept}
use esp_hostdriver.Esp.Wire.{IsLinked}
use esp_hostdriver.Esp.Incoming.{IsListening, esp_accept-bos_accept}
use esp_hostdriver.Samples.{
  rooted, root_node, no_addr, server_addr, stream_socket, device, node_of, fd_of,
}

abbrev listening_state : Esp
listening_state = record { links = 9 ∷ 0 ∷ 0 ∷ 0 ∷ 0 ∷ []; tcp_server = 21 }

abbrev listening : World
listening = record rooted { esps = λ p. if p == 11 then some listening_state else none }

listening-IsListening : IsListening listening 10 21 1
listening-IsListening = record {
  device = device;
  state = listening_state;
  link = 0;
  device_at = refl;
  state_at = refl;
  server_is = refl;
  link_there = refl;
}

listening-IsSetUp : IsSetUp listening
unfolding has_fs
listening-IsSetUp = record {
  root = root_node;
  root_at = refl;
  some_root = omega arith;
  few_ids = omega arith;
  root_old = omega arith;
  registered = refl;
}

server-IsSock : IsSock listening 2 21 (server_sock stream_socket [])
unfolding find_fd
server-IsSock = record {
  fd = fd_of 2 3;
  node = node_of 21;
  fd_at = refl;
  node_at = refl;
  some_sock = omega arith;
  sock_at = refl;
}

listening-IsFds : IsFds listening
listening-IsFds = (omega arith, (omega arith, omega arith))

esp_accept-bos_accept_example :
    Ends
      (λ got v.
        (got.0 ≡ ret 3)
        × (got.1 ≡ some server_addr)
        × (find_fd 3 listening.fd_lst ≡ none)
        × IsSock v 3 100 (record (new_socket server_addr stream) { dev = 10 })
        × (v.socks 21 ≡ some (server_sock stream_socket []))
        × IsLinked v 10 1 100)
      ((esp_accept no_addr 10 1 server_addr >> bos_accept 2 true) listening)
esp_accept-bos_accept_example =
    esp_accept-bos_accept stream_socket no_addr server_addr 1 listening-IsListening server-IsSock
      (omega arith) refl (omega arith) listening-IsSetUp listening-IsFds refl (omega arith)
