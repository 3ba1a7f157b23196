-- ===== src/Net/Tests.antt =====
-- Theorems on net/netdev.c at the sockets of the test data.
use esp_hostdriver.Prelude.{ℕ, ◌≡◌, refl, arith, none, some, List, [], ◌∷◌, ◌++◌, map}
use esp_hostdriver.Sys.Ringbuf.Inv.{IsValid}
use esp_hostdriver.Host.{SockAddr, Datagram, World, done, pure, ◌>>=◌, Ends}
use esp_hostdriver.Host.Ret.{ret}
use esp_hostdriver.Bos.{find_fd}
use esp_hostdriver.Net.Device.{NetdevOps, assign_netdev}
use esp_hostdriver.Net.Assign.{assign_netdev-first_device}
use esp_hostdriver.Inet.{inet_match_addr}
use esp_hostdriver.Net.Calls.{bos_close}
use esp_hostdriver.Net.Transfer.{bos_recv}
use esp_hostdriver.Net.Recv.{IsSock, with_sock, dgram_sock, recv-recv}
use esp_hostdriver.Net.Deliver.{recv_each, fresh_dgram, recv_each-dgrams}
use esp_hostdriver.Net.Refuse.{bos_close-keeps}
use esp_hostdriver.Samples.{
  device, program, server_addr, dgram_socket, stream_socket, free_ring, fd_of, node_of,
}

-- Byte 5 of this datagram is read already.
abbrev message : Datagram
message = record { idx = 1; payload = 5 ∷ 6 ∷ 7 ∷ 8 ∷ []; addr = server_addr }

abbrev with_message : World
with_message = with_sock (program []) 20 (dgram_sock dgram_socket (message ∷ []))

with_message-IsSock : IsSock with_message 1 20 (dgram_sock dgram_socket (message ∷ []))
unfolding find_fd
with_message-IsSock = record {
  fd = fd_of 1 2;
  node = node_of 20;
  fd_at = refl;
  node_at = refl;
  some_sock = omega arith;
  sock_at = refl;
}

dgram-IsSock : IsSock (program []) 1 20 dgram_socket
unfolding find_fd
dgram-IsSock = record {
  fd = fd_of 1 2;
  node = node_of 20;
  fd_at = refl;
  node_at = refl;
  some_sock = omega arith;
  sock_at = refl;
}

stream-IsSock : IsSock (program []) 2 21 stream_socket
unfolding find_fd
stream-IsSock = record {
  fd = fd_of 2 3;
  node = node_of 21;
  fd_at = refl;
  node_at = refl;
  some_sock = omega arith;
  sock_at = refl;
}

recv-recv_example :
    (bos_recv 1 2 >>= λ a. bos_recv 1 9 >>= λ b. pure (a.bytes ++ b.bytes)) with_message
    ≡ (bos_recv 1 11 >>= λ c. pure c.bytes) with_message
recv-recv_example =
    recv-recv dgram_socket message [] 2 9 with_message-IsSock (omega arith) (omega arith)

abbrev messages : List (List ℕ × SockAddr)
messages = (1 ∷ 2 ∷ [], server_addr) ∷ ([], server_addr) ∷ (3 ∷ [], server_addr) ∷ []

abbrev with_messages : World
with_messages = with_sock (program []) 20 (dgram_sock dgram_socket (map fresh_dgram messages))

with_messages-IsSock :
    IsSock with_messages 1 20 (dgram_sock dgram_socket (map fresh_dgram messages))
unfolding find_fd
with_messages-IsSock = record {
  fd = fd_of 1 2;
  node = node_of 20;
  fd_at = refl;
  node_at = refl;
  some_sock = omega arith;
  sock_at = refl;
}

recv_each-dgrams_example :
    Ends
      (λ got v.
        (got ≡ (1 ∷ 2 ∷ []) ∷ [] ∷ (3 ∷ []) ∷ []) × IsSock v 1 20 (dgram_sock dgram_socket []))
      (recv_each 1 8 3 with_messages)
recv_each-dgrams_example =
    recv_each-dgrams dgram_socket 8 messages
      ((omega arith, omega arith), ((omega arith, omega arith), ((omega arith, omega arith), tt)))
      with_messages-IsSock

free_ring-IsValid : IsValid free_ring
free_ring-IsValid = omega arith

-- A driver whose calls all succeed.
abbrev pliant : ℕ → NetdevOps
pliant n = record {
  configure = none;
  connect = none;
  listen = none;
  close = some (λ p. pure (ret 0));
  send = none;
}

bos_close-keeps_example : bos_close pliant 2 (program []) ≡ done (ret 0) (program [])
unfolding stream-IsSock
bos_close-keeps_example =
    bos_close-keeps pliant stream_socket stream-IsSock (omega arith) refl refl refl refl
      (omega arith)

assign_netdev-first_device_example :
    assign_netdev 20 server_addr 12 (program [])
    ≡ done
        (ret 0)
        (with_sock (program []) 20 (record dgram_socket { dev = 10; addr = server_addr }))
unfolding inet_match_addr
assign_netdev-first_device_example =
    assign_netdev-first_device (program []) server_addr 12 refl 20 dgram_socket ((10, device) ∷ [])
      (refl, tt) refl refl refl
