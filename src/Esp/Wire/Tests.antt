-- ===== src/Esp/Wire/Tests.antt =====
-- Messages that come for the two sockets of the test data.
use esp_hostdriver.Prelude.{
  ℕ, ◌^◌, ◌<◌, ◌≡◌, refl, none, some, [], ◌∷◌, ◌++◌, ◌==◌, if◌then◌else◌, length, take, drop, min,
  arith,
}
use esp_hostdriver.Prelude.Codes.{codes}
use esp_hostdriver.Sys.Ringbuf.{Ringbuf, left}
use esp_hostdriver.Sys.Ringbuf.Inv.{IsValid}
use esp_hostdriver.Sys.Ringbuf.Refine.{contents}
use esp_hostdriver.Host.{World, Ends, ◌>>◌, fault}
use esp_hostdriver.Host.Ret.{ret}
use esp_hostdriver.Bos.{find_fd}
use esp_hostdriver.Net.Transfer.{bos_recv}
use esp_hostdriver.Net.Recv.{IsSock, stream_sock}
use esp_hostdriver.Serial.Line.Ipd.{ipd_line}
use esp_hostdriver.Serial.Reader.{serial_idle}
use esp_hostdriver.Esp.Notice.{esp_client}
use esp_hostdriver.Esp.Wire.{IsLinked, Coming, message-recv_stream, message-dgram_fault}
use esp_hostdriver.Samples.{
  program, no_addr, dgram_socket, stream_socket, free_ring, device, node_of, fd_of,
}

-- Link 1 is the stream socket's and link 2 the datagram socket's; the device sends `abc` on a link.
abbrev linked : ℕ → World
linked link_id =
    record (program (ipd_line link_id 3 0xc0a80401 80 ++ (codes "abc" ++ codes "OK"))) {
      esps = λ p.
          if p == 11
          then some (record { links = 9 ∷ 21 ∷ 20 ∷ 0 ∷ 0 ∷ []; tcp_server = 0 })
          else none;
    }

abc-Coming :
    (link_id : ℕ)
    → link_id < 2 ^ 32
    → Coming (linked link_id) link_id 0xc0a80401 80 (codes "abc") (codes "OK")
abc-Coming link_id small = record {
  at_start = refl;
  bytes = refl;
  link_small = small;
  few = omega arith;
  addr_small = omega arith;
  port_small = omega arith;
}

stream-IsLinked : IsLinked (linked 1) 10 1 21
stream-IsLinked = record {
  device = device;
  state = record { links = 9 ∷ 21 ∷ 20 ∷ 0 ∷ 0 ∷ []; tcp_server = 0 };
  device_at = refl;
  state_at = refl;
  link_at = refl;
}

dgram-IsLinked : IsLinked (linked 2) 10 2 20
dgram-IsLinked = record {
  device = device;
  state = record { links = 9 ∷ 21 ∷ 20 ∷ 0 ∷ 0 ∷ []; tcp_server = 0 };
  device_at = refl;
  state_at = refl;
  link_at = refl;
}

stream-IsSock : IsSock (linked 1) 2 21 stream_socket
unfolding find_fd
stream-IsSock = record {
  fd = fd_of 2 3;
  node = node_of 21;
  fd_at = refl;
  node_at = refl;
  some_sock = omega arith;
  sock_at = refl;
}

free_ring-IsValid : IsValid free_ring
free_ring-IsValid = omega arith

message-recv_stream_example :
    Ends
      (λ r v.
        let unread = contents free_ring ++ take (left free_ring) (codes "abc") in
        (r.result ≡ ret (min 2 (length unread)))
        × (r.bytes ≡ take 2 unread)
        × (ring' : Ringbuf) × IsValid ring'
        × (contents ring' ≡ drop 2 unread)
        × IsSock v 2 21 (stream_sock stream_socket ring')
        × (v.serial.input ≡ codes "OK"))
      ((serial_idle (esp_client 0 no_addr 10) (length (ipd_line 1 3 0xc0a80401 80)) []
          >> bos_recv 2 2)
        (linked 1))
message-recv_stream_example =
    message-recv_stream 0 no_addr 10 [] stream_socket (linked 1) 1 0xc0a80401 80 (codes "abc")
      (codes "OK") free_ring 2 (abc-Coming 1 (omega arith)) stream-IsLinked stream-IsSock
      free_ring-IsValid

message-dgram_fault_example :
    serial_idle (esp_client 0 no_addr 10) (length (ipd_line 2 3 0xc0a80401 80)) [] (linked 2)
    ≡ fault
message-dgram_fault_example =
    message-dgram_fault 0 no_addr 10 [] (linked 2) dgram_socket 2 0xc0a80401 80 (codes "abc")
      (codes "OK") (abc-Coming 2 (omega arith)) dgram-IsLinked refl refl (omega arith)
