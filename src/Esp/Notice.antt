-- ===== src/Esp/Notice.antt =====
-- The callbacks of esp01/esp01.c that the reader thread calls.
use esp_hostdriver.Prelude.{ℕ, List, [], ◌∷◌, ◌++◌, ◌==◌, if◌then◌else◌, get_elem?, set}
use esp_hostdriver.Sys.Ringbuf
use esp_hostdriver.Host.{
  Ptr, SockAddr, stream, dgram, Esp, Cmd, pure, fault, ◌>>=◌, ◌>>◌, expect, malloc, load_sock,
  store_sock, load_dev, load_esp, store_esp,
}
use esp_hostdriver.Net.Device.{netdev_sock_alloc, netdev_sock_disconnect}
use esp_hostdriver.Serial.Reader.{SerialClient}

-- `esp->links[link_id]`; a number that is no index is a fault.
unfoldable pub link_of : Esp → ℕ → Cmd Ptr
link_of esp link_id = expect (get_elem? esp.links link_id)

-- The end of `recv`: the message goes to the socket. `idx` is what `malloc` left in the datagram's
-- member of that name, which is not set. The step `&dgram->addr + sizeof(sock_addr_inet_t)` is one of
-- that many `sock_addr_t`, so the bytes of a datagram go to a place behind the memory that was asked
-- for, which is a fault unless there are none.
unfoldable pub deliver : ℕ → Ptr → List ℕ → SockAddr → Cmd (Unit {0})
deliver idx sock payload remote = do
  s ← load_sock sock
  elim s.ty [
    | dgram ↦ (do
      p ← malloc
      if p == 0 then (λ _. fault) else elim payload [
        | [] ↦ store_sock sock (record s {
          dgrams = s.dgrams ++ record { idx = idx; payload = []; addr = remote } ∷ [];
        })
        | b ∷ bs ↦ λ _. fault
      ])
    | stream ↦ store_sock sock (record s { ring = (Ringbuf.write s.ring payload).1 })
  ]

-- `recv`
unfoldable pub esp_recv : ℕ → Ptr → ℕ → List ℕ → SockAddr → Cmd (Unit {0})
unfolding link_of deliver
esp_recv idx dev link_id payload remote = do
  d ← load_dev dev
  esp ← load_esp d.data'
  sock ← link_of esp link_id
  deliver idx sock payload remote

-- `accept`. `junk` is what `malloc` left in the socket's address.
unfoldable pub esp_accept : SockAddr → Ptr → ℕ → SockAddr → Cmd (Unit {0})
unfolding link_of
esp_accept junk dev link_id remote = do
  d ← load_dev dev
  esp ← load_esp d.data'
  if esp.tcp_server == 0 then pure tt else (do
    sock ← netdev_sock_alloc junk stream
    s ← load_sock sock
    store_sock sock (record s { addr = remote })
    _ ← link_of esp link_id
    store_esp d.data' (record esp { links = set esp.links link_id sock })
    server ← load_sock esp.tcp_server
    store_sock esp.tcp_server (record server { clients = server.clients ++ sock ∷ [] }))

-- `closed`
unfoldable pub esp_closed : Ptr → ℕ → Cmd (Unit {0})
unfolding link_of
esp_closed dev link_id = do
  d ← load_dev dev
  esp ← load_esp d.data'
  sock ← link_of esp link_id
  store_esp d.data' (record esp { links = set esp.links link_id 0 })
  netdev_sock_disconnect sock

-- The callbacks that `esp01_init` hands to the serial line.
abbrev pub esp_client : ℕ → SockAddr → Ptr → SerialClient
esp_client idx junk dev = record {
  on_recv = esp_recv idx dev;
  on_accept = esp_accept junk dev;
  on_closed = esp_closed dev;
}
