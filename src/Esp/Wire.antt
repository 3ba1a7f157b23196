-- ===== src/Esp/Wire.antt =====
-- A message all the way from the serial line to the user: esp01/serial.c reads it, the callback `recv`
-- of esp01/esp01.c puts it into the stream socket of its link, and `bos_recv` of net/netdev.c returns it;
-- and what becomes of one for a datagram socket.
mod Tests
use esp_hostdriver.Prelude.{
  ℕ, zero, suc, ◌+◌, ◌-◌, ◌^◌, ◌≤◌, ◌<◌, ◌≡◌, refl, ap, ap₂, sym, ◌∙◌, none, some, List, [], ◌∷◌,
  ◌++◌, arith, length, take, drop, get_elem?, min, true, inl, inr, Bool-cases, leb, take-length,
}
use esp_hostdriver.Sys.Ringbuf
use esp_hostdriver.Sys.Ringbuf.{Ringbuf, left}
use esp_hostdriver.Sys.Ringbuf.Inv.{IsValid}
use esp_hostdriver.Sys.Ringbuf.Refine.{contents}
use esp_hostdriver.Sys.Ringbuf.Queue.{read-take-drop, write-append}
use esp_hostdriver.Host.{
  Ptr, SockAddr, Socket, Netdev, Esp, World, done, Cmd, and_then, pure, ◌>>=◌, ◌>>◌, load_dev,
  load_esp, Ends, ends, load_sock, store_sock, load_node, malloc, dgram, fault,
}
use esp_hostdriver.Host.Ret.{ret}
use esp_hostdriver.Net.Transfer.{bos_recv, bos_recvfrom, dgram_count, consume}
use esp_hostdriver.Net.Recv.{
  IsSock, with_sock, dgram_sock, stream_sock, recv-stream, recvfrom-dgram, IsSock-with_sock,
  dgram_count-min,
}
use esp_hostdriver.Net.Deliver.{deliver-stream, deliver-dgram, fresh_dgram}
use esp_hostdriver.Serial.Line.Ipd.{ipd_line}
use esp_hostdriver.Serial.Reader.{serial_idle}
use esp_hostdriver.Serial.Reply.{reading}
use esp_hostdriver.Serial.Message.{head, remote, serial_idle-message_only}
use esp_hostdriver.Esp.Notice.{link_of, deliver, esp_recv, esp_client}

-- The device's link `link_id` is taken by the socket `sock`.
pub record IsLinked (w : World) (dev : Ptr) (link_id : ℕ) (sock : Ptr) : Type 0 where
  pub device : Netdev
  pub state : Esp
  pub device_at : w.devs dev ≡ some device
  pub state_at : w.esps device.data' ≡ some state
  pub link_at : get_elem? state.links link_id ≡ some sock

esp_recv-deliver :
    (idx : ℕ) {w : World} {dev : Ptr} (link_id : ℕ) {sock : Ptr} (payload : List ℕ)
    (from : SockAddr)
    → IsLinked w dev link_id sock
    → esp_recv idx dev link_id payload from w ≡ deliver idx sock payload from w
unfolding esp_recv load_dev load_esp link_of
esp_recv-deliver idx link_id payload from l = rw l.device_at (rw l.state_at (rw l.link_at refl))

-- The line is read by another part of the program.
IsSock-reading :
    {w : World} {fd_id : ℕ} {sock : Ptr} {s : Socket} (line input : List ℕ)
    → IsSock w fd_id sock s
    → IsSock (reading w line input) fd_id sock s
IsSock-reading line input i = record {
  fd = i.fd;
  node = i.node;
  fd_at = i.fd_at;
  node_at = i.node_at;
  some_sock = i.some_sock;
  sock_at = i.sock_at;
}

IsLinked-reading :
    {w : World} {dev : Ptr} {link_id : ℕ} {sock : Ptr} (line input : List ℕ)
    → IsLinked w dev link_id sock
    → IsLinked (reading w line input) dev link_id sock
IsLinked-reading line input l = record {
  device = l.device;
  state = l.state;
  device_at = l.device_at;
  state_at = l.state_at;
  link_at = l.link_at;
}

-- A message in the bytes to come, at the start of a line.
pub record Coming (w : World) (link_id addr port : ℕ) (payload input : List ℕ) : Type 0 where
  pub at_start : w.serial.line ≡ []
  pub bytes : w.serial.input ≡ ipd_line link_id (length payload) addr port ++ (payload ++ input)
  pub link_small : link_id < 2 ^ 32
  pub few : length payload < 2 ^ 31
  pub addr_small : addr < 2 ^ 32
  pub port_small : port < 2 ^ 16

module _ (idx : ℕ) (junk : SockAddr) (dev : Ptr) (before : List ℕ) where
  -- The reader takes a message and puts it into the socket.
  serial_idle-deliver :
      (w : World) (link_id addr port : ℕ) (payload input : List ℕ) {sock : Ptr}
      → Coming w link_id addr port payload input
      → IsLinked w dev link_id sock
      → serial_idle
          (esp_client idx junk dev)
          (length (ipd_line link_id (length payload) addr port))
          before
          w
        ≡ and_then
            (deliver idx sock payload
              (remote addr port)
              (reading w (head link_id (length payload) addr port) input))
            (λ _ v. done tt (reading v [] v.serial.input))
  serial_idle-deliver w link_id addr port payload input c l =
      let n = length (ipd_line link_id (length payload) addr port) in
      let start = head link_id (length payload) addr port in
      let client = esp_client idx junk dev in
      ap (serial_idle client n before) (ap₂ (λ l i. reading w l i) c.at_start c.bytes)
      ∙ (serial_idle-message_only client before link_id addr port payload c.link_small c.few
            c.addr_small c.port_small w input
          ∙ ap (λ r. and_then r (λ _ v. done tt (reading v [] v.serial.input)))
              (esp_recv-deliver idx link_id payload (remote addr port)
                (IsLinked-reading start input l)))

  module _ {fd_id : ℕ} {sock : Ptr} (s : Socket) where
    -- A message that comes on the line for a connection goes behind the bytes that are unread in the
    -- socket of its link, as far as there is room for it; `bos_recv` returns the first of these bytes,
    -- `len` of them or all, and leaves the others. The line is read up to the end of the message.
    pub message-recv_stream :
        (w : World) (link_id addr port : ℕ) (payload input : List ℕ) (ring : Ringbuf) (len : ℕ)
        → Coming w link_id addr port payload input
        → IsLinked w dev link_id sock
        → IsSock w fd_id sock (stream_sock s ring)
        → IsValid ring
        → Ends
            (λ r v.
              let unread = contents ring ++ take (left ring) payload in
              (r.result ≡ ret (min len (length unread)))
              × (r.bytes ≡ take len unread)
              × (ring' : Ringbuf) × IsValid ring'
              × (contents ring' ≡ drop len unread)
              × IsSock v fd_id sock (stream_sock s ring')
              × (v.serial.input ≡ input))
            ((serial_idle
                  (esp_client idx junk dev)
                  (length (ipd_line link_id (length payload) addr port))
                  before
                >> bos_recv fd_id len)
              w)
    message-recv_stream w link_id addr port payload input ring len c l i valid =
        let start = head link_id (length payload) addr port in
        let ring1 = (Ringbuf.write ring payload).1 in
        let ring2 = (Ringbuf.read ring1 len).2 in
        let put = write-append payload valid in
        let got = read-take-drop len put.2 in
        let i0 = IsSock-reading start input i in
        let i1 = IsSock-reading [] input (IsSock-with_sock s (stream_sock s ring1) i0) in
        rw (serial_idle-deliver w link_id addr port payload input c l) (
          rw (deliver-stream s idx ring payload (remote addr port) i0) (
            rw (recv-stream s len ring1 i1) (
              ends (
                ap ret (got.0 ∙ ap (λ l. min len (length l)) put.1),
                got.1 ∙ ap (take len) put.1,
                ring2,
                got.4,
                got.2 ∙ ap (drop len) put.1,
                IsSock-with_sock s (stream_sock s ring2) i1,
                refl,
              ))))

module _ (idx : ℕ) (junk : SockAddr) (dev : Ptr) (before : List ℕ) {sock : Ptr} where
  -- A message of at least a byte that comes on the line for a datagram socket is undefined behaviour:
  -- the callback `recv` writes its bytes behind the memory that it asked for, or, without any, through
  -- the null pointer.
  pub message-dgram_fault :
      (w : World) (s : Socket) (link_id addr port : ℕ) (payload input : List ℕ)
      → Coming w link_id addr port payload input
      → IsLinked w dev link_id sock
      → w.socks sock ≡ some s
      → s.ty ≡ dgram
      → 0 < length payload
      → serial_idle
          (esp_client idx junk dev)
          (length (ipd_line link_id (length payload) addr port))
          before
          w
        ≡ fault
  message-dgram_fault w s link_id addr port payload input c l there kind some_byte =
      rw (serial_idle-deliver idx junk dev before w link_id addr port payload input c l) (
        rw
          (deliver-dgram (reading w (head link_id (length payload) addr port) input) idx sock
            payload (remote addr port) there kind some_byte)
          refl)
