-- ===== src/Program.antt =====
-- The library as a whole: the calls of a program over the ESP8266 driver, in any order, with the
-- bytes that the reader thread takes between them.
pub mod Counts
mod Tests
use esp_hostdriver.Prelude.{ℕ, ◌≡◌, Bool, none, some, Option, List, []}
use esp_hostdriver.Inet.{InetDevCfg}
use esp_hostdriver.Host.{
  Ptr, SockAddr, SockType, SerialLine, World, Run, done, Cmd, pure, ◌>>=◌, ◌>>◌,
}
use esp_hostdriver.Bos.{fd_acquire}
use esp_hostdriver.Net.Device.{NetdevOps, netdev_init}
use esp_hostdriver.Net.Calls.{
  bos_socket, bos_net_configure, bos_connect, bos_bind, bos_listen, bos_accept, bos_close,
  netfs_close,
}
use esp_hostdriver.Net.Transfer.{bos_sendto, bos_recvfrom}
use esp_hostdriver.Serial.Reader.{SerialClient, serial_idle}
use esp_hostdriver.Esp.Notice.{esp_client}
use esp_hostdriver.Esp.Driver.{esp_ops}
use esp_hostdriver.Esp.Init.{esp01_init}

-- What the code leaves open: what uninitialised memory holds, and the device of the callbacks.
pub record Setting : Type 0 where
  pub idx : ℕ
  pub junk : SockAddr
  pub zeroed : InetDevCfg
  pub before : List ℕ
  pub dev : Ptr

abbrev pub client_of : Setting → SerialClient
client_of s = esp_client s.idx s.junk s.dev

abbrev pub drivers_of : Setting → ℕ → NetdevOps
drivers_of s number = esp_ops (client_of s) s.before

-- The calls that a program makes, and `idle k`, in which the reader thread takes up to `k` bytes that
-- no command waits for.
pub data Call : Type 0 where
  init : Call
  init_esp : (opened : Bool) (ops : ℕ) → Call
  configure : (cfg : InetDevCfg) (cfg_size : ℕ) → Call
  socket : (domain : ℕ) (ty : SockType) → Call
  connect bind : (fd_id : ℕ) (addr : SockAddr) (addr_len : ℕ) → Call
  listen : (fd_id backlog : ℕ) → Call
  accept : (fd_id : ℕ) (wants_addr : Bool) → Call
  close : (fd_id : ℕ) → Call
  sendto : (fd_id : ℕ) (payload : List ℕ) (len : ℕ) (addr : Option SockAddr) (addr_len : ℕ) → Call
  recvfrom : (fd_id len : ℕ) (wants_addr : Bool) → Call
  close_file : (fd_id : ℕ) → Call
  idle : (k : ℕ) → Call

-- The `close` callback of the socket file system, for the descriptor with an id.
unfoldable pub close_by_id : (ℕ → NetdevOps) → ℕ → Cmd (Unit {0})
close_by_id drivers fd_id = do
  found ← fd_acquire fd_id
  elim found [ none ↦ pure tt | some fd ↦ (do _ ← netfs_close drivers fd; pure tt) ]

-- A call, whatever it returns.
unfoldable pub perform : Setting → Call → Cmd (Unit {0})
unfolding close_by_id
perform s Call.init = netdev_init >> pure tt
perform s (Call.init_esp opened ops) = esp01_init opened s.zeroed ops s.before >> pure tt
perform s (Call.configure cfg cfg_size) = bos_net_configure (drivers_of s) cfg cfg_size >> pure tt
perform s (Call.socket domain ty) = bos_socket s.junk domain ty >> pure tt
perform s (Call.connect fd_id addr addr_len) =
    bos_connect (drivers_of s) fd_id addr addr_len >> pure tt
perform s (Call.bind fd_id addr addr_len) = bos_bind fd_id addr addr_len >> pure tt
perform s (Call.listen fd_id backlog) = bos_listen (drivers_of s) fd_id backlog >> pure tt
perform s (Call.accept fd_id wants_addr) = bos_accept fd_id wants_addr >> pure tt
perform s (Call.close fd_id) = bos_close (drivers_of s) fd_id >> pure tt
perform s (Call.sendto fd_id payload len addr addr_len) =
    bos_sendto (drivers_of s) fd_id payload len addr addr_len >> pure tt
perform s (Call.recvfrom fd_id len wants_addr) = bos_recvfrom fd_id len wants_addr >> pure tt
perform s (Call.close_file fd_id) = close_by_id (drivers_of s) fd_id
perform s (Call.idle k) = serial_idle (client_of s) k s.before

-- Memory for `budget` objects and a serial line, and nothing else.
abbrev pub boot : ℕ → SerialLine → World
boot budget serial = record {
  fresh = 1;
  budget = budget;
  fs_lst = [];
  fd_lst = [];
  fd_count = 0;
  nodes = λ p. none;
  socks = λ p. none;
  devs = λ p. none;
  dev_lst = [];
  esps = λ p. none;
  netfs_id = 0;
  net_root = 0;
  sock_count = 0;
  serial = serial;
}

-- The states that calls which end lead to.
pub data Reaches (s : Setting) : World → World → Type 0 where
  at_start : {w : World} → Reaches s w w
  after_call :
      {w v u : World} (c : Call) → Reaches s w v → perform s c v ≡ done tt u → Reaches s w u
