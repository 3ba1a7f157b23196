-- ===== src/Main.antt =====
-- main/main.c: the test program. Terminal input and output and sleeps are left out; the loops are given
-- as their rounds, which Main.Threads puts together.
pub mod Ack
pub mod Threads
mod Tests
use esp_hostdriver.Prelude.{
  ℕ, ◌-◌, ◌%◌, ◌^◌, Bool, true, false, Option, none, some, List, [], ◌∷◌, ◌++◌, ◌==◌, ltb,
  if◌then◌else◌, length, take, get_or,
}
use esp_hostdriver.Prelude.Codes.{codes}
use esp_hostdriver.Libc.Decimal.{print_d}
use esp_hostdriver.Libc.Strings.{cut}
use esp_hostdriver.Inet.{InetDevCfg, Enc, inet_addr, inet_addr_any, sizeof_sock_addr_inet}
use esp_hostdriver.Host.{SockAddr, stream, dgram, Cmd, pure, ◌>>=◌, ◌>>◌, expect}
use esp_hostdriver.Host.Ret.{Ret, ret, fail, or_ret, is_zero}
use esp_hostdriver.Net.Device.{NetdevOps, netdev_init, sizeof_inet_dev_cfg}
use esp_hostdriver.Net.Calls.{
  bos_socket, bos_net_configure, bos_connect, bos_bind, bos_listen, bos_accept, bos_close,
}
use esp_hostdriver.Net.Transfer.{bos_sendto, bos_send, bos_recvfrom}
use esp_hostdriver.Serial.Line.{c_string}
use esp_hostdriver.Esp.Init.{esp01_init}
use esp_hostdriver.Opt.{Opts}

-- The configuration that `main` fills in.
unfoldable pub main_cfg : Opts → InetDevCfg
main_cfg opts = record {
  mode = opts.dev_mode;
  ssid = opts.ssid;
  password = opts.password;
  hostname = codes "not-supported";
  dhcp = true;
  enc = Enc.wpa2_psk;
  ip = inet_addr (codes "192.168.0.1");
  gw = inet_addr (codes "192.168.0.1");
  netmask = inet_addr (codes "255.255.255.0");
}

-- A string as it lies in memory, for a function that reads up to the 0.
abbrev pub in_memory : List ℕ → List ℕ
in_memory s = s ++ 0 ∷ []

-- What `recv_thread` answers to the bytes that it got: `ack` and the length of their text without a
-- newline at the end. None is a write behind the 16 bytes of `s`.
unfoldable pub ack : List ℕ → Option (List ℕ)
ack bytes =
    let n = if get_or bytes (length bytes - 1) 0 == 10 then length bytes - 1 else length bytes in
    if ltb n 16
    then some (cut 16 (codes "ack " ++ print_d (length (c_string (take n bytes)))))
    else none

module _ (drivers : ℕ → NetdevOps) (opts : Opts) where
  -- The start of `server`: the result of `bos_bind` and `bos_listen` together.
  unfoldable pub server_start : ℕ → Cmd Ret
  server_start sock = do
    let addr : SockAddr = record {
      domain = 0;
      inet = record { addr = inet_addr_any; port = opts.port % 2 ^ 16 };
    }
    bound ← bos_bind sock addr sizeof_sock_addr_inet
    listening ← bos_listen drivers sock 0
    pure (or_ret (or_ret (ret 0) bound) listening)

  -- A round of the loop of `server`: the client for which a thread starts, if one is there.
  unfoldable pub server_round : ℕ → Cmd (Option ℕ)
  server_round sock = do
    (r, addr) ← bos_accept sock true
    elim r [
      | fail ↦ pure none
      | ret id ↦
          if id == 0 then pure none else if ltb id (2 ^ 31) then pure (some id) else pure none
    ]

  -- The start of `client`: the result of `bos_connect`.
  unfoldable pub client_start : ℕ → Cmd Ret
  client_start sock = do
    let addr : SockAddr = record {
      domain = 0;
      inet = record { addr = opts.ip; port = opts.port % 2 ^ 16 };
    }
    connected ← bos_connect drivers sock addr sizeof_sock_addr_inet
    pure (or_ret (ret 0) connected)

  -- A line that was typed in `client`: it is sent.
  unfoldable pub client_line : ℕ → List ℕ → Cmd Ret
  client_line sock line = bos_send drivers sock (in_memory line) (length line)

  -- The echo of `recv_thread`.
  unfoldable pub echo : ℕ → List ℕ → Option SockAddr → Cmd Ret
  echo sock s from = elim opts.ty [
    | dgram ↦ (do
      a ← expect from
      bos_sendto drivers sock (in_memory s) (length s) (some a) sizeof_sock_addr_inet)
    | stream ↦ bos_send drivers sock (in_memory s) (length s)
  ]

  -- A round of the loop of `recv_thread`: whether it goes on. After the last the socket is closed.
  unfoldable pub recv_round : Bool → ℕ → Cmd Bool
  unfolding echo ack
  recv_round echoes sock = do
    r ← bos_recvfrom sock 16 true
    elim r.result [
      | fail ↦ bos_close drivers sock >> pure false
      | ret n ↦ if n == 0 then pure true else (do
        s ← expect (ack r.bytes)
        if echoes then echo sock s r.from >> pure true else pure true)
    ]

  -- `main` up to the socket: none if a step before it fails. The set-up of the driver is given the
  -- arguments of `esp01_init`.
  unfoldable pub main_setup : SockAddr → Bool → InetDevCfg → ℕ → List ℕ → Cmd (Option Ret)
  unfolding main_cfg
  main_setup junk opened zeroed ops before = do
    r1 ← netdev_init
    (r2, dev) ← esp01_init opened zeroed ops before
    if is_zero (or_ret (or_ret (ret 0) r1) r2)
        then (do
          r ← bos_net_configure drivers (main_cfg opts) sizeof_inet_dev_cfg
          if is_zero r then (do sock ← bos_socket junk 0 opts.ty; pure (some sock)) else pure none)
        else pure none
