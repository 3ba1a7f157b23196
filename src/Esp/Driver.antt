-- ===== src/Esp/Driver.antt =====
-- The operations of esp01/esp01.c that net/netdev.c calls through `netdev_ops_t`.
pub mod Answer
pub mod Operations
pub mod Send
pub mod Configure
mod Tests
pub mod Frame
use esp_hostdriver.Prelude.{
  ℕ, ◌+◌, ◌-◌, ◌/◌, ◌%◌, ◌^◌, ◌≡◌, Bool, true, false, Option, none, some, List, [], ◌∷◌, ◌++◌, ◌==◌,
  if◌then◌else◌, set,
}
use esp_hostdriver.Prelude.Codes.{codes}
use esp_hostdriver.Inet.{Mode, Enc, InetDevCfg}
use esp_hostdriver.Host.{
  Ptr, SockAddr, stream, dgram, Socket, Esp, World, Cmd, pure, fault, ◌>>=◌, ◌>>◌, get, load_sock,
  load_dev, load_esp, store_esp,
}
use esp_hostdriver.Host.Ret.{Ret, ret, fail, or_ret, is_zero}
use esp_hostdriver.Net.Device.{NetdevOps}
use esp_hostdriver.Serial.Line.{c_string}
use esp_hostdriver.Serial.Reader.{SerialClient}
use esp_hostdriver.Serial.Command.{serial_cmd_start, serial_cmd_send, serial_cmd_wait}
use esp_hostdriver.Esp.Links.{get_link_id}
use esp_hostdriver.Esp.Format.{Arg, send_cmd}

-- `enc[cfg->enc]`
abbrev pub enc_code : Enc → List ℕ
enc_code Enc.enc_open = codes "0"
enc_code Enc.wpa_psk = codes "2"
enc_code Enc.wpa2_psk = codes "3"
enc_code Enc.wpa_wpa2_psk = codes "4"

abbrev pub is_ap : Mode → Bool
is_ap Mode.ap = true
is_ap Mode.client = false

-- A word in memory, lowest byte first.
abbrev pub word_bytes : ℕ → List ℕ
word_bytes w = w % 256 ∷ w / 2 ^ 8 % 256 ∷ w / 2 ^ 16 % 256 ∷ w / 2 ^ 24 % 256 ∷ []

-- The number of an enumerator.
abbrev pub enc_number : Enc → ℕ
enc_number Enc.enc_open = 0
enc_number Enc.wpa_psk = 1
enc_number Enc.wpa2_psk = 2
enc_number Enc.wpa_wpa2_psk = 3

-- `&cfg->gw` read as a string: the bytes of `gw` and of the members behind it up to the first 0.
unfoldable pub gw_as_string : InetDevCfg → List ℕ
gw_as_string cfg =
    c_string (word_bytes cfg.gw ++ (word_bytes cfg.netmask ++ word_bytes (enc_number cfg.enc)))

-- The socket, its device's `esp_t` and that one's address.
unfoldable pub esp_of : Ptr → Cmd (Socket × Esp × Ptr)
esp_of sock = do
  s ← load_sock sock
  d ← load_dev s.dev
  esp ← load_esp d.data'
  pure (s, esp, d.data')

module _ (client : SerialClient) (before : List ℕ) where
  -- A command that expects no answer of its own but `OK`.
  abbrev pub command : List ℕ → List Arg → Cmd Ret
  command fmt args = send_cmd client before none fmt args

  -- `configure`
  unfoldable pub esp_configure : Ptr → InetDevCfg → Cmd Ret
  unfolding send_cmd gw_as_string
  esp_configure dev cfg = do
    d ← load_dev dev
    _ ← load_esp d.data'
    r1 ←
        command (codes "AT+CWMODE_CUR=%s")
          (Arg.str (if is_ap cfg.mode then codes "2" else codes "1") ∷ [])
    r2 ← command (codes "AT+CIPDINFO=1") []
    r3 ← command (codes "AT+CWDHCP_CUR=%s,%s") (
        Arg.str (if is_ap cfg.mode then codes "0" else codes "1")
        ∷ Arg.str (if cfg.dhcp then codes "1" else codes "0")
        ∷ [])
    let r = or_ret (or_ret (or_ret (ret 0) r1) r2) r3
    elim cfg.mode [
      | Mode.ap ↦ (do
        r4 ←
            command (codes "AT+CIPAP_CUR=\"%a\",\"%a\",\"%a\"")
              (Arg.addr cfg.ip ∷ Arg.addr cfg.gw ∷ Arg.addr cfg.netmask ∷ [])
        r5 ←
            command (codes "AT+CWSAP_CUR=\"%s\",\"%s\",1,%s,4,0")
              (Arg.str cfg.ssid ∷ Arg.str cfg.password ∷ Arg.str (enc_code cfg.enc) ∷ [])
        pure (or_ret (or_ret r r4) r5))
      | Mode.client ↦ (do
        r4 ←
            if cfg.dhcp
            then pure (ret 0)
            else command (codes "AT+CIPSTA_CUR=\"%a\",\"%a\",\"%s\"")
                (Arg.addr cfg.ip ∷ Arg.addr cfg.netmask ∷ Arg.str (gw_as_string cfg) ∷ [])
        r5 ←
            command (codes "AT+CWJAP_CUR=\"%s\",\"%s\"")
              (Arg.str cfg.ssid ∷ Arg.str cfg.password ∷ [])
        pure (or_ret (or_ret r r4) r5))
    ]

  -- `connect`. The link is chosen before the command and stored after it; what the reader does to the
  -- table meanwhile is kept, but for that link.
  unfoldable pub esp_connect : Ptr → Cmd Ret
  unfolding esp_of
  esp_connect sock = do
    (s, esp, p) ← esp_of sock
    elim (get_link_id esp 0) [
      | none ↦ pure fail
      | some link_id ↦ (do
        r ← command (codes "AT+CIPSTART=%d,\"%s\",\"%a\",%d") (
            Arg.int link_id
            ∷ Arg.str (elim s.ty [ dgram ↦ codes "UDP" | stream ↦ codes "TCP" ])
            ∷ Arg.addr s.addr.inet.addr
            ∷ Arg.int s.addr.inet.port
            ∷ [])
        if is_zero r
            then (do
              esp ← load_esp p
              store_esp p (record esp { links = set esp.links link_id sock })
              pure (ret 0))
            else pure fail)
    ]

  -- `listen`
  unfoldable pub esp_listen : Ptr → ℕ → Cmd Ret
  unfolding esp_of
  esp_listen sock backlog = do
    (s, esp, p) ← esp_of sock
    if backlog == 0
        then if esp.tcp_server == 0
          then (do
            r ← command (codes "AT+CIPSERVER=1,%d") (Arg.int s.addr.inet.port ∷ [])
            if is_zero r
                then (do
                  esp ← load_esp p
                  store_esp p (record esp { tcp_server = sock })
                  pure (ret 0))
                else pure fail)
          else pure fail
        else pure fail

  -- `close`
  unfoldable pub esp_close : Ptr → Cmd Ret
  unfolding esp_of
  esp_close sock = do
    (s, esp, p) ← esp_of sock
    if sock == esp.tcp_server
        then (do
          r ← command (codes "AT+CIPSERVER=0") []
          if is_zero r
              then (do esp ← load_esp p; store_esp p (record esp { tcp_server = 0 }); pure (ret 0))
              else pure fail)
        else elim (get_link_id esp sock) [
          | none ↦ pure fail
          | some link_id ↦ (do
            r ← command (codes "AT+CIPCLOSE=%d") (Arg.int link_id ∷ [])
            if is_zero r
                then (do
                  esp ← load_esp p
                  store_esp p (record esp { links = set esp.links link_id 0 })
                  pure (ret 0))
                else pure fail)
        ]

  -- `send`; the payload is the string at `data`, whose length `data_len` need not be.
  unfoldable pub esp_send : Ptr → List ℕ → ℕ → Cmd Ret
  unfolding esp_of serial_cmd_start serial_cmd_send serial_cmd_wait
  esp_send sock payload data_len = if data_len == 0 then pure (ret 0) else (do
    (s, esp, p) ← esp_of sock
    elim (get_link_id esp sock) [
      | none ↦ pure fail
      | some link_id ↦ (do
        r ← elim s.ty [
          | dgram ↦ command (codes "AT+CIPSEND=%d,%d,\"%a\",%d") (
              Arg.int link_id
              ∷ Arg.int data_len
              ∷ Arg.addr s.addr.inet.addr
              ∷ Arg.int s.addr.inet.port
              ∷ [])
          | stream ↦ command (codes "AT+CIPSEND=%d,%d") (Arg.int link_id ∷ Arg.int data_len ∷ [])
        ]
        if is_zero r
            then (do
              serial_cmd_start (some (codes "SEND OK"))
              serial_cmd_send payload
              r ← serial_cmd_wait client before
              pure (if is_zero r then ret data_len else fail))
            else pure r)
    ])

  -- The table of operations that `esp01_init` registers.
  abbrev pub esp_ops : NetdevOps
  esp_ops = record {
    configure = some esp_configure;
    connect = some esp_connect;
    listen = some esp_listen;
    close = some esp_close;
    send = some esp_send;
  }
