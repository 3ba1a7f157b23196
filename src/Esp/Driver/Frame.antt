-- ===== src/Esp/Driver/Frame.antt =====
-- The operations of the driver of esp01/esp01.c keep what the serial line and its callbacks keep.
use esp_hostdriver.Prelude.{ℕ, Option, none, List, [], ◌∷◌, if◌then◌else◌}
use esp_hostdriver.Prelude.Codes.{codes}
use esp_hostdriver.Inet.{Mode, InetDevCfg}
use esp_hostdriver.Host.{Ptr, World, pure, ◌>>=◌}
use esp_hostdriver.Host.Partial.{
  Keeps, Keeps-pure, Keeps-fault, Keeps-expect, Keeps-if, Keeps-bind, Keeps-then, Keeps-option,
  Keeps-ty,
}
use esp_hostdriver.Host.Ret.{Ret, ret, fail, or_ret}
use esp_hostdriver.Host.Stable.{
  IsStable, Keeps-load_sock, Keeps-load_dev, Keeps-load_esp, Keeps-store_esp,
}
use esp_hostdriver.Net.Frame.{DriverKeeps, if_set}
use esp_hostdriver.Serial.Reader.{SerialClient}
use esp_hostdriver.Serial.Frame.{
  ClientKeeps, Keeps-serial_cmd_start, Keeps-write_line, Keeps-serial_cmd_wait,
}
use esp_hostdriver.Serial.Command.{serial_cmd_send, serial_cmd_send_char}
use esp_hostdriver.Esp.Format.{Arg, convert, send_format, send_cmd, arg_text}
use esp_hostdriver.Esp.Links.{get_link_id}
use esp_hostdriver.Esp.Driver.{
  esp_of, is_ap, command, enc_code, gw_as_string, esp_configure, esp_connect, esp_listen, esp_close,
  esp_send, esp_ops,
}

Keeps-esp_of : {I : World → Type 0} (sock : Ptr) → Keeps I (esp_of sock)
unfolding esp_of
Keeps-esp_of sock = Keeps-bind (Keeps-load_sock sock) (λ s.
    Keeps-bind (Keeps-load_dev s.dev)
      (λ d. Keeps-bind (Keeps-load_esp d.data') (λ esp. Keeps-pure (s, esp, d.data'))))

module _ {I : World → Type 0} (st : IsStable I) where
  Keeps-send_char : (c : ℕ) → Keeps I (serial_cmd_send_char c)
  unfolding serial_cmd_send_char
  Keeps-send_char c = Keeps-write_line st (c ∷ [])

  Keeps-send : (s : List ℕ) → Keeps I (serial_cmd_send s)
  unfolding serial_cmd_send
  Keeps-send s = Keeps-write_line st s

  Keeps-convert : (k : ℕ) (args : List Arg) → Keeps I (convert k args)
  unfolding convert
  Keeps-convert k [] = Keeps-if _ Keeps-fault (Keeps-then (Keeps-send_char k) (Keeps-pure []))
  Keeps-convert k (x ∷ xs) =
      Keeps-if _
        (Keeps-bind (Keeps-expect (arg_text k x))
          (λ text. Keeps-then (Keeps-send text) (Keeps-pure xs)))
        (Keeps-then (Keeps-send_char k) (Keeps-pure (x ∷ xs)))

  Keeps-send_format : (fmt : List ℕ) (args : List Arg) → Keeps I (send_format fmt args)
  unfolding send_format
  Keeps-send_format [] args = Keeps-pure tt
  Keeps-send_format (c ∷ []) args = Keeps-if _ (Keeps-pure tt) (Keeps-send_char c)
  Keeps-send_format (c ∷ k ∷ fmt) args =
      Keeps-if _ (Keeps-bind (Keeps-convert k args) (λ rest. Keeps-send_format fmt rest))
        (Keeps-then (Keeps-send_char c) (Keeps-send_format (k ∷ fmt) args))

  module _ {client : SerialClient} (cl : ClientKeeps I client) (before : List ℕ) where
    Keeps-send_cmd :
        (resp : Option (List ℕ)) (fmt : List ℕ) (args : List Arg)
        → Keeps I (send_cmd client before resp fmt args)
    unfolding send_cmd
    Keeps-send_cmd resp fmt args =
        Keeps-then (Keeps-serial_cmd_start st resp)
          (Keeps-then (Keeps-send_format fmt args) (Keeps-serial_cmd_wait st cl before))

    Keeps-esp_configure :
        (dev : Ptr) (cfg : InetDevCfg) → Keeps I (esp_configure client before dev cfg)
    unfolding esp_configure
    Keeps-esp_configure dev cfg = Keeps-bind (Keeps-load_dev dev) (λ d.
        Keeps-bind (Keeps-load_esp d.data') (λ _.
          Keeps-bind
            (Keeps-send_cmd none (codes "AT+CWMODE_CUR=%s")
              (Arg.str (if is_ap cfg.mode then codes "2" else codes "1") ∷ []))
            (λ r1. Keeps-bind (Keeps-send_cmd none (codes "AT+CIPDINFO=1") []) (λ r2.
              Keeps-bind
                (Keeps-send_cmd none (codes "AT+CWDHCP_CUR=%s,%s") (
                  Arg.str (if is_ap cfg.mode then codes "0" else codes "1")
                  ∷ Arg.str (if cfg.dhcp then codes "1" else codes "0")
                  ∷ []))
                (λ r3. Keeps-rest cfg.mode (or_ret (or_ret (or_ret (ret 0) r1) r2) r3))))))
      where
        Keeps-rest :
            (mode : Mode) (r : Ret)
            → Keeps I (elim mode [
              | Mode.ap ↦ (do
                r4 ←
                    command client before
                      (codes "AT+CIPAP_CUR=\"%a\",\"%a\",\"%a\"")
                      (Arg.addr cfg.ip ∷ Arg.addr cfg.gw ∷ Arg.addr cfg.netmask ∷ [])
                r5 ←
                    command client before
                      (codes "AT+CWSAP_CUR=\"%s\",\"%s\",1,%s,4,0")
                      (Arg.str cfg.ssid ∷ Arg.str cfg.password ∷ Arg.str (enc_code cfg.enc) ∷ [])
                pure (or_ret (or_ret r r4) r5))
              | Mode.client ↦ (do
                r4 ←
                    if cfg.dhcp
                    then pure (ret 0)
                    else command client before
                        (codes "AT+CIPSTA_CUR=\"%a\",\"%a\",\"%s\"")
                        (Arg.addr cfg.ip ∷ Arg.addr cfg.netmask ∷ Arg.str (gw_as_string cfg) ∷ [])
                r5 ←
                    command client before
                      (codes "AT+CWJAP_CUR=\"%s\",\"%s\"")
                      (Arg.str cfg.ssid ∷ Arg.str cfg.password ∷ [])
                pure (or_ret (or_ret r r4) r5))
            ])
        Keeps-rest Mode.ap r =
            Keeps-bind
              (Keeps-send_cmd none (codes "AT+CIPAP_CUR=\"%a\",\"%a\",\"%a\"")
                (Arg.addr cfg.ip ∷ Arg.addr cfg.gw ∷ Arg.addr cfg.netmask ∷ []))
              (λ r4.
                Keeps-bind
                  (Keeps-send_cmd none (codes "AT+CWSAP_CUR=\"%s\",\"%s\",1,%s,4,0")
                    (Arg.str cfg.ssid ∷ Arg.str cfg.password ∷ Arg.str (enc_code cfg.enc) ∷ []))
                  (λ r5. Keeps-pure (or_ret (or_ret r r4) r5)))
        Keeps-rest Mode.client r =
            Keeps-bind
              (Keeps-if cfg.dhcp (Keeps-pure (ret 0)) (
                Keeps-send_cmd none (codes "AT+CIPSTA_CUR=\"%a\",\"%a\",\"%s\"")
                  (Arg.addr cfg.ip ∷ Arg.addr cfg.netmask ∷ Arg.str (gw_as_string cfg) ∷ [])))
              (λ r4.
                Keeps-bind
                  (Keeps-send_cmd none (codes "AT+CWJAP_CUR=\"%s\",\"%s\"")
                    (Arg.str cfg.ssid ∷ Arg.str cfg.password ∷ []))
                  (λ r5. Keeps-pure (or_ret (or_ret r r4) r5)))

    Keeps-esp_connect : (sock : Ptr) → Keeps I (esp_connect client before sock)
    unfolding esp_connect
    Keeps-esp_connect sock = Keeps-bind (Keeps-esp_of sock) (λ found.
        Keeps-option (get_link_id found.1 0) (Keeps-pure fail) (λ link_id.
          Keeps-bind (Keeps-send_cmd none _ _) (λ r.
            Keeps-if _
              (Keeps-bind (Keeps-load_esp _)
                (λ esp. Keeps-then (Keeps-store_esp st _ _) (Keeps-pure (ret 0))))
              (Keeps-pure fail))))

    Keeps-esp_listen : (sock : Ptr) (backlog : ℕ) → Keeps I (esp_listen client before sock backlog)
    unfolding esp_listen
    Keeps-esp_listen sock backlog = Keeps-bind (Keeps-esp_of sock) (λ found.
        Keeps-if _
          (Keeps-if _
            (Keeps-bind (Keeps-send_cmd none _ _) (λ r.
              Keeps-if _
                (Keeps-bind (Keeps-load_esp _)
                  (λ esp. Keeps-then (Keeps-store_esp st _ _) (Keeps-pure (ret 0))))
                (Keeps-pure fail)))
            (Keeps-pure fail))
          (Keeps-pure fail))

    Keeps-esp_close : (sock : Ptr) → Keeps I (esp_close client before sock)
    unfolding esp_close
    Keeps-esp_close sock = Keeps-bind (Keeps-esp_of sock) (λ found.
        Keeps-if _
          (Keeps-bind (Keeps-send_cmd none _ _) (λ r.
            Keeps-if _
              (Keeps-bind (Keeps-load_esp _)
                (λ esp. Keeps-then (Keeps-store_esp st _ _) (Keeps-pure (ret 0))))
              (Keeps-pure fail)))
          (Keeps-option (get_link_id found.1 sock) (Keeps-pure fail) (λ link_id.
            Keeps-bind (Keeps-send_cmd none _ _) (λ r.
              Keeps-if _
                (Keeps-bind (Keeps-load_esp _)
                  (λ esp. Keeps-then (Keeps-store_esp st _ _) (Keeps-pure (ret 0))))
                (Keeps-pure fail)))))

    Keeps-esp_send :
        (sock : Ptr) (payload : List ℕ) (len : ℕ)
        → Keeps I (esp_send client before sock payload len)
    unfolding esp_send
    Keeps-esp_send sock payload len = Keeps-if _ (Keeps-pure (ret 0)) (
        Keeps-bind (Keeps-esp_of sock) (λ found.
          Keeps-option (get_link_id found.1 sock) (Keeps-pure fail) (λ link_id.
            Keeps-bind (Keeps-ty found.0.ty (Keeps-send_cmd none _ _) (Keeps-send_cmd none _ _))
              (λ r.
                Keeps-if _
                  (Keeps-then (Keeps-serial_cmd_start st _) (
                    Keeps-then (Keeps-send payload)
                      (Keeps-bind (Keeps-serial_cmd_wait st cl before) (λ r. Keeps-pure _))))
                  (Keeps-pure r)))))

    -- What every change of the serial line, the sockets and the driver's own state keeps, and the
    -- callbacks keep, the driver keeps.
    pub Keeps-esp_ops : DriverKeeps I (esp_ops client before)
    Keeps-esp_ops = record {
      configure_keeps = if_set Keeps-esp_configure;
      connect_keeps = if_set Keeps-esp_connect;
      listen_keeps = if_set Keeps-esp_listen;
      close_keeps = if_set Keeps-esp_close;
      send_keeps = if_set Keeps-esp_send;
    }
