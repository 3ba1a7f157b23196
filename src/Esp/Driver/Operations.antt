-- ===== src/Esp/Driver/Operations.antt =====
-- `connect`, `listen` and `close` of esp01/esp01.c as a whole: the command that they send, and what
-- the answer does to the driver's table of links and its server.
use esp_hostdriver.Prelude.{
  ℕ, ◌≡◌, ◌≢◌, refl, subst, ◌∙◌, inl, inr, Bool-cases, Option-cases, eq_of_==, ne_of_==, ◌&&◌, true,
  none, some, List, [], ◌∷◌, ◌++◌, append-nil, ◌==◌, ==_ne, ==_self, if◌then◌else◌, set,
}
use esp_hostdriver.Prelude.Codes.{codes}
use esp_hostdriver.Libc.Decimal.{print_d}
use esp_hostdriver.Libc.Strings.{cut}
use esp_hostdriver.Inet.{inet_ntoa}
use esp_hostdriver.Host.{
  pure, ◌>>=◌, ◌>>◌, Ptr, CmdResult, inval, ok, err, busy, SockAddr, SockType, stream, dgram,
  Socket, Netdev, Esp, World, done, Cmd, update, and_then, load_sock, load_dev, load_esp, store_esp,
}
use esp_hostdriver.Host.Ret.{Ret, ret, fail, is_zero}
use esp_hostdriver.Serial.Reader.{SerialClient}
use esp_hostdriver.Serial.Command.{result_ret}
use esp_hostdriver.Esp.Links.{get_link_id}
use esp_hostdriver.Esp.Format.{Arg, arg_text}
use esp_hostdriver.Esp.Format.Text.{format_text}
use esp_hostdriver.Esp.Driver.{esp_of, esp_connect, esp_listen, esp_close}
use esp_hostdriver.Esp.Driver.Answer.{answered, IsComing, send_cmd-answer}

-- A number and an address as `send_cmd` prints them.
abbrev pub number : ℕ → List ℕ
number n = cut 16 (print_d n)

abbrev pub protocol : SockType → List ℕ
protocol stream = codes "TCP"
protocol dgram = codes "UDP"

abbrev pub connect_text : ℕ → SockType → SockAddr → List ℕ
connect_text k ty a =
    codes "AT+CIPSTART="
    ++ (number k
        ++ (codes ",\""
            ++ (protocol ty
                ++ (codes "\",\""
                    ++ (inet_ntoa a.inet.addr 15 ++ (codes "\"," ++ number a.inet.port))))))

-- The end of an operation whose command was answered with `r`: the driver's state becomes `e` if the
-- answer was the one that was expected, and else the operation fails and stores nothing.
abbrev pub settle : CmdResult → Ptr → Esp → Cmd Ret
settle ok p e w = done (ret 0) (record w { esps = update w.esps p (some e) })
settle inval p e w = done fail w
settle err p e w = done fail w
settle busy p e w = done fail w

connect_text-format :
    (k : ℕ) (ty : SockType) (a : SockAddr)
    → format_text (codes "AT+CIPSTART=%d,\"%s\",\"%a\",%d") (
        Arg.int k
        ∷ Arg.str (elim ty [ dgram ↦ codes "UDP" | stream ↦ codes "TCP" ])
        ∷ Arg.addr a.inet.addr
        ∷ Arg.int a.inet.port
        ∷ [])
      ≡ some (connect_text k ty a)
unfolding format_text arg_text
connect_text-format k stream a = rw (append-nil (number a.inet.port)) refl
connect_text-format k dgram a = rw (append-nil (number a.inet.port)) refl

listen_text-format :
    (port : ℕ)
    → format_text (codes "AT+CIPSERVER=1,%d") (Arg.int port ∷ [])
      ≡ some (codes "AT+CIPSERVER=1," ++ number port)
unfolding format_text arg_text
listen_text-format port = rw (append-nil (number port)) refl

close_text-format :
    (k : ℕ)
    → format_text (codes "AT+CIPCLOSE=%d") (Arg.int k ∷ [])
      ≡ some (codes "AT+CIPCLOSE=" ++ number k)
unfolding format_text arg_text
close_text-format k = rw (append-nil (number k)) refl

stop_text-format : format_text (codes "AT+CIPSERVER=0") [] ≡ some (codes "AT+CIPSERVER=0")
unfolding format_text
stop_text-format = refl

-- A socket, its device and the state of the driver, as they are found in the state of the program.
pub record IsOpen (w : World) (sock p : Ptr) (s : Socket) (e : Esp) : Type 0 where
  pub device : Netdev
  pub socket_at : w.socks sock ≡ some s
  pub device_at : w.devs s.dev ≡ some device
  pub driver_at : w.esps device.data' ≡ some e
  pub data_of : device.data' ≡ p

pub esp_of-IsOpen :
    {w : World} {sock p : Ptr} {s : Socket} {e : Esp}
    → IsOpen w sock p s e
    → esp_of sock w ≡ done (s, e, p) w
unfolding esp_of load_sock load_dev load_esp
esp_of-IsOpen {w} {sock} {p} {s} {e} o = rw (o.socket_at, o.device_at, o.driver_at, o.data_of) refl

module _ (client : SerialClient) (before : List ℕ) {w : World} {sock p : Ptr} {s : Socket} {e : Esp}
    (o : IsOpen w sock p s e) where
  driver_there : w.esps p ≡ some e
  driver_there = subst (λ q. w.esps q ≡ some e) o.data_of o.driver_at

  stored :
      (r : CmdResult) (f : Esp → Esp) (text rest : List ℕ)
      → (if is_zero (result_ret r)
            then (load_esp p >>= λ esp. store_esp p (f esp) >> pure (ret 0))
            else pure fail)
          (answered w none text r rest)
        ≡ settle r p (f e) (answered w none text r rest)
  unfolding load_esp store_esp
  stored ok f text rest = rw driver_there refl
  stored inval f text rest = refl
  stored err f text rest = refl
  stored busy f text rest = refl

  pub esp_connect-answer :
      {r : CmdResult} {rest : List ℕ} {k : ℕ}
      → get_link_id e 0 ≡ some k
      → IsComing client before w none r rest
      → esp_connect client before sock w
        ≡ settle r p
            (record e { links = set e.links k sock })
            (answered w none (connect_text k s.ty s.addr) r rest)
  unfolding esp_connect
  esp_connect-answer {r} {rest} {k} free c =
      let text = connect_text k s.ty s.addr in
      rw (esp_of-IsOpen o) (
        rw (and_then, free)
          (rw (send_cmd-answer client before none _ _ text (connect_text-format k s.ty s.addr) c)
            (stored r (λ e. record e { links = set e.links k sock }) text rest)))

  pub esp_listen-answer :
      {r : CmdResult} {rest : List ℕ} (backlog : ℕ)
      → (backlog == 0) ≡ true
      → (e.tcp_server == 0) ≡ true
      → IsComing client before w none r rest
      → esp_listen client before sock backlog w
        ≡ settle r p
            (record e { tcp_server = sock })
            (answered w none (codes "AT+CIPSERVER=1," ++ number s.addr.inet.port) r rest)
  unfolding esp_listen
  esp_listen-answer {r} {rest} backlog empty free c =
      let text = codes "AT+CIPSERVER=1," ++ number s.addr.inet.port in
      rw (esp_of-IsOpen o) (
        rw (and_then, empty, free)
          (rw (send_cmd-answer client before none _ _ text (listen_text-format s.addr.inet.port) c)
            (stored r (λ e. record e { tcp_server = sock }) text rest)))

  pub esp_close-link :
      {r : CmdResult} {rest : List ℕ} {k : ℕ}
      → sock ≢ e.tcp_server
      → get_link_id e sock ≡ some k
      → IsComing client before w none r rest
      → esp_close client before sock w
        ≡ settle r p
            (record e { links = set e.links k 0 })
            (answered w none (codes "AT+CIPCLOSE=" ++ number k) r rest)
  unfolding esp_close
  esp_close-link {r} {rest} {k} other found c =
      let text = codes "AT+CIPCLOSE=" ++ number k in
      rw (esp_of-IsOpen o) (
        rw (and_then, ==_ne sock e.tcp_server other, found)
          (rw (send_cmd-answer client before none _ _ text (close_text-format k) c)
            (stored r (λ e. record e { links = set e.links k 0 }) text rest)))

  pub esp_close-server :
      {r : CmdResult} {rest : List ℕ}
      → sock ≡ e.tcp_server
      → IsComing client before w none r rest
      → esp_close client before sock w
        ≡ settle r p (record e { tcp_server = 0 }) (answered w none (codes "AT+CIPSERVER=0") r rest)
  unfolding esp_close
  esp_close-server {r} {rest} server c =
      let text = codes "AT+CIPSERVER=0" in
      rw (esp_of-IsOpen o) (
        rw (and_then, ← server, ==_self sock)
          (rw (send_cmd-answer client before none _ _ text stop_text-format c)
            (stored r (λ e. record e { tcp_server = 0 }) text rest)))

  module _ {r : CmdResult} {rest : List ℕ} (c : IsComing client before w none r rest) where
    -- `connect` of a socket whose device is set and whose command is answered: without a free link it
    -- fails and sends nothing; else it sends `AT+CIPSTART` with the first free link, the protocol
    -- and the port of the socket and what `inet_ntoa` prints of its address with a length of 15, which
    -- loses the last digit of an address of 15 characters, and exactly if the answer is `OK` the socket gets that link.
    pub esp_connect_lem : esp_connect client before sock w ≡ elim (get_link_id e 0) [
      | none ↦ done fail w
      | some k ↦
          settle r p
            (record e { links = set e.links k sock })
            (answered w none (connect_text k s.ty s.addr) r rest)
    ]
    unfolding esp_connect
    esp_connect_lem = elim (Option-cases (get_link_id e 0)) [
      | inl full ↦ rw full (rw (esp_of-IsOpen o) (rw (and_then, full) refl))
      | inr (k, free) ↦ rw free (esp_connect-answer free c)
    ]

    -- `listen` of a socket whose device is set and whose command is answered: with a backlog that is
    -- not 0, or while there is a server, it fails and sends nothing; else it sends `AT+CIPSERVER=1`
    -- with the socket's port, and exactly if the answer is `OK` the socket becomes the server.
    pub esp_listen_lem :
        (backlog : ℕ)
        → esp_listen client before sock backlog w ≡ (
            if backlog == 0 && e.tcp_server == 0
            then settle r p
                (record e { tcp_server = sock })
                (answered w none (codes "AT+CIPSERVER=1," ++ number s.addr.inet.port) r rest)
            else done fail w)
    unfolding esp_listen
    esp_listen_lem backlog = elim (Bool-cases (backlog == 0)) [
      | inl empty ↦ elim (Bool-cases (e.tcp_server == 0)) [
        | inl free ↦ esp_listen-answer backlog empty free c ∙ rw (empty, free) refl
        | inr taken ↦ rw (empty, taken) (rw (esp_of-IsOpen o) (rw (and_then, taken) refl))
      ]
      | inr long ↦ rw long (rw (esp_of-IsOpen o) refl)
    ]

    -- `close` of a socket whose device is set and whose command is answered: a server is stopped with
    -- `AT+CIPSERVER=0`, and another socket's link is closed with `AT+CIPCLOSE` and its number; exactly
    -- if the answer is `OK` the server or the link is free then. A socket that is no server and has no
    -- link makes it fail and send nothing.
    pub esp_close_lem : esp_close client before sock w ≡ (
        if sock == e.tcp_server
        then settle r p
            (record e { tcp_server = 0 })
            (answered w none (codes "AT+CIPSERVER=0") r rest)
        else elim (get_link_id e sock) [
          | none ↦ done fail w
          | some k ↦
              settle r p
                (record e { links = set e.links k 0 })
                (answered w none (codes "AT+CIPCLOSE=" ++ number k) r rest)
        ])
    unfolding esp_close
    esp_close_lem = elim (Bool-cases (sock == e.tcp_server)) [
      | inl server ↦ rw server (esp_close-server (eq_of_== sock e.tcp_server server) c)
      | inr other ↦ rw other (elim (Option-cases (get_link_id e sock)) [
        | inl absent ↦ rw absent (rw (esp_of-IsOpen o) (rw (and_then, other, absent) refl))
        | inr (k, found) ↦ rw found (esp_close-link (ne_of_== sock e.tcp_server other) found c)
      ])
    ]
