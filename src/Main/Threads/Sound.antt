-- ===== src/Main/Threads/Sound.antt =====
-- The descriptors and the reference counts under the threads of main/main.c.
use esp_hostdriver.Prelude.{
  ℕ, ◌^◌, ◌<◌, ◌≡◌, ◌==◌, ltb, Bool, true, false, Option, none, some, List, length,
}
use esp_hostdriver.Inet.{InetDevCfg, sizeof_sock_addr_inet}
use esp_hostdriver.Host.{SockAddr, SerialLine, World, done, Cmd}
use esp_hostdriver.Host.Ret.{Ret, ret, is_zero}
use esp_hostdriver.Host.Partial.{
  Keeps, Keeps-pure, Keeps-expect, Keeps-if, Keeps-bind, Keeps-then, Keeps-ty, Keeps-ret,
}
use esp_hostdriver.Bos.Sound.{Sound, Sound-IsStable}
use esp_hostdriver.Bos.Sound.Fds.{Any}
use esp_hostdriver.Net.Device.{NetdevOps}
use esp_hostdriver.Net.Transfer.{bos_send}
use esp_hostdriver.Net.Sound.{
  Respect, Keeps-bos_socket, Keeps-bos_bind, Keeps-bos_accept, Keeps-bos_recvfrom,
}
use esp_hostdriver.Net.Sound.Setup.{Keeps-netdev_init}
use esp_hostdriver.Net.Sound.Driven.{
  Keeps-bos_net_configure, Keeps-bos_connect, Keeps-bos_listen, Keeps-bos_close, Keeps-bos_sendto,
}
use esp_hostdriver.Serial.Frame.{Keeps-serial_idle}
use esp_hostdriver.Esp.Frame.{Keeps-esp_client}
use esp_hostdriver.Esp.Init.Frame.{Keeps-esp01_init}
use esp_hostdriver.Opt.{Opts}
use esp_hostdriver.Main.{
  main_cfg, in_memory, ack, main_setup, server_start, server_round, client_start, client_line, echo,
  recv_round,
}
use esp_hostdriver.Main.Threads.{
  Machine, MainReaches, server_begins, client_begins, server_accepts, server_waits, client_sends,
  thread_starts, thread_goes_on, thread_ends, reader_takes, client_quits,
}
use esp_hostdriver.Program.{Setting, drivers_of, boot}
use esp_hostdriver.Program.Counts.{IfDone-done, esp-Respect, boot-Sound}

module _ {drivers : ℕ → NetdevOps} (dr : Respect drivers) (opts : Opts) where
  Keeps-server_start : (sock : ℕ) → Keeps (Sound Any) (server_start drivers opts sock)
  unfolding server_start
  Keeps-server_start sock =
      Keeps-bind (Keeps-bos_bind sock _ _)
        (λ bound. Keeps-bind (Keeps-bos_listen dr sock 0) (λ listening. Keeps-pure _))

  Keeps-server_round : (sock : ℕ) → Keeps (Sound Any) (server_round drivers opts sock)
  unfolding server_round
  Keeps-server_round sock = Keeps-bind (Keeps-bos_accept sock true) (λ r.
      Keeps-ret r.0 (Keeps-pure none) (λ id.
        Keeps-if (id == 0) (Keeps-pure none)
          (Keeps-if (ltb id (2 ^ 31)) (Keeps-pure (some id)) (Keeps-pure none))))

  Keeps-client_start : (sock : ℕ) → Keeps (Sound Any) (client_start drivers opts sock)
  unfolding client_start
  Keeps-client_start sock = Keeps-bind (Keeps-bos_connect dr sock _ _) (λ r. Keeps-pure _)

  Keeps-bos_send : (sock : ℕ) (s : List ℕ) (n : ℕ) → Keeps (Sound Any) (bos_send drivers sock s n)
  unfolding bos_send
  Keeps-bos_send sock s n = Keeps-bos_sendto dr sock s n none 0

  Keeps-client_line :
      (sock : ℕ) (line : List ℕ) → Keeps (Sound Any) (client_line drivers opts sock line)
  unfolding client_line
  Keeps-client_line sock line = Keeps-bos_send sock (in_memory line) (length line)

  Keeps-echo :
      (sock : ℕ) (s : List ℕ) (from : Option SockAddr)
      → Keeps (Sound Any) (echo drivers opts sock s from)
  unfolding echo
  Keeps-echo sock s from = Keeps-ty opts.ty (Keeps-bos_send sock (in_memory s) (length s)) (
      Keeps-bind (Keeps-expect from)
        (λ a. Keeps-bos_sendto dr sock (in_memory s) (length s) (some a) sizeof_sock_addr_inet))

  Keeps-recv_round :
      (echoes : Bool) (sock : ℕ) → Keeps (Sound Any) (recv_round drivers opts echoes sock)
  unfolding recv_round
  Keeps-recv_round echoes sock = Keeps-bind (Keeps-bos_recvfrom sock 16 true) (λ r.
      Keeps-ret r.result (Keeps-then (Keeps-bos_close dr sock) (Keeps-pure false)) (λ n.
        Keeps-if (n == 0) (Keeps-pure true) (
          Keeps-bind (Keeps-expect (ack r.bytes)) (λ s.
            Keeps-if echoes (Keeps-then (Keeps-echo sock s r.from) (Keeps-pure true))
              (Keeps-pure true)))))

  Keeps-main_setup :
      (junk : SockAddr) (opened : Bool) (zeroed : InetDevCfg) (ops : ℕ) (before : List ℕ)
      → Keeps (Sound Any) (main_setup drivers opts junk opened zeroed ops before)
  unfolding main_setup
  Keeps-main_setup junk opened zeroed ops before = Keeps-bind Keeps-netdev_init (λ r1.
      Keeps-bind (Keeps-esp01_init opened zeroed ops before) (λ r2.
        Keeps-if _
          (Keeps-bind (Keeps-bos_net_configure dr (main_cfg opts) _) (λ r.
            Keeps-if (is_zero r)
              (Keeps-bind (Keeps-bos_socket junk 0 opts.ty) (λ sock. Keeps-pure (some sock)))
              (Keeps-pure none)))
          (Keeps-pure none)))

module _ (s : Setting) (opts : Opts) (opened : Bool) (ops budget : ℕ) (line : SerialLine) where
  Sound-started :
      {w v : World} {sock : ℕ} {m : Cmd Ret} {r : Ret}
      → budget < 2 ^ 32
      → main_setup (drivers_of s) opts s.junk opened s.zeroed ops s.before (boot budget line)
        ≡ done (some (ret sock)) w
      → Keeps (Sound Any) m
      → m w ≡ done r v
      → Sound Any v
  Sound-started h setup keeps run =
      let set_up = Keeps-main_setup (esp-Respect s) opts s.junk opened s.zeroed ops s.before in
      IfDone-done run
        (keeps.keeps _ (IfDone-done setup (set_up.keeps _ (boot-Sound budget line h))))

  Sound-after :
      {A : Type 0} {w v : World} {m : Cmd A} {a : A}
      → Sound Any w
      → Keeps (Sound Any) m
      → m w ≡ done a v
      → Sound Any v
  Sound-after h keeps run = IfDone-done run (keeps.keeps _ h)

  -- In whatever order the rounds of the program's threads come, each taken as a whole, with whatever the
  -- device sends and however many lines and connections there are: the descriptors have ids in order below the counter, the
  -- reference count of each node is the number of the descriptors that are of it, and no descriptor is
  -- of a node that is not there: if there is memory for fewer than 2 ^ 32 objects.
  pub MainReaches-Sound :
      (m : Machine)
      → budget < 2 ^ 32
      → MainReaches s opts opened ops budget line m
      → Sound Any m.world
  MainReaches-Sound m h (server_begins {sock = sock} arg setup is_server run) =
      Sound-started h setup (Keeps-server_start (esp-Respect s) opts sock) run
  MainReaches-Sound m h (client_begins {sock = sock} setup is_client run) =
      Sound-started h setup (Keeps-client_start (esp-Respect s) opts sock) run
  MainReaches-Sound m h (server_accepts {m = m0} r is_server run) =
      Sound-after (MainReaches-Sound m0 h r) (Keeps-server_round (esp-Respect s) opts m0.sock) run
  MainReaches-Sound m h (server_waits {m = m0} r is_server run) =
      Sound-after (MainReaches-Sound m0 h r) (Keeps-server_round (esp-Respect s) opts m0.sock) run
  MainReaches-Sound m h (client_sends {m = m0} text r is_client on run) =
      Sound-after (MainReaches-Sound m0 h r) (Keeps-client_line (esp-Respect s) opts m0.sock text)
        run
  MainReaches-Sound m h (thread_starts {m = m0} r e) = MainReaches-Sound m0 h r
  MainReaches-Sound m h (thread_goes_on {m = m0} sock before behind r e run) =
      Sound-after (MainReaches-Sound m0 h r)
        (Keeps-recv_round (esp-Respect s) opts m0.arg.echo sock) run
  MainReaches-Sound m h (thread_ends {m = m0} sock before behind r e run) =
      Sound-after (MainReaches-Sound m0 h r)
        (Keeps-recv_round (esp-Respect s) opts m0.arg.echo sock) run
  MainReaches-Sound m h (reader_takes {m = m0} k r run) =
      Sound-after (MainReaches-Sound m0 h r)
        (Keeps-serial_idle Sound-IsStable (Keeps-esp_client Sound-IsStable s.idx s.junk s.dev) k
          s.before)
        run
  MainReaches-Sound m h (client_quits {m = m0} r is_client on run) =
      Sound-after (MainReaches-Sound m0 h r) (Keeps-bos_close (esp-Respect s) m0.sock) run
