-- ===== src/Main/Threads.antt =====
-- The threads of main/main.c, the rounds of their loops in any order: `server` or `client`, a `recv_thread` for each connection, and
-- the thread that reads the serial line.
pub mod Sound
mod Tests
use esp_hostdriver.Prelude.{
  ℕ, suc, ◌≡◌, ◌≢◌, Bool, true, false, Option, none, some, List, [], ◌∷◌, ◌++◌,
}
use esp_hostdriver.Host.{SerialLine, World, Run, done, Cmd}
use esp_hostdriver.Host.Ret.{Ret, ret, fail}
use esp_hostdriver.Net.Calls.{bos_close}
use esp_hostdriver.Serial.Reader.{serial_idle}
use esp_hostdriver.Opt.{Opts}
use esp_hostdriver.Main.{
  main_setup, server_start, server_round, client_start, client_line, recv_round,
}
use esp_hostdriver.Program.{Setting, client_of, drivers_of, boot}

-- `recv_thread_arg_t`
pub record RecvThreadArg : Type 0 where
  pub echo : Bool
  pub sock : ℕ

-- `sock` is that of `main`. `arg` is the one variable whose address each new thread gets, `created` are
-- the threads that have not read it yet, and `threads` has the sockets of those that have. The program is
-- `over` once `client` returns.
pub record Machine : Type 0 where
  pub world : World
  pub sock : ℕ
  pub arg : RecvThreadArg
  pub created : ℕ
  pub threads : List ℕ
  pub over : Bool

-- What the program reaches with these options, one round of a thread after another: no other thread
-- runs within a round. `sock` of `recv_thread` is read once, `echo` in each
-- round.
pub data MainReaches (s : Setting) (opts : Opts) (opened : Bool) (ops budget : ℕ)
    (line : SerialLine) : Machine → Type 0 where
  server_begins :
      {w v : World} {sock : ℕ} (arg : RecvThreadArg)
      → main_setup (drivers_of s) opts s.junk opened s.zeroed ops s.before (boot budget line)
        ≡ done (some (ret sock)) w
      → opts.ip ≡ 0
      → server_start (drivers_of s) opts sock w ≡ done (ret 0) v
      → MainReaches s opts opened ops budget line
          (record { world = v; sock = sock; arg = arg; created = 0; threads = []; over = false })
  client_begins :
      {w v : World} {sock : ℕ}
      → main_setup (drivers_of s) opts s.junk opened s.zeroed ops s.before (boot budget line)
        ≡ done (some (ret sock)) w
      → opts.ip ≢ 0
      → client_start (drivers_of s) opts sock w ≡ done (ret 0) v
      → MainReaches s opts opened ops budget line (record {
        world = v;
        sock = sock;
        arg = record { echo = false; sock = sock };
        created = 1;
        threads = [];
        over = false;
      })
  server_accepts :
      {m : Machine} {v : World} {client : ℕ}
      → MainReaches s opts opened ops budget line m
      → opts.ip ≡ 0
      → server_round (drivers_of s) opts m.sock m.world ≡ done (some client) v
      → MainReaches s opts opened ops budget line (record m {
        world = v;
        arg = record { echo = true; sock = client };
        created = suc m.created;
      })
  server_waits :
      {m : Machine} {v : World}
      → MainReaches s opts opened ops budget line m
      → opts.ip ≡ 0
      → server_round (drivers_of s) opts m.sock m.world ≡ done none v
      → MainReaches s opts opened ops budget line (record m { world = v })
  client_sends :
      {m : Machine} {v : World} {r : Ret} (text : List ℕ)
      → MainReaches s opts opened ops budget line m
      → opts.ip ≢ 0
      → m.over ≡ false
      → client_line (drivers_of s) opts m.sock text m.world ≡ done r v
      → MainReaches s opts opened ops budget line (record m { world = v })
  thread_starts :
      {m : Machine} {n : ℕ}
      → MainReaches s opts opened ops budget line m
      → m.created ≡ suc n
      → MainReaches s opts opened ops budget line
          (record m { created = n; threads = m.arg.sock ∷ m.threads })
  thread_goes_on :
      {m : Machine} {v : World} (sock : ℕ) (before behind : List ℕ)
      → MainReaches s opts opened ops budget line m
      → m.threads ≡ before ++ sock ∷ behind
      → recv_round (drivers_of s) opts m.arg.echo sock m.world ≡ done true v
      → MainReaches s opts opened ops budget line (record m { world = v })
  thread_ends :
      {m : Machine} {v : World} (sock : ℕ) (before behind : List ℕ)
      → MainReaches s opts opened ops budget line m
      → m.threads ≡ before ++ sock ∷ behind
      → recv_round (drivers_of s) opts m.arg.echo sock m.world ≡ done false v
      → MainReaches s opts opened ops budget line
          (record m { world = v; threads = before ++ behind })
  reader_takes :
      {m : Machine} {v : World} (k : ℕ)
      → MainReaches s opts opened ops budget line m
      → serial_idle (client_of s) k s.before m.world ≡ done tt v
      → MainReaches s opts opened ops budget line (record m { world = v })
  client_quits :
      {m : Machine} {v : World} {r : Ret}
      → MainReaches s opts opened ops budget line m
      → opts.ip ≢ 0
      → m.over ≡ false
      → bos_close (drivers_of s) m.sock m.world ≡ done r v
      → MainReaches s opts opened ops budget line
          (record m { world = v; created = 0; threads = []; over = true })
