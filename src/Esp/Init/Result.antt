-- ===== src/Esp/Init/Result.antt =====
-- `esp01_init` of esp01/esp01.c with memory for its two objects: what it makes, and what it leaves when
-- the device refuses a command.
use esp_hostdriver.Prelude.{
  ℕ, suc, ◌+◌, ◌<◌, ◌≡◌, ◌≢◌, refl, sym, ◌&&◌, false, Bool, if◌then◌else◌, ◌∙◌, ap, inl, inr,
  Bool-cases, true, Option, none, some, List, [], ◌∷◌, ◌++◌, All, arith, ◌==◌, ==_ne, ==_self,
  eq_of_==, replicate,
}
use esp_hostdriver.Prelude.Codes.{codes}
use esp_hostdriver.Inet.{InetDevCfg}
use esp_hostdriver.Host.{
  Ptr, CmdResult, inval, ok, err, busy, Netdev, Esp, World, done, update, list_rm, malloc,
  store_esp, pure, ◌>>◌,
}
use esp_hostdriver.Host.Ret.{Ret, ret, fail, or_ret, is_zero}
use esp_hostdriver.Net.Device.{netdev_register, netdev_release, domain_cfg, no_cfg}
use esp_hostdriver.Serial.Reader.{SerialClient}
use esp_hostdriver.Serial.Command.{serial_cmd, serial_cmd_start, serial_cmd_send, result_ret}
use esp_hostdriver.Serial.Reply.{serial_cmd_wait-answer}
use esp_hostdriver.Esp.Links.{nlinks}
use esp_hostdriver.Esp.Driver.Answer.{answered, IsComing}
use esp_hostdriver.Esp.Init.{no_client, free_esp, esp01_init}

serial_cmd-answer :
    (client : SerialClient) (before : List ℕ) {w : World} {r : CmdResult} {rest : List ℕ}
    (text : List ℕ) (resp : Option (List ℕ))
    → IsComing client before w resp r rest
    → serial_cmd client before text resp w ≡ done (result_ret r) (answered w resp text r rest)
unfolding serial_cmd serial_cmd_start serial_cmd_send
serial_cmd-answer client before {w} {r} {rest} text resp c =
    let v : World = record w {
      serial = record w.serial {
        cmd_result = inval;
        response = resp;
        output = w.serial.output ++ text;
      };
    } in
    rw
      (serial_cmd_wait-answer client before c.skipped c.answer rest r v c.ignored c.answers c.start
        c.coming)
      refl

update-restore :
    {A : Type 0} (f : Ptr → Option A) (p : Ptr) (c : Option A)
    → f p ≡ none
    → update (update f p c) p none ≡ f
update-restore f p c free = λ i q. at q i
  where
    at : (q : Ptr) → update (update f p c) p none q ≡ f q
    at q = elim (Bool-cases (p == q)) [
      | inl e ↦ rw e (sym free ∙ ap f (eq_of_== p q e))
      | inr e ↦ rw e refl
    ]

list_rm-last : (p : Ptr) (qs : List Ptr) → All (λ q. q ≢ p) qs → list_rm p (qs ++ p ∷ []) ≡ qs
list_rm-last p [] h = rw (==_self p) refl
list_rm-last p (q ∷ qs) (h, hs) = rw (==_ne q p h) (ap (λ l. q ∷ l) (list_rm-last p qs hs))

abbrev pub new_esp : Esp
new_esp = record { links = replicate nlinks 0; tcp_server = 0 }

abbrev pub new_dev : InetDevCfg → ℕ → Ptr → Netdev
new_dev zeroed ops p = record { domain = 0; ops = ops; data' = p; cfg = no_cfg zeroed }

abbrev pub is_ok : CmdResult → Bool
is_ok ok = true
is_ok inval = false
is_ok err = false
is_ok busy = false

is_zero-is_ok :
    (r1 r2 : CmdResult)
    → is_zero (or_ret (or_ret (ret 0) (result_ret r1)) (result_ret r2)) ≡ (is_ok r1 && is_ok r2)
is_zero-is_ok ok ok = refl
is_zero-is_ok ok inval = refl
is_zero-is_ok ok err = refl
is_zero-is_ok ok busy = refl
is_zero-is_ok inval ok = refl
is_zero-is_ok inval inval = refl
is_zero-is_ok inval err = refl
is_zero-is_ok inval busy = refl
is_zero-is_ok err r2 = refl
is_zero-is_ok busy r2 = refl

-- The state with the device and the driver's state, and memory for `b` more objects.
abbrev pub registered : InetDevCfg → ℕ → World → ℕ → World
registered zeroed ops w b = record w {
  fresh = w.fresh + 1 + 1;
  budget = b;
  esps = update w.esps w.fresh (some new_esp);
  devs = update w.devs (w.fresh + 1) (some (new_dev zeroed ops w.fresh));
  dev_lst = w.dev_lst ++ (w.fresh + 1) ∷ [];
}

-- The state without them, but for the memory that `malloc` has given.
abbrev pub given_back : World → ℕ → World
given_back w b = record w { fresh = w.fresh + 1 + 1; budget = b }

-- The state behind the two commands.
abbrev pub initialised : World → CmdResult → List ℕ → CmdResult → List ℕ → World
initialised v r1 rest1 r2 rest2 =
    answered (answered v (some (codes "ready")) (codes "AT+RST") r1 rest1) none
      (codes "AT+CIPMUX=1") r2 rest2

-- Nothing of the program has the two addresses that `malloc` will return.
pub record IsFresh (w : World) : Type 0 where
  pub no_driver : w.esps w.fresh ≡ none
  pub no_device : w.devs (w.fresh + 1) ≡ none
  pub not_listed : All (λ q. q ≢ w.fresh + 1) w.dev_lst

module _ (zeroed : InetDevCfg) (ops : ℕ) (before : List ℕ) (w : World) (b : ℕ)
    (room : w.budget ≡ suc (suc b)) (pos : 0 < w.fresh) where
  -- `esp01_init` with an open line and memory for its two objects, when the answers to `AT+RST` and
  -- `AT+CIPMUX=1` are on their way: it sends both commands, the second also if the first failed. If
  -- both answers are good, the device is registered at the end of the list, with a driver's state
  -- without links, and the call returns 0; else it returns -1, and nothing of the device and the
  -- driver's state is left.
  pub esp01_init_lem :
      (r1 r2 : CmdResult) (rest1 rest2 : List ℕ)
      → IsFresh w
      → IsComing no_client before w (some (codes "ready")) r1 rest1
      → IsComing no_client before (answered w (some (codes "ready")) [] r1 rest1) none r2 rest2
      → esp01_init true zeroed ops before w ≡ (
          if is_ok r1 && is_ok r2
          then done (ret 0, w.fresh + 1) (initialised (registered zeroed ops w b) r1 rest1 r2 rest2)
          else done (fail, 0) (initialised (given_back w b) r1 rest1 r2 rest2))
  unfolding esp01_init malloc store_esp netdev_register netdev_release domain_cfg free_esp
  esp01_init_lem r1 r2 rest1 rest2 f c1 c2 =
      let first : w.fresh ≢ 0 = λ e. omega arith in
      let second : w.fresh + 1 ≢ 0 = λ e. omega arith in
      rw room (
        rw (==_ne w.fresh 0 first, ==_ne (w.fresh + 1) 0 second)
          (rw (==_ne (w.fresh + 1) 0 second) (
            rw (serial_cmd-answer no_client before _ _ c1')
              (rw (serial_cmd-answer no_client before _ _ c2') (rw (is_zero-is_ok r1 r2) end)))))
    where
      c1' : IsComing no_client before (registered zeroed ops w b) (some (codes "ready")) r1 rest1
      c1' = record {
        skipped = c1.skipped;
        answer = c1.answer;
        ignored = c1.ignored;
        answers = c1.answers;
        start = c1.start;
        coming = c1.coming;
      }

      c2' :
          IsComing no_client before
            (answered (registered zeroed ops w b) (some (codes "ready")) (codes "AT+RST") r1 rest1)
            none
            r2
            rest2
      c2' = record {
        skipped = c2.skipped;
        answer = c2.answer;
        ignored = c2.ignored;
        answers = c2.answers;
        start = c2.start;
        coming = c2.coming;
      }

      end :
          (if is_ok r1 && is_ok r2
              then pure {A = Ret × Ptr} (ret 0, w.fresh + 1)
              else (netdev_release (w.fresh + 1)
                  >> free_esp w.fresh
                  >> pure {A = Ret × Ptr} (fail, 0)))
            (initialised (registered zeroed ops w b) r1 rest1 r2 rest2)
          ≡ (if is_ok r1 && is_ok r2
              then done
                  (ret 0, w.fresh + 1)
                  (initialised (registered zeroed ops w b) r1 rest1 r2 rest2)
              else done (fail, 0) (initialised (given_back w b) r1 rest1 r2 rest2))
      end = elim (Bool-cases (is_ok r1 && is_ok r2)) [
        | inl e ↦ rw e refl
        | inr e ↦ rw e (
            rw
              (
                list_rm-last (w.fresh + 1) w.dev_lst f.not_listed,
                update-restore w.devs (w.fresh + 1) (some (new_dev zeroed ops w.fresh)) f.no_device,
                update-restore w.esps w.fresh (some new_esp) f.no_driver,
              )
              refl)
      ]
