-- ===== src/Esp/Init/Frame.antt =====
-- `esp01_init` keeps the reference counts of bos/fs.c sound.
use esp_hostdriver.Prelude.{ℕ, Bool, none, some, List, ◌==◌}
use esp_hostdriver.Prelude.Codes.{codes}
use esp_hostdriver.Inet.{InetDevCfg}
use esp_hostdriver.Host.{Ptr, Filed, World, pure}
use esp_hostdriver.Host.Partial.{
  if_done, Keeps, Keeps-pure, Keeps-fault, Keeps-if, Keeps-bind, Keeps-then,
}
use esp_hostdriver.Host.Ret.{Ret, ret, fail}
use esp_hostdriver.Host.Stable.{Keeps-malloc, Keeps-store_esp}
use esp_hostdriver.Bos.Sound.{Sound, Sound-IsStable}
use esp_hostdriver.Net.Sound.Setup.{Keeps-netdev_register, Keeps-netdev_release}
use esp_hostdriver.Serial.Frame.{ClientKeeps, Keeps-serial_cmd}
use esp_hostdriver.Esp.Init.{no_client, free_esp, esp01_init}

Keeps-no_client : {I : World → Type 0} → ClientKeeps I no_client
Keeps-no_client = record {
  recv_keeps = λ link_id payload from. Keeps-fault;
  accept_keeps = λ link_id from. Keeps-fault;
  closed_keeps = λ link_id. Keeps-fault;
}

module _ {P : List Filed → Type 0} where
  Keeps-free_esp : (p : Ptr) → Keeps (Sound P) (free_esp p)
  unfolding free_esp
  Keeps-free_esp p = record { keeps = λ w s. if_done (Sound-IsStable.on_esps _ s) }

  pub Keeps-esp01_init :
      (opened : Bool) (zeroed : InetDevCfg) (ops : ℕ) (before : List ℕ)
      → Keeps (Sound P) (esp01_init opened zeroed ops before)
  unfolding esp01_init
  Keeps-esp01_init opened zeroed ops before =
      Keeps-if opened
        (Keeps-bind (Keeps-malloc Sound-IsStable) (λ esp. Keeps-if (esp == 0) none_made (
          Keeps-then (Keeps-store_esp Sound-IsStable esp _) (
            Keeps-bind (Keeps-netdev_register zeroed ops 0 esp) (λ dev.
              Keeps-if (dev == 0) (Keeps-then (Keeps-free_esp esp) none_made) (
                Keeps-bind
                  (Keeps-serial_cmd Sound-IsStable Keeps-no_client before (codes "AT+RST")
                    (some (codes "ready")))
                  (λ r1.
                    Keeps-bind
                      (Keeps-serial_cmd Sound-IsStable Keeps-no_client before (codes "AT+CIPMUX=1")
                        none)
                      (λ r2. Keeps-if _ (made dev) (
                        Keeps-then (Keeps-then (Keeps-netdev_release dev) (Keeps-free_esp esp))
                          none_made)))))))))
        none_made
    where
      none_made : Keeps {A = Ret × Ptr} (Sound P) (pure (fail, 0))
      none_made = Keeps-pure (fail, 0)

      made : (dev : Ptr) → Keeps {A = Ret × Ptr} (Sound P) (pure (ret 0, dev))
      made dev = Keeps-pure (ret 0, dev)
