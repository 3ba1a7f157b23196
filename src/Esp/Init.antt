-- ===== src/Esp/Init.antt =====
-- `esp01_init` of esp01/esp01.c.
pub mod Frame
pub mod Result
mod Tests
use esp_hostdriver.Prelude.{ℕ, Bool, none, some, List, ◌==◌, if◌then◌else◌, replicate}
use esp_hostdriver.Prelude.Codes.{codes}
use esp_hostdriver.Inet.{InetDevCfg}
use esp_hostdriver.Host.{Ptr, Cmd, pure, fault, done, ◌>>=◌, ◌>>◌, malloc, store_esp, update}
use esp_hostdriver.Host.Ret.{Ret, ret, fail, or_ret, is_zero}
use esp_hostdriver.Net.Device.{netdev_register, netdev_release}
use esp_hostdriver.Serial.Reader.{SerialClient}
use esp_hostdriver.Serial.Command.{serial_cmd}
use esp_hostdriver.Esp.Links.{nlinks}

-- The callbacks before they are set: a call through a null pointer.
abbrev pub no_client : SerialClient
no_client = record {
  on_recv = λ link_id payload remote. λ w. fault;
  on_accept = λ link_id remote. λ w. fault;
  on_closed = λ link_id. λ w. fault;
}

-- `free(esp)`
unfoldable pub free_esp : Ptr → Cmd (Unit {0})
free_esp p w = done tt (record w { esps = update w.esps p none })

-- `esp01_init`: the result, and the device that the callbacks get. `opened` is whether `serial_init`
-- opened the line, and `ops` the number of the table of operations.
unfoldable pub esp01_init : Bool → InetDevCfg → ℕ → List ℕ → Cmd (Ret × Ptr)
unfolding free_esp
esp01_init opened zeroed ops before =
    if opened
    then (do
      esp ← malloc
      if esp == 0 then pure (fail, 0) else (do
        store_esp esp (record { links = replicate nlinks 0; tcp_server = 0 })
        dev ← netdev_register zeroed ops 0 esp
        if dev == 0 then free_esp esp >> pure (fail, 0) else (do
          r1 ← serial_cmd no_client before (codes "AT+RST") (some (codes "ready"))
          r2 ← serial_cmd no_client before (codes "AT+CIPMUX=1") none
          if is_zero (or_ret (or_ret (ret 0) r1) r2)
              then pure (ret 0, dev)
              else netdev_release dev >> free_esp esp >> pure (fail, 0))))
    else pure (fail, 0)
