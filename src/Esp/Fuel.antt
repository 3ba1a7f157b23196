-- ===== src/Esp/Fuel.antt =====
-- The loops of esp01/serial.c that wait for the device, with the callbacks of esp01/esp01.c.
use esp_hostdriver.Prelude.{ℕ, ◌<◌, List, length, ◌≤◌}
use esp_hostdriver.Host.{Ptr, SockAddr, World}
use esp_hostdriver.Serial.Reader.{read_until_signal, accept_loop}
use esp_hostdriver.Serial.Frame.{ClientKeeps}
use esp_hostdriver.Serial.Fuel.{
  InputWithin, InputWithin-IsStable, Reads, Lists, read_until_signal-Reads, accept_loop-Lists,
}
use esp_hostdriver.Esp.Notice.{esp_client}
use esp_hostdriver.Esp.Frame.{Keeps-esp_client}

-- `read_thread`, until it signals a command, and the loop of `accept` run as the relations without fuel
-- say, whatever the fuel above the number of the bytes to come, and take at most that many rounds: a
-- loop waits only where no byte is left or within a round, never for want of fuel.
pub loops-Rounds :
    (idx : ℕ) (junk : SockAddr) (dev : Ptr) (before link_id cur : List ℕ) (base k : ℕ) (w : World)
    → length w.serial.input < k
    → let client = esp_client idx junk dev in
      ((n : ℕ) × (n ≤ length w.serial.input)
        × Reads client before w n (read_until_signal client k before w))
      × ((n : ℕ) × (n ≤ length w.serial.input)
          × Lists client link_id w base cur n (accept_loop client k link_id base cur w))
loops-Rounds idx junk dev before link_id cur base k w h =
    let quiet : (n : ℕ) → ClientKeeps (InputWithin n) (esp_client idx junk dev) =
      λ n. Keeps-esp_client (InputWithin-IsStable n) idx junk dev in
    (read_until_signal-Reads quiet before k w h, accept_loop-Lists quiet link_id k w base cur h)
