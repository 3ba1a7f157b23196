-- ===== src/Serial/Port/Tests.antt =====
-- A terminal at which no reader thread can be created, and one that answers no command.
use esp_hostdriver.Prelude.{refl, true, false, some, [], ◌∷◌}
use esp_hostdriver.Serial.Port.{Termios, Port, Os, esp01_port}
use esp_hostdriver.Serial.Port.Restore.{Ended, esp01_port-Ended}

abbrev console : Termios
console = record { iflag = 0x500; oflag = 5; cflag = 0xbf; lflag = 0x8a3b; speed = 38400 }

abbrev idle_port : Port
idle_port = record { attr = console; files = 0 ∷ 1 ∷ 2 ∷ []; threads = 0; devs = 0 }

abbrev usual : Os
usual = record {
  memory = true;
  file = some 3;
  is_tty = true;
  takes = true;
  takes_back = true;
  thread = true;
}

esp01_port-Ended_example :
    Ended usual idle_port false
      (esp01_port usual console false idle_port).0
      (esp01_port usual console false idle_port).1
esp01_port-Ended_example = esp01_port-Ended console idle_port usual false refl
