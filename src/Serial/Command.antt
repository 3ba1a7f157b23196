-- ===== src/Serial/Command.antt =====
-- The commands of esp01/serial.c.
use esp_hostdriver.Prelude.{ℕ, ◌+◌, Option, List, [], ◌∷◌, length}
use esp_hostdriver.Host.{CmdResult, inval, ok, err, busy, Cmd, pure, ◌>>=◌, ◌>>◌, get}
use esp_hostdriver.Host.Ret.{Ret, ret, fail}
use esp_hostdriver.Serial.Reader.{SerialClient, with_serial, write_line, read_until_signal}

-- `serial_cmd_start`
unfoldable pub serial_cmd_start : Option (List ℕ) → Cmd (Unit {0})
serial_cmd_start resp = with_serial (λ s. record s { cmd_result = inval; response = resp })

-- `serial_cmd_send`: an empty string writes nothing.
unfoldable pub serial_cmd_send : List ℕ → Cmd (Unit {0})
unfolding write_line
serial_cmd_send s = write_line s

-- `serial_cmd_send_char`
unfoldable pub serial_cmd_send_char : ℕ → Cmd (Unit {0})
unfolding write_line
serial_cmd_send_char c = write_line (c ∷ [])

-- `r == RES_OK ? 0 : -r`. No line stores `RES_BUSY`, whose -2 stands here as -1.
abbrev pub result_ret : CmdResult → Ret
result_ret ok = ret 0
result_ret inval = ret 1
result_ret err = fail
result_ret busy = fail

-- `serial_cmd_wait`
unfoldable pub serial_cmd_wait : SerialClient → List ℕ → Cmd Ret
unfolding write_line read_until_signal
serial_cmd_wait client before = do
  write_line (10 ∷ [])
  w ← get
  read_until_signal client (length w.serial.input + 1) before
  w ← get
  pure (result_ret w.serial.cmd_result)

-- `serial_cmd`
unfoldable pub serial_cmd : SerialClient → List ℕ → List ℕ → Option (List ℕ) → Cmd Ret
unfolding serial_cmd_start serial_cmd_send serial_cmd_wait
serial_cmd client before cmd resp = do
  serial_cmd_start resp
  serial_cmd_send cmd
  serial_cmd_wait client before
