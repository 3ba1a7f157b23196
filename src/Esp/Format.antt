-- ===== src/Esp/Format.antt =====
-- `send_cmd` of esp01/esp01.c: a command from a format and its arguments.
pub mod Text
use esp_hostdriver.Prelude.{
  ℕ, ◌+◌, ◌≡◌, Option, none, some, List, [], ◌∷◌, ◌++◌, Bool, ◌||◌, ◌==◌, if◌then◌else◌,
}
use esp_hostdriver.Libc.Decimal.{print_d}
use esp_hostdriver.Libc.Strings.{cut}
use esp_hostdriver.Inet.{inet_ntoa}
use esp_hostdriver.Host.{Cmd, pure, ◌>>=◌, ◌>>◌, fault, expect}
use esp_hostdriver.Host.Ret.{Ret}
use esp_hostdriver.Serial.Reader.{SerialClient}
use esp_hostdriver.Serial.Command.{
  serial_cmd_start, serial_cmd_send, serial_cmd_send_char, serial_cmd_wait,
}

-- The arguments behind the format: what a pointer to an address, a `char*` or an `int` stands for.
pub data Arg : Type 0 where
  addr : ℕ → Arg
  str : List ℕ → Arg
  int : ℕ → Arg

-- The conversions `%a`, `%s` and `%d`.
abbrev pub takes_arg : ℕ → Bool
takes_arg k = k == b'a' || k == b's' || k == b'd'

-- What a conversion sends for its argument. An argument of another type than `va_arg` is told is none.
unfoldable pub arg_text : ℕ → Arg → Option (List ℕ)
arg_text k (addr a) = if k == b'a' then some (inet_ntoa a 15) else none
arg_text k (str s) = if k == b's' then some s else none
arg_text k (int n) = if k == b'd' then some (cut 16 (print_d n)) else none

-- The cases of the switch: what is left of the arguments. No argument, or one of another type, is a
-- fault.
unfoldable pub convert : ℕ → List Arg → Cmd (List Arg)
unfolding arg_text
convert k [] = if takes_arg k then (λ _. fault) else (do serial_cmd_send_char k; pure [])
convert k (x ∷ xs) =
    if takes_arg k
    then (do text ← expect (arg_text k x); serial_cmd_send text; pure xs)
    else (do serial_cmd_send_char k; pure (x ∷ xs))

-- The loop over the format.
unfoldable pub send_format : List ℕ → List Arg → Cmd (Unit {0})
unfolding convert
send_format [] args = pure tt
send_format (c ∷ []) args = if c == b'%' then pure tt else serial_cmd_send_char c
send_format (c ∷ k ∷ fmt) args =
    let converted = convert k args >>= send_format fmt in
    let plain = serial_cmd_send_char c >> send_format (k ∷ fmt) args in
    if c == b'%' then converted else plain

-- `send_cmd`
unfoldable pub send_cmd : SerialClient → List ℕ → Option (List ℕ) → List ℕ → List Arg → Cmd Ret
unfolding send_format serial_cmd_start serial_cmd_wait
send_cmd client before resp fmt args = do
  serial_cmd_start resp
  send_format fmt args
  serial_cmd_wait client before
