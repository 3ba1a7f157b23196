-- ===== src/Opt.antt =====
-- main/opt.c: the options of the command line.
pub mod Connection
pub mod Last
mod Tests
use esp_hostdriver.Prelude.{
  ℕ, zero, suc, ◌+◌, ◌-◌, ◌^◌, ◌≡◌, Bool, true, false, Option, none, some, List, [], ◌∷◌, ◌++◌,
  ◌==◌, ltb, if◌then◌else◌, length, take, drop, get_or, replicate,
}
use esp_hostdriver.Prelude.Codes.{codes}
use esp_hostdriver.Libc.Decimal.{atoi, print_d}
use esp_hostdriver.Libc.Strings.{str_eq}
use esp_hostdriver.Inet.{Mode, inet_addr}
use esp_hostdriver.Host.{SockType, stream, dgram}

-- `opt_t`; `port` is the bit pattern of an `int`.
pub record Opts : Type 0 where
  pub dev_mode : Mode
  pub ty : SockType
  pub ssid : List ℕ
  pub password : List ℕ
  pub ip : ℕ
  pub port : ℕ
  pub esp_debug : Bool

-- The loop over `optarg` from its end: the index of the last colon, or 0. A colon at index 0 is not
-- looked at.
unfoldable pub last_colon : List ℕ → ℕ → ℕ
last_colon s zero = 0
last_colon s (suc i) =
    let before = last_colon s i in if get_or s (suc i) 0 == b':' then suc i else before

-- The case `'c'`: the address and the port. Without a colon the address stays what it was.
unfoldable pub parse_connection : ℕ → List ℕ → ℕ × ℕ
unfolding last_colon
parse_connection ip s =
    let i = last_colon s (length s) in
    if i == 0 then (ip, atoi s) else (inet_addr (take i s), atoi (drop (i + 1) s))

-- `opts` at the start of the program.
unfoldable pub default_opts : Opts
default_opts = record {
  dev_mode = Mode.ap;
  ty = stream;
  ssid = codes "mainart";
  password = codes "deadbeef";
  ip = 0;
  port = 0;
  esp_debug = false;
}

-- The end of the program in `help`: what it writes to stderr and stdout, and the bit pattern of the
-- argument of `exit`.
pub record Help : Type 0 where
  pub err : List ℕ
  pub out : List ℕ
  pub code : ℕ

-- `"    %-25s    %s\n"`
unfoldable pub option_row : List ℕ → List ℕ → List ℕ
option_row opt text =
    codes "    " ++ opt ++ replicate (25 - length opt) b' ' ++ codes "    " ++ text ++ codes "\n"

-- The rows that are printed. The format has six of them, and takes no notice of the last two arguments.
unfoldable pub option_rows : List ℕ
unfolding option_row
option_rows =
    option_row (codes "-m, --dev-mode=<mode>") (codes "esp01 mode (client or ap)")
    ++ option_row (codes "-t, --type=<type>") (codes "socket type (dgram or stream)")
    ++ option_row (codes "-s, --ssid=<ssid>") (codes "ssid")
    ++ option_row (codes "-p, --pw=<password>") (codes "password")
    ++ option_row (codes "-c, --connection=<ip>:<port> | <port>")
        (codes "connect to <ip>:<port> or start server on <port>")
    ++ option_row (codes "-d, --esp-debug") (codes "print the esp output")

-- `help`, with the message as `vfprintf` formats it.
unfoldable pub help : List ℕ → Option (List ℕ) → Help
unfolding option_rows
help prog_name msg =
    let usage = codes "usage: " ++ prog_name ++ codes " [<options>]\n\nOptions:\n" ++ option_rows in
    elim msg [
      | none ↦ record { err = []; out = usage; code = 0 }
      | some text ↦ record { err = text ++ codes "\n\n"; out = usage; code = 2 ^ 32 - 1 }
    ]

-- What `parse_opt` comes to: the options, or the end of the program.
pub data Parsed : Type 0 where
  parsed : Opts → Parsed
  stopped : Help → Parsed

-- A call of `help` with a message.
abbrev pub stop : List ℕ → List ℕ → Parsed
stop prog_name text = stopped (help prog_name (some text))

unfoldable pub quoted : List ℕ → List ℕ → List ℕ
quoted text arg = text ++ codes " \"" ++ arg ++ codes "\""

-- The switch of `parse_opt` for an option that `getopt_long` returns and `optarg`, which `printf` writes
-- as `(null)` if there is none.
unfoldable pub apply_opt : List ℕ → Opts → ℕ → List ℕ → Parsed
unfolding parse_connection help quoted
apply_opt prog o opt arg =
    if opt == b'm'
    then if str_eq arg (codes "ap")
      then parsed (record o { dev_mode = Mode.ap })
      else if str_eq arg (codes "client")
      then parsed (record o { dev_mode = Mode.client })
      else stop prog (quoted (codes "invalid device mode") arg)
    else if opt == b't'
    then if str_eq arg (codes "dgram")
      then parsed (record o { ty = dgram })
      else if str_eq arg (codes "stream")
      then parsed (record o { ty = stream })
      else stop prog (quoted (codes "invalid type") arg)
    else if opt == b's'
    then parsed (record o { ssid = arg })
    else if opt == b'p'
    then parsed (record o { password = arg })
    else if opt == b'c'
    then parsed
        (record o { ip = (parse_connection o.ip arg).0; port = (parse_connection o.ip arg).1 })
    else if opt == b'd'
    then parsed (record o { esp_debug = true })
    else if opt == b'h'
    then stop prog []
    else stop prog (quoted (codes "invalid argument") arg)

-- The loop of `parse_opt` over the options.
unfoldable pub apply_opts : List ℕ → Opts → List (ℕ × List ℕ) → Parsed
apply_opts prog o [] = parsed o
apply_opts prog o ((opt, arg) ∷ rest) = elim (apply_opt prog o opt arg) [
  | parsed o' ↦ apply_opts prog o' rest
  | stopped h ↦ stopped h
]

-- The tests behind the loop, with the number of arguments that `getopt_long` leaves.
unfoldable pub check_opts : List ℕ → Opts → ℕ → Parsed
unfolding help
check_opts prog o left =
    if ltb 0 left
    then stop prog (print_d left ++ codes " unknown argument(s):")
    else if o.port == 0
    then stop prog (codes "invalid connection configuration")
    else parsed o

-- `parse_opt`, with the options that `getopt_long` finds.
unfoldable pub parse_opt : List ℕ → List (ℕ × List ℕ) → ℕ → Parsed
unfolding apply_opts apply_opt check_opts default_opts
parse_opt prog found left = elim (apply_opts prog default_opts found) [
  | parsed o ↦ check_opts prog o left
  | stopped h ↦ stopped h
]
