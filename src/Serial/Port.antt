-- ===== src/Serial/Port.antt =====
-- `serial_init` and `serial_close` of esp01/serial.c over what they change outside: the terminal's
-- attributes, open files, threads and memory. What the operating system answers is `Os`.
pub mod Restore
mod Tests
use Prim.Native.Nat.{bit_or}
use esp_hostdriver.Prelude.{
  ℕ, ◌+◌, ◌-◌, Bool, true, false, ◌&&◌, Option, none, some, List, [], ◌∷◌, ◌==◌, if◌then◌else◌,
}
use esp_hostdriver.Libc.Files.{close_file}

-- The members of `struct termios` that the code sets, and the speed.
pub record Termios : Type 0 where
  pub iflag : ℕ
  pub oflag : ℕ
  pub cflag : ℕ
  pub lflag : ℕ
  pub speed : ℕ

-- Outside of the program: the terminal's attributes, the open files, how many reader threads run, and
-- how many of the program's `serial_t` are allocated.
pub record Port : Type 0 where
  pub attr : Termios
  pub files : List ℕ
  pub threads : ℕ
  pub devs : ℕ

-- What the calls answer: whether there is memory, the file that `open` returns or none for -1, whether
-- this is a terminal, whether a terminal takes the new attributes and takes its old ones back, and
-- whether a thread can be created.
pub record Os : Type 0 where
  pub memory : Bool
  pub file : Option ℕ
  pub is_tty : Bool
  pub takes : Bool
  pub takes_back : Bool
  pub thread : Bool

-- `serial_t` after `serial_init`.
pub record SerialDev : Type 0 where
  pub fd : ℕ
  pub term_attr : Termios

-- `tcsetattr`, which fails on what is no terminal.
abbrev pub tcsetattr : Bool → Termios → Port → Bool × Port
tcsetattr taken attr p = if taken then (true, record p { attr = attr }) else (false, p)

-- The attributes that are set: `IXON | ICRNL | IGNCR`, `ONLCR | OPOST`, `CBAUDEX | CLOCAL | HUPCL |
-- CREAD | CS8` without `PARENB` and `CSTOPB`, and `IEXTEN | ECHOE | ECHOCTL | ECHOK | ISIG`, with the
-- values of Linux, at 115200 baud.
unfoldable pub line_attr : Termios
line_attr = record {
  iflag = bit_or (bit_or 0x400 0x100) 0x80;
  oflag = bit_or 0x4 0x1;
  cflag = bit_or (bit_or (bit_or (bit_or 0x1000 0x800) 0x400) 0x80) 0x30;
  lflag = bit_or (bit_or (bit_or (bit_or 0x8000 0x10) 0x200) 0x20) 0x1;
  speed = 115200;
}

-- The label `err_2`: the attributes in `term_attr` go back, and the file is closed. `dev` is not freed.
unfoldable pub give_up : Os → SerialDev → Port → Option SerialDev × Port
give_up os dev p =
    let (_, p1) = tcsetattr (os.is_tty && os.takes_back) dev.term_attr p in
    (none, record p1 { files = close_file dev.fd p1.files })

-- `serial_init`: the device, or none for null. `junk` is what `malloc` left in `term_attr`.
unfoldable pub serial_init : Os → Termios → Port → Option SerialDev × Port
unfolding line_attr give_up
serial_init os junk p =
    if os.memory
    then (let p1 : Port = record p { devs = p.devs + 1 } in
        elim os.file [
          | none ↦ (none, p1)
          | some fd ↦
              (let p2 : Port = record p1 { files = fd ∷ p1.files } in
                if os.is_tty
                then (let dev : SerialDev = record { fd = fd; term_attr = p2.attr } in
                    let (taken, p3) = tcsetattr os.takes line_attr p2 in
                    if taken
                    then if os.thread
                      then (some dev, record p3 { threads = p3.threads + 1 })
                      else give_up os dev p3
                    else give_up os dev p3)
                else give_up os (record { fd = fd; term_attr = junk }) p2)
        ])
    else (none, p)

-- `serial_close`. The file stays open.
unfoldable pub serial_close : Os → SerialDev → Port → Port
serial_close os dev p =
    let (_, p1) = tcsetattr (os.is_tty && os.takes_back) dev.term_attr p in
    record p1 { threads = p1.threads - 1; devs = p1.devs - 1 }

-- What `esp01_init` does to the port, the rest of it succeeding or not: whether it succeeds, and the
-- port then.
unfoldable pub esp01_port : Os → Termios → Bool → Port → Bool × Port
unfolding serial_init serial_close
esp01_port os junk rest_ok p =
    let (made, p1) = serial_init os junk p in
    elim made [
      | none ↦ (false, p1)
      | some dev ↦ if rest_ok then (true, p1) else (false, serial_close os dev p1)
    ]
