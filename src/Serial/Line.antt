-- ===== src/Serial/Line.antt =====
-- How esp01/serial.c takes a line apart: strings in the line buffer, and numbers between commas.
pub mod Ipd
use esp_hostdriver.Prelude.{
  ℕ, zero, suc, ◌+◌, ◌-◌, ◌%◌, ◌^◌, ◌≡◌, Bool, true, false, ◌&&◌, ◌||◌, Option, none, some, List,
  [], ◌∷◌, ◌++◌, ◌==◌, ltb, if◌then◌else◌, length, take, drop, get_or, set, leb,
}
use esp_hostdriver.Prelude.Codes.{codes}
use esp_hostdriver.Libc.Decimal.{atoi}
use esp_hostdriver.Libc.Strings.{strn_eq}
use esp_hostdriver.Inet.{inet_addr}
use esp_hostdriver.Host.{SockAddr}

-- The size of `line` in `read_thread`.
abbrev pub line_size : ℕ
line_size = 64

-- `if(i + 1 < 64) line[i++] = c`
abbrev pub push_byte : List ℕ → ℕ → List ℕ
push_byte line c = if ltb (length line + 1) line_size then line ++ c ∷ [] else line

-- The bytes before the first 0: the string at the start of some memory.
abbrev pub c_string : List ℕ → List ℕ
c_string [] = []
c_string (c ∷ cs) = if c == 0 then [] else c ∷ c_string cs

-- The string at `line + i`, where `line[length line]` is 0.
abbrev pub string_at : List ℕ → ℕ → List ℕ
string_at line i = c_string (drop i line)

-- `while(line[len] != ',' && len > 0) len--`: where it stops.
unfoldable pub back_to_comma : List ℕ → ℕ → ℕ
back_to_comma line zero = 0
back_to_comma line (suc k) =
    let before = back_to_comma line k in if get_or line (suc k) 0 == b',' then suc k else before

-- `while(line[i] != ',' && i < len) i++`: the bytes in front of where it stops.
unfoldable pub until_comma : List ℕ → List ℕ
until_comma [] = []
until_comma (c ∷ cs) = if c == b',' then [] else c ∷ until_comma cs

-- What `recv` reads out of its line.
pub record IpdHeader : Type 0 where
  pub link_id : ℕ
  pub count : ℕ
  pub remote : SockAddr

-- `(size_t)n` of an int, given as its bits.
abbrev pub size_of_int : ℕ → ℕ
size_of_int n = if leb (2 ^ 31) n then n + (2 ^ 64 - 2 ^ 32) else n

-- The first part of `recv`: the four numbers behind the last four commas. A `uint16_t` holds the
-- port.
unfoldable pub parse_ipd : List ℕ → IpdHeader
unfolding back_to_comma
parse_ipd line =
    let i = back_to_comma line (length line) in
    let line1 = set line i 0 in
    let j = back_to_comma line1 i in
    let line2 = set line1 j 0 in
    let k = back_to_comma line2 j in
    let line3 = set line2 k 0 in
    let l = back_to_comma line3 k in
    record {
      link_id = atoi (string_at line3 (l + 1));
      count = size_of_int (atoi (string_at line2 (k + 1)));
      remote = record {
        domain = 0;
        inet = record {
          addr = inet_addr (string_at line1 (j + 1));
          port = atoi (string_at line (i + 1)) % 2 ^ 16;
        };
      };
    }

-- The kinds of line that `parse_line` tells apart.
pub data LineKind : Type 0 where
  connect closed other : LineKind

-- The comparisons at `line + len - 9` and `line + len - 8`. In a line that is shorter they read in
-- front of the buffer: `before` are the bytes there.
unfoldable pub line_kind : List ℕ → List ℕ → LineKind
line_kind before line =
    let memory = before ++ line in
    if strn_eq (drop (length memory - 9) memory) (codes ",CONNECT") 8
    then LineKind.connect
    else if strn_eq (drop (length memory - 8) memory) (codes ",CLOSED") 7
    then LineKind.closed
    else LineKind.other

-- `line + 20` up to the quote: `i` counts from 20 on. None if no quote follows in the line, where the
-- code reads on behind it.
unfoldable pub until_quote : List ℕ → Option (List ℕ)
until_quote [] = none
until_quote (c ∷ cs) =
    if c == b'"' then some [] else elim (until_quote cs) [ none ↦ none | some s ↦ some (c ∷ s) ]

-- What `accept` reads out of an answer to `AT+CIPSTATUS`: the address, the port, and how far `line`
-- moves.
unfoldable pub parse_status : List ℕ → Option (SockAddr × ℕ)
unfolding until_quote until_comma
parse_status line = elim (until_quote (drop 20 line)) [
  | none ↦ none
  | some ip ↦
      let moved = 20 + length ip + 2 in
      some (
        record {
          domain = 0;
          inet = record {
            addr = inet_addr ip;
            port = atoi (until_comma (drop moved line)) % 2 ^ 16;
          };
        },
        moved,
      )
]
