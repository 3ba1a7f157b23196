-- ===== src/Inet/RoundTrip.antt =====
-- `inet_addr` and `inet_ntoa` of net/inet.c together.
use esp_hostdriver.Prelude.{
  ℕ, ◌+◌, ◌-◌, ◌*◌, ◌/◌, ◌%◌, ◌^◌, ◌≤◌, ◌<◌, ◌≡◌, ◌≢◌, refl, sym, ◌∙◌, ap, ap₂, List, [], ◌∷◌, ◌++◌,
  append_assoc, append-nil, arith, length, length-append, take-length, take-append, All,
}
use esp_hostdriver.Prelude.Bits.{bit_or-double, byte_of_word, double}
use Prim.Native.Nat.{bit_or}
use esp_hostdriver.Libc.Decimal.{
  print_d, IsDigit, print_d-IsDigit, atoi-print_d, length-print_d-le, length-print_d-ge,
  length-print_d-pos, print_d-div,
}
use esp_hostdriver.Libc.Strings.{tokens, tokens-append, flush}
use esp_hostdriver.Inet.{add_token, inet_addr, bits8, dotted, inet_ntoa}

digits_no_dot : (s : List ℕ) → All IsDigit s → All (λ c. c ≢ b'.') s
digits_no_dot [] h = tt
digits_no_dot (c ∷ s) h = let digit : b'0' ≤ c = h.0.0 in (omega arith, digits_no_dot s h.1)

flush_pos : (s : List ℕ) (ts : List (List ℕ)) → 0 < length s → flush s ts ≡ s ∷ ts
flush_pos [] ts h = elim h [ ]
flush_pos (c ∷ s) ts h = refl

tokens-print_d :
    (n : ℕ) (s : List ℕ) → tokens b'.' [] (print_d n ++ b'.' ∷ s) ≡ print_d n ∷ tokens b'.' [] s
unfolding tokens
tokens-print_d n s =
    tokens-append b'.' [] (print_d n) (b'.' ∷ s) (digits_no_dot (print_d n) (print_d-IsDigit n))
    ∙ flush_pos (print_d n) (tokens b'.' [] s) (length-print_d-pos n)

tokens-print_d_last : (n : ℕ) → tokens b'.' [] (print_d n) ≡ print_d n ∷ []
unfolding tokens
tokens-print_d_last n =
    ap (tokens b'.' []) (sym (append-nil (print_d n)))
    ∙ tokens-append b'.' [] (print_d n) [] (digits_no_dot (print_d n) (print_d-IsDigit n))
    ∙ flush_pos (print_d n) [] (length-print_d-pos n)

add_token-print_d : (x b : ℕ) → b < 256 → add_token x (print_d b) ≡ x * 256 % 2 ^ 32 + b
unfolding add_token
add_token-print_d x b h =
    let shifted : x * 2 ^ 8 % 2 ^ 32 ≡ double 8 (x % 2 ^ 24) = omega arith in
    let small : b % 2 ^ 32 ≡ b = omega arith in
    let sum : double 8 (x % 2 ^ 24) + b ≡ x * 256 % 2 ^ 32 + b = omega arith in
    ap₂ bit_or shifted (atoi-print_d b ∙ small) ∙ bit_or-double 8 (x % 2 ^ 24) b (omega arith) ∙ sum

-- Four octets in decimal, with dots between them.
abbrev pub quad : ℕ → ℕ → ℕ → ℕ → List ℕ
quad a b c d = print_d a ++ (b'.' ∷ (print_d b ++ (b'.' ∷ (print_d c ++ (b'.' ∷ print_d d)))))

-- `inet_addr` of four octets, the first in the highest byte.
pub inet_addr-quad :
    (a b c d : ℕ)
    → a < 256
    → b < 256
    → c < 256
    → d < 256
    → inet_addr (quad a b c d) ≡ ((a * 256 + b) * 256 + c) * 256 + d
unfolding inet_addr
inet_addr-quad a b c d ha hb hc hd =
    rw (tokens-print_d a, tokens-print_d b, tokens-print_d c, tokens-print_d_last d)
      (rw
        (
          add_token-print_d 0 a ha,
          add_token-print_d _ b hb,
          add_token-print_d _ c hc,
          add_token-print_d _ d hd,
        )
        (omega arith))

abbrev pub octet : ℕ → ℕ → ℕ
octet addr shift = addr / 2 ^ shift % 256

bits8-24 : (addr : ℕ) → bits8 addr 24 ≡ octet addr 24
unfolding bits8
bits8-24 addr = omega (arith, byte_of_word 24 addr)

bits8-16 : (addr : ℕ) → bits8 addr 16 ≡ octet addr 16
unfolding bits8
bits8-16 addr = omega (arith, byte_of_word 16 addr)

bits8-8 : (addr : ℕ) → bits8 addr 8 ≡ octet addr 8
unfolding bits8
bits8-8 addr = omega (arith, byte_of_word 8 addr)

bits8-0 : (addr : ℕ) → bits8 addr 0 ≡ octet addr 0
unfolding bits8
bits8-0 addr = omega (arith, byte_of_word 0 addr)

pub dotted-quad :
    (addr : ℕ) → dotted addr ≡ quad (octet addr 24) (octet addr 16) (octet addr 8) (octet addr 0)
unfolding dotted
dotted-quad addr = rw (bits8-24, bits8-16, bits8-8, bits8-0)

-- The dotted text of a word reads back as that word.
pub inet_addr-dotted : (addr : ℕ) → addr < 2 ^ 32 → inet_addr (dotted addr) ≡ addr
inet_addr-dotted addr h =
    ap inet_addr (dotted-quad addr)
    ∙ inet_addr-quad (octet addr 24) (octet addr 16) (octet addr 8) (octet addr 0) (omega arith)
        (omega arith) (omega arith) (omega arith)
    ∙ omega arith

module _ (a b c d : ℕ) where
  length-quad :
      length (quad a b c d)
      ≡ length (print_d a) + length (print_d b) + length (print_d c) + length (print_d d) + 3
  length-quad = omega (
    arith,
    length-append (print_d a) (b'.' ∷ (print_d b ++ (b'.' ∷ (print_d c ++ (b'.' ∷ print_d d))))),
    length-append (print_d b) (b'.' ∷ (print_d c ++ (b'.' ∷ print_d d))),
    length-append (print_d c) (b'.' ∷ print_d d),
  )

  quad-div : 10 ≤ d → quad a b c d ≡ quad a b c (d / 10) ++ (b'0' + d % 10) ∷ []
  quad-div h = rw (print_d-div d h) (simp append_assoc)

pub length-dotted : (addr : ℕ) → length (dotted addr) ≤ 15
length-dotted addr = rw dotted-quad (
    omega (
      arith,
      length-quad (octet addr 24) (octet addr 16) (octet addr 8) (octet addr 0),
      length-print_d-le 2 (octet addr 24),
      length-print_d-le 2 (octet addr 16),
      length-print_d-le 2 (octet addr 8),
      length-print_d-le 2 (octet addr 0),
    ))

-- With a length of 16 or more `inet_ntoa` writes the whole text of any address, and `inet_addr` of
-- what it wrote is the address.
pub inet_addr-inet_ntoa :
    (addr len : ℕ) → addr < 2 ^ 32 → 16 ≤ len → inet_addr (inet_ntoa addr len) ≡ addr
unfolding inet_ntoa
inet_addr-inet_ntoa addr len h room =
    ap inet_addr (take-length (len - 1) (dotted addr) (omega (arith, length-dotted addr)))
    ∙ inet_addr-dotted addr h

-- With a length of 15, as `send_cmd` and `recv_thread` pass it, the text of an address whose four
-- octets all have three digits loses its last one, and stands for the address whose last octet is
-- divided by ten.
pub inet_ntoa_cut :
    (addr : ℕ)
    → addr < 2 ^ 32
    → 100 ≤ octet addr 24
    → 100 ≤ octet addr 16
    → 100 ≤ octet addr 8
    → 100 ≤ octet addr 0
    → inet_addr (inet_ntoa addr 15) ≡ addr / 256 * 256 + addr % 256 / 10
unfolding inet_ntoa
inet_ntoa_cut addr h p q r s =
    let a = octet addr 24 in
    let b = octet addr 16 in
    let c = octet addr 8 in
    let d = octet addr 0 in
    let long : 14 ≡ length (quad a b c (d / 10)) = omega (
      arith,
      length-quad a b c (d / 10),
      length-print_d-le 2 a,
      length-print_d-le 2 b,
      length-print_d-le 2 c,
      length-print_d-le 1 (d / 10),
      length-print_d-ge 2 a,
      length-print_d-ge 2 b,
      length-print_d-ge 2 c,
      length-print_d-ge 1 (d / 10),
    ) in
    rw
      (
        dotted-quad,
        quad-div a b c d (omega arith),
        take-append 14 (quad a b c (d / 10)) ((b'0' + d % 10) ∷ []) long,
      )
      (inet_addr-quad a b c (d / 10) (omega arith) (omega arith) (omega arith) (omega arith)
        ∙ omega arith)
