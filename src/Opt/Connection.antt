-- ===== src/Opt/Connection.antt =====
-- The argument of the option `-c` in main/opt.c.
use esp_hostdriver.Prelude.{
  ℕ, zero, suc, ◌+◌, ◌%◌, ◌^◌, ◌≤◌, ◌<◌, ◌≡◌, ◌≢◌, refl, sym, subst, List, [], ◌∷◌, ◌++◌, arith,
  length, length-append, take-append, drop, get_or, All, ==_ne,
}
use esp_hostdriver.Libc.Decimal.{print_d, IsDigit, print_d-IsDigit, atoi-print_d}
use esp_hostdriver.Inet.{dotted}
use esp_hostdriver.Inet.RoundTrip.{octet, inet_addr-dotted, dotted-quad}
use esp_hostdriver.Opt.{last_colon, parse_connection}

get_or-digits : (s : List ℕ) (k : ℕ) → All IsDigit s → get_or s k 0 ≢ b':'
get_or-digits [] k h = omega arith
get_or-digits (c ∷ s) zero h = let d : c ≤ b'9' = h.0.1 in omega arith
get_or-digits (c ∷ s) (suc k) h = get_or-digits s k h.1

get_or-behind :
    (a r : List ℕ) (x n k : ℕ) → n ≡ length a + suc k → get_or (a ++ x ∷ r) n 0 ≡ get_or r k 0
get_or-behind [] r x n k is = let e : n ≡ suc k = omega arith in rw e refl
get_or-behind (y ∷ a) r x zero k is = absurd (omega arith)
get_or-behind (y ∷ a) r x (suc n) k is = get_or-behind a r x n k (omega arith)

get_or-at : (a r : List ℕ) (x : ℕ) → get_or (a ++ x ∷ r) (length a) 0 ≡ x
get_or-at [] r x = refl
get_or-at (y ∷ a) r x = get_or-at a r x

drop-behind : (a r : List ℕ) (x : ℕ) → drop (suc (length a)) (a ++ x ∷ r) ≡ r
drop-behind [] r x = refl
drop-behind (z ∷ a) r x = drop-behind a r x

module _ (a b : List ℕ) (digits : All IsDigit b) where
  last_colon-steps : (n k : ℕ) → n ≡ length a + k → last_colon (a ++ b':' ∷ b) n ≡ length a
  unfolding last_colon
  last_colon-steps zero k is = omega arith
  last_colon-steps (suc n) zero is =
      let same : suc n ≡ length a = omega arith in rw (same, get_or-at a b b':') refl
  last_colon-steps (suc n) (suc k) is =
      let same : n ≡ length a + k = omega arith in
      let apart : get_or (a ++ b':' ∷ b) (suc n) 0 ≢ b':' =
        subst (λ c. c ≢ b':') (sym (get_or-behind a b b':' (suc n) k is))
          (get_or-digits b k digits) in
      rw (==_ne (get_or (a ++ b':' ∷ b) (suc n) 0) b':' apart) (last_colon-steps n k same)

last_colon-digits : (s : List ℕ) (n : ℕ) → All IsDigit s → last_colon s n ≡ 0
unfolding last_colon
last_colon-digits s zero h = refl
last_colon-digits s (suc n) h =
    rw (==_ne (get_or s (suc n) 0) b':' (get_or-digits s (suc n) h)) (last_colon-digits s n h)

length-dotted-pos : (ip : ℕ) → 0 < length (dotted ip)
length-dotted-pos ip = rw (dotted-quad ip) (
    omega (
      arith,
      length-append (print_d (octet ip 24)) (
          b'.'
          ∷ (print_d (octet ip 16)
              ++ (b'.' ∷ (print_d (octet ip 8) ++ (b'.' ∷ print_d (octet ip 0)))))),
    ))

-- The argument of `-c` that is an address, a colon and a port stands for that address and port, and
-- one that is a port alone for that port and the address that was set.
pub parse_connection-dotted :
    (old ip port : ℕ)
    → ip < 2 ^ 32
    → port < 2 ^ 32
    → (parse_connection old (dotted ip ++ b':' ∷ print_d port) ≡ (ip, port))
      × (parse_connection old (print_d port) ≡ (old, port))
unfolding parse_connection
parse_connection-dotted old ip port hi hp = (with_colon, without_colon)
  where
    small : port % 2 ^ 32 ≡ port
    small = omega arith

    digits : All IsDigit (print_d port)
    digits = print_d-IsDigit port

    with_colon : parse_connection old (dotted ip ++ b':' ∷ print_d port) ≡ (ip, port)
    with_colon =
        let end = length (dotted ip ++ b':' ∷ print_d port) in
        let at : last_colon (dotted ip ++ b':' ∷ print_d port) end ≡ length (dotted ip) =
          last_colon-steps (dotted ip) (print_d port) digits end (suc (length (print_d port)))
            (length-append (dotted ip) (b':' ∷ print_d port)) in
        let next : length (dotted ip) + 1 ≡ suc (length (dotted ip)) = omega arith in
        rw (at, ==_ne (length (dotted ip)) 0 (omega (arith, length-dotted-pos ip)))
          (rw
            (
              take-append (length (dotted ip)) (dotted ip) (b':' ∷ print_d port) refl,
              next,
              drop-behind (dotted ip) (print_d port) b':',
              inet_addr-dotted ip hi,
              atoi-print_d port,
              small,
            )
            refl)

    without_colon : parse_connection old (print_d port) ≡ (old, port)
    without_colon =
        rw (last_colon-digits (print_d port) (length (print_d port)) digits)
          (rw (atoi-print_d port, small) refl)
