-- ===== src/Serial/Line/Ipd.antt =====
-- How `recv` of esp01/serial.c reads the head of a message, `+IPD,<link>,<count>,<address>,<port>:`.
use esp_hostdriver.Prelude.{
  ℕ, zero, suc, ◌+◌, ◌%◌, ◌^◌, ◌≤◌, ◌<◌, ◌≡◌, ◌≢◌, refl, ap, sym, subst, ◌∙◌, List, [], ◌∷◌, ◌++◌,
  append-nil, append_assoc, arith, length, length-append, drop, get_or, set, All, ==_ne, leb, false,
}
use esp_hostdriver.Prelude.Codes.{codes}
use esp_hostdriver.Libc.Decimal.{
  print_d, atoi, IsDigit, print_d-IsDigit, atoi-print_d, atoi-print_d_before,
}
use esp_hostdriver.Inet.{inet_addr, dotted}
use esp_hostdriver.Inet.RoundTrip.{octet, dotted-quad, inet_addr-dotted}
use esp_hostdriver.Serial.Line.{parse_ipd, back_to_comma, c_string, string_at, size_of_int}

-- A byte of a field: no comma, and not the end of a string.
abbrev IsField : ℕ → Type 0
IsField c = (c ≢ b',') × (c ≢ 0)

-- What stands behind a field: nothing, or a 0.
abbrev EndsString : List ℕ → Type 0
EndsString [] = Unit
EndsString (c ∷ t) = c ≡ 0

c_string-field : (b t : List ℕ) → All IsField b → EndsString t → c_string (b ++ t) ≡ b
c_string-field [] [] f e = refl
c_string-field [] (c ∷ t) f e = rw e refl
c_string-field (c ∷ b) t f e = rw (==_ne c 0 f.0.1) (ap (λ r. c ∷ r) (c_string-field b t f.1 e))

get_or-field :
    (b t : List ℕ) (k : ℕ)
    → k ≤ length b
    → All IsField b
    → EndsString t
    → get_or (b ++ t) k 0 ≢ b','
get_or-field [] [] k h f e = omega arith
get_or-field [] (c ∷ t) zero h f e = omega arith
get_or-field [] (c ∷ t) (suc k) h f e = absurd (omega arith)
get_or-field (c ∷ b) t zero h f e = f.0.0
get_or-field (c ∷ b) t (suc k) h f e = get_or-field b t k (omega arith) f.1 e

get_or-append :
    (a r : List ℕ) (x n k : ℕ) → n ≡ length a + suc k → get_or (a ++ x ∷ r) n 0 ≡ get_or r k 0
get_or-append [] r x n k is = let e : n ≡ suc k = omega arith in rw e refl
get_or-append (y ∷ a) r x zero k is = absurd (omega arith)
get_or-append (y ∷ a) r x (suc n) k is = get_or-append a r x n k (omega arith)

get_or-middle : (a r : List ℕ) (x : ℕ) → get_or (a ++ x ∷ r) (length a) 0 ≡ x
get_or-middle [] r x = refl
get_or-middle (y ∷ a) r x = get_or-middle a r x

set-middle : (a r : List ℕ) (x y : ℕ) → set (a ++ x ∷ r) (length a) y ≡ a ++ y ∷ r
set-middle [] r x y = refl
set-middle (z ∷ a) r x y = ap (λ l. z ∷ l) (set-middle a r x y)

drop-middle : (a r : List ℕ) (x : ℕ) → drop (suc (length a)) (a ++ x ∷ r) ≡ r
drop-middle [] r x = refl
drop-middle (z ∷ a) r x = drop-middle a r x

module _ (a b t : List ℕ) (f : All IsField b) (e : EndsString t) where
  -- The loop comes from behind the field to the comma in front of it.
  back_to_comma-steps :
      (n k : ℕ)
      → n ≡ length a + k
      → k ≤ length b + 1
      → back_to_comma (a ++ b',' ∷ (b ++ t)) n ≡ length a
  unfolding back_to_comma
  back_to_comma-steps zero k is h = omega arith
  back_to_comma-steps (suc n) zero is h =
      let same : suc n ≡ length a = omega arith in rw (same, get_or-middle a (b ++ t) b',') refl
  back_to_comma-steps (suc n) (suc k) is h =
      let same : n ≡ length a + k = omega arith in
      let apart : get_or (a ++ b',' ∷ (b ++ t)) (suc n) 0 ≢ b',' =
        subst (λ c. c ≢ b',') (sym (get_or-append a (b ++ t) b',' (suc n) k is))
          (get_or-field b t k (omega arith) f e) in
      rw (==_ne (get_or (a ++ b',' ∷ (b ++ t)) (suc n) 0) b',' apart)
        (back_to_comma-steps n k same (omega arith))

  abbrev field_line : List ℕ
  field_line = (a ++ b',' ∷ b) ++ t

  field_line-parts : field_line ≡ a ++ b',' ∷ (b ++ t)
  field_line-parts = append_assoc a (b',' ∷ b) t

  back_to_comma-field : back_to_comma field_line (length (a ++ b',' ∷ b)) ≡ length a
  back_to_comma-field =
      ap (λ l. back_to_comma l (length (a ++ b',' ∷ b))) field_line-parts
      ∙ back_to_comma-steps (length (a ++ b',' ∷ b)) (length b + 1)
          (omega (arith, length-append a (b',' ∷ b))) (omega arith)

  string_at-field : string_at field_line (length a + 1) ≡ b
  string_at-field =
      let next : length a + 1 ≡ suc (length a) = omega arith in
      rw (next, field_line-parts, drop-middle a (b ++ t) b',') (c_string-field b t f e)

  set-field : set field_line (length a) 0 ≡ a ++ 0 ∷ (b ++ t)
  set-field = rw field_line-parts (set-middle a (b ++ t) b',' 0)

-- The last field, behind which the line ends.
module _ (a b : List ℕ) (f : All IsField b) where
  back_to_comma-last : back_to_comma (a ++ b',' ∷ b) (length (a ++ b',' ∷ b)) ≡ length a
  back_to_comma-last =
      subst (λ l. back_to_comma l (length (a ++ b',' ∷ b)) ≡ length a) (append-nil (a ++ b',' ∷ b))
        (back_to_comma-field a b [] f tt)

  string_at-last : string_at (a ++ b',' ∷ b) (length a + 1) ≡ b
  string_at-last =
      subst (λ l. string_at l (length a + 1) ≡ b) (append-nil (a ++ b',' ∷ b))
        (string_at-field a b [] f tt)

-- A line with four fields behind four commas.
abbrev pub fields : List ℕ → List ℕ → List ℕ → List ℕ → List ℕ → List ℕ
fields l a b c d = (((l ++ b',' ∷ a) ++ b',' ∷ b) ++ b',' ∷ c) ++ b',' ∷ d

parse_ipd-fields :
    (l a b c d : List ℕ)
    → All IsField a
    → All IsField b
    → All IsField c
    → All IsField d
    → parse_ipd (fields l a b c d) ≡ record {
      link_id = atoi a;
      count = size_of_int (atoi b);
      remote = record { domain = 0; inet = record { addr = inet_addr c; port = atoi d % 2 ^ 16 } };
    }
unfolding parse_ipd
parse_ipd-fields l a b c d fa fb fc fd =
    let l1 = l ++ b',' ∷ a in
    let l2 = l1 ++ b',' ∷ b in
    let l3 = l2 ++ b',' ∷ c in
    let t3 = 0 ∷ d in
    let t2 = 0 ∷ (c ++ t3) in
    let t1 = 0 ∷ (b ++ t2) in
    rw
      (
        back_to_comma-last l3 d fd,
        string_at-last l3 d fd,
        set-middle l3 d b',' 0,
        back_to_comma-field l2 c t3 fc refl,
        string_at-field l2 c t3 fc refl,
        set-field l2 c t3 fc refl,
        back_to_comma-field l1 b t2 fb refl,
        string_at-field l1 b t2 fb refl,
        set-field l1 b t2 fb refl,
        back_to_comma-field l a t1 fa refl,
        string_at-field l a t1 fa refl,
      )
      refl

number-IsField : (n : ℕ) → All IsField (print_d n)
number-IsField n = go (print_d n) (print_d-IsDigit n)
  where
    go : (s : List ℕ) → All IsDigit s → All IsField s
    go [] h = tt
    go (c ∷ s) h = let d : b'0' ≤ c = h.0.0 in ((omega arith, omega arith), go s h.1)

IsField-append : (s t : List ℕ) → All IsField s → All IsField t → All IsField (s ++ t)
IsField-append [] t h k = k
IsField-append (c ∷ s) t h k = (h.0, IsField-append s t h.1 k)

dotted-IsField : (addr : ℕ) → All IsField (dotted addr)
dotted-IsField addr = rw (dotted-quad addr) (
    part (octet addr 24) _
      (part (octet addr 16) _ (part (octet addr 8) _ (number-IsField (octet addr 0)))))
  where
    part : (n : ℕ) (s : List ℕ) → All IsField s → All IsField (print_d n ++ (b'.' ∷ s))
    part n s h =
        IsField-append (print_d n) (b'.' ∷ s) (number-IsField n) ((omega arith, omega arith), h)

-- The line that announces a message: its link, its length, and where it comes from.
abbrev pub ipd_line : ℕ → ℕ → ℕ → ℕ → List ℕ
ipd_line link_id count addr port =
    fields (codes "+IPD") (print_d link_id) (print_d count) (dotted addr)
      (print_d port ++ b':' ∷ [])

pub parse_ipd-printed :
    (link_id count addr port : ℕ)
    → link_id < 2 ^ 32
    → count < 2 ^ 31
    → addr < 2 ^ 32
    → port < 2 ^ 16
    → parse_ipd (ipd_line link_id count addr port) ≡ record {
      link_id = link_id;
      count = count;
      remote = record { domain = 0; inet = record { addr = addr; port = port } };
    }
parse_ipd-printed link_id count addr port hl hc ha hp =
    parse_ipd-fields (codes "+IPD") (print_d link_id) (print_d count) (dotted addr)
      (print_d port ++ b':' ∷ []) (number-IsField link_id) (number-IsField count)
      (dotted-IsField addr)
      (IsField-append (print_d port) (b':' ∷ []) (number-IsField port)
        ((omega arith, omega arith), tt))
    ∙ rw
        (
          atoi-print_d link_id,
          atoi-print_d count,
          inet_addr-dotted addr ha,
          atoi-print_d_before port b':' [] refl,
          small link_id hl,
          small count (omega arith),
          positive,
          small port (omega arith),
          port_small,
        )
        refl
  where
    small : (n : ℕ) → n < 2 ^ 32 → n % 2 ^ 32 ≡ n
    small n h = omega arith

    positive : leb (2 ^ 31) count ≡ false
    positive = ground arith

    port_small : port % 2 ^ 16 ≡ port
    port_small = omega arith

-- `recv` reads from the line that announces a message the link, the length, the address and the port
-- that were printed into it, if the link and the length are ints.
pub parse_ipd-ipd_line :
    (link_id count addr port : ℕ)
    → link_id < 2 ^ 31
    → count < 2 ^ 31
    → addr < 2 ^ 32
    → port < 2 ^ 16
    → parse_ipd (ipd_line link_id count addr port) ≡ record {
      link_id = link_id;
      count = count;
      remote = record { domain = 0; inet = record { addr = addr; port = port } };
    }
parse_ipd-ipd_line link_id count addr port hl hc ha hp =
    parse_ipd-printed link_id count addr port (omega arith) hc ha hp
