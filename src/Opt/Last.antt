-- ===== src/Opt/Last.antt =====
-- What `parse_opt` of main/opt.c makes of the options together.
use esp_hostdriver.Prelude.{
  ℕ, ◌-◌, ◌^◌, ◌≡◌, ◌≢◌, refl, ◌∙◌, ap, List, [], ◌∷◌, ◌==◌, ltb, if◌then◌else◌, Bool-cases,
  eq_of_==, ne_of_==, length, inl, inr, arith, Bool, true, false, ◌⊎◌, sym, ◌<◌,
}
use esp_hostdriver.Prelude.Codes.{codes}
use esp_hostdriver.Libc.Strings.{str_eq}
use esp_hostdriver.Opt.{
  Opts, help, Parsed, parsed, stopped, last_colon, parse_connection, apply_opt, apply_opts,
  check_opts, default_opts, parse_opt,
}

-- The argument of the last option `c`, or `d` if there is none.
unfoldable pub last_arg : ℕ → List (ℕ × List ℕ) → List ℕ → List ℕ
last_arg c [] d = d
last_arg c ((opt, arg) ∷ rest) d = last_arg c rest (if opt == c then arg else d)

-- The same for the port of a connection.
unfoldable pub last_port : List (ℕ × List ℕ) → ℕ → ℕ
last_port [] d = d
last_port ((opt, arg) ∷ rest) d =
    last_port rest (if opt == b'c' then (parse_connection 0 arg).1 else d)

port_same : (ip : ℕ) (arg : List ℕ) → (parse_connection ip arg).1 ≡ (parse_connection 0 arg).1
unfolding parse_connection
port_same ip arg = elim (Bool-cases (last_colon arg (length arg) == 0)) [
  | inl e ↦ rw e refl
  | inr e ↦ rw e refl
]

-- Whether an argument is one of two.
unfoldable pub one_of : List ℕ → List ℕ → List ℕ → Bool
one_of arg x y = if str_eq arg x then true else str_eq arg y

one_of-same :
    (arg x y : List ℕ) {a b : Bool}
    → str_eq arg x ≡ a
    → str_eq arg y ≡ b
    → one_of arg x y ≡ (if a then true else b)
unfolding one_of
one_of-same arg x y e f = rw (e, f) refl

one_of-first : (arg x y : List ℕ) → str_eq arg x ≡ true → one_of arg x y ≡ true
one_of-first arg x y e = one_of-same arg x y e refl

-- Whether the program goes on behind an option: `-m` and `-t` with one of their two arguments, and `-s`,
-- `-p`, `-c` and `-d`; not `-h`, and not the characters that `getopt_long` returns for a mistake.
unfoldable pub is_good : ℕ → List ℕ → Bool
is_good opt arg =
    if opt == b'm'
    then one_of arg (codes "ap") (codes "client")
    else if opt == b't'
    then one_of arg (codes "dgram") (codes "stream")
    else if opt == b's'
    then true
    else if opt == b'p'
    then true
    else if opt == b'c'
    then true
    else opt == b'd'

unknown-is_good :
    (opt : ℕ) (arg : List ℕ)
    → (opt == b'm') ≡ false
    → (opt == b't') ≡ false
    → (opt == b's') ≡ false
    → (opt == b'p') ≡ false
    → (opt == b'c') ≡ false
    → (opt == b'd') ≡ false
    → is_good opt arg ≡ false
unfolding is_good
unknown-is_good opt arg m t s p c d = rw (is_good, m, t, s, p, c, d) refl

-- Whether all are.
unfoldable pub all_good : List (ℕ × List ℕ) → Bool
all_good [] = true
all_good ((opt, arg) ∷ rest) =
    let others = all_good rest in if is_good opt arg then others else false

-- What the options come to when the ones before came to `o`.
abbrev pub Describes : Opts → List (ℕ × List ℕ) → Parsed → Type 0
Describes o found (parsed r) =
    (r.ssid ≡ last_arg b's' found o.ssid)
    × (r.password ≡ last_arg b'p' found o.password)
    × (r.port ≡ last_port found o.port)
    × (all_good found ≡ true)
Describes o found (stopped h) = (h.code ≡ 2 ^ 32 - 1) × (all_good found ≡ false)

-- The same of one option.
abbrev One : Opts → ℕ → List ℕ → Parsed → Type 0
One o opt arg (parsed r) =
    (r.ssid ≡ last_arg b's' ((opt, arg) ∷ []) o.ssid)
    × (r.password ≡ last_arg b'p' ((opt, arg) ∷ []) o.password)
    × (r.port ≡ last_port ((opt, arg) ∷ []) o.port)
    × (is_good opt arg ≡ true)
One o opt arg (stopped h) = (h.code ≡ 2 ^ 32 - 1) × (is_good opt arg ≡ false)

Describes-before :
    (o o' : Opts) (opt : ℕ) (arg : List ℕ) (rest : List (ℕ × List ℕ)) (q : Parsed)
    → One o opt arg (parsed o')
    → Describes o' rest q
    → Describes o ((opt, arg) ∷ rest) q
unfolding last_arg last_port all_good
Describes-before o o' opt arg rest (parsed r) (s, p, c, g) (hs, hp, hc, hg) = (
  hs ∙ ap (last_arg b's' rest) s,
  hp ∙ ap (last_arg b'p' rest) p,
  hc ∙ ap (last_port rest) c,
  rw g hg,
)
Describes-before o o' opt arg rest (stopped h) (s, p, c, g) (k, hg) = (k, rw g hg)

Describes-apply_opt :
    (prog : List ℕ) (o : Opts) (opt : ℕ) (arg : List ℕ) → One o opt arg (apply_opt prog o opt arg)
unfolding apply_opt help last_arg last_port is_good
Describes-apply_opt prog o opt arg = elim (Bool-cases (opt == b'm')) [
  | inl e ↦ rw (eq_of_== opt b'm' e) (elim (Bool-cases (str_eq arg (codes "ap"))) [
    | inl f ↦ rw f (refl, refl, refl, one_of-first arg (codes "ap") (codes "client") f)
    | inr f ↦ elim (Bool-cases (str_eq arg (codes "client"))) [
      | inl g ↦ rw (f, g) (refl, refl, refl, one_of-same arg (codes "ap") (codes "client") f g)
      | inr g ↦ rw (f, g) (refl, one_of-same arg (codes "ap") (codes "client") f g)
    ]
  ])
  | inr m ↦ elim (Bool-cases (opt == b't')) [
    | inl e ↦ rw (eq_of_== opt b't' e) (elim (Bool-cases (str_eq arg (codes "dgram"))) [
      | inl f ↦ rw f (refl, refl, refl, one_of-first arg (codes "dgram") (codes "stream") f)
      | inr f ↦ elim (Bool-cases (str_eq arg (codes "stream"))) [
        | inl g ↦ rw (f, g) (refl, refl, refl, one_of-same arg (codes "dgram") (codes "stream") f g)
        | inr g ↦ rw (f, g) (refl, one_of-same arg (codes "dgram") (codes "stream") f g)
      ]
    ])
    | inr t ↦ elim (Bool-cases (opt == b's')) [
      | inl e ↦ rw (eq_of_== opt b's' e) (refl, refl, refl, refl)
      | inr s ↦ elim (Bool-cases (opt == b'p')) [
        | inl e ↦ rw (eq_of_== opt b'p' e) (refl, refl, refl, refl)
        | inr p ↦ elim (Bool-cases (opt == b'c')) [
          | inl e ↦ rw (eq_of_== opt b'c' e) (refl, refl, port_same o.ip arg, refl)
          | inr c ↦ elim (Bool-cases (opt == b'd')) [
            | inl e ↦ rw (eq_of_== opt b'd' e) (refl, refl, refl, refl)
            | inr d ↦ elim (Bool-cases (opt == b'h')) [
              | inl h ↦ rw (eq_of_== opt b'h' h) (refl, refl)
              | inr h ↦ rw (m, t, s, p, c, d, h) (refl, unknown-is_good opt arg m t s p c d)
            ]
          ]
        ]
      ]
    ]
  ]
]

-- The options in their order.
Describes-apply_opts :
    (prog : List ℕ) (found : List (ℕ × List ℕ)) (o : Opts)
    → Describes o found (apply_opts prog o found)
unfolding apply_opts last_arg last_port all_good
Describes-apply_opts prog [] o = (refl, refl, refl, refl)
Describes-apply_opts prog ((opt, arg) ∷ rest) o =
    then_rest (apply_opt prog o opt arg) (Describes-apply_opt prog o opt arg)
      (λ o'. Describes-apply_opts prog rest o')
  where
    then_rest :
        (q : Parsed)
        → One o opt arg q
        → ((o' : Opts) → Describes o' rest (apply_opts prog o' rest))
        → Describes o
            ((opt, arg) ∷ rest)
            (elim q [ parsed o' ↦ apply_opts prog o' rest | stopped h ↦ stopped h ])
    then_rest (parsed o') h all_rest =
        Describes-before o o' opt arg rest (apply_opts prog o' rest) h (all_rest o')
    then_rest (stopped h) (k, g) all_rest = (k, rw g refl)

-- What `parse_opt` promises of its outcome, for the options `found` and `left` other arguments.
abbrev pub IsRead : List (ℕ × List ℕ) → ℕ → Parsed → Type 0
IsRead found left (parsed o) =
    (o.ssid ≡ last_arg b's' found (codes "mainart"))
    × (o.password ≡ last_arg b'p' found (codes "deadbeef"))
    × (o.port ≡ last_port found 0)
    × (o.port ≢ 0)
    × (left ≡ 0)
    × (all_good found ≡ true)
IsRead found left (stopped h) =
    (h.code ≡ 2 ^ 32 - 1) × ((all_good found ≡ false) ⊎ ((0 < left) ⊎ (last_port found 0 ≡ 0)))

check_opts-IsRead :
    (prog : List ℕ) (found : List (ℕ × List ℕ)) (left : ℕ) (q : Parsed)
    → Describes default_opts found q
    → IsRead found left (elim q [ parsed o ↦ check_opts prog o left | stopped h ↦ stopped h ])
unfolding check_opts help default_opts
check_opts-IsRead prog found left (stopped h) (k, g) = (k, inl g)
check_opts-IsRead prog found left (parsed o) (s, p, c, g) = elim (Bool-cases (ltb 0 left)) [
  | inl e ↦ rw e (refl, inr (inl (ground arith)))
  | inr e ↦ elim (Bool-cases (o.port == 0)) [
    | inl f ↦ rw (e, f) (refl, inr (inr (sym c ∙ eq_of_== o.port 0 f)))
    | inr f ↦ rw (e, f) (s, p, c, ne_of_== o.port 0 f, ground arith, g)
  ]
]

-- If `parse_opt` returns, every option is one behind which the program goes on, so there was no `--help`
-- and no mistake, the SSID and the password are the arguments of the last options of their kind, or the
-- defaults, the port is that of the last `-c` and is not 0, and there were no other arguments. Else it
-- ends the program with -1, and there was `--help` or a mistake, another argument, or the port is 0.
pub parse_opt-IsRead :
    (prog : List ℕ) (found : List (ℕ × List ℕ)) (left : ℕ)
    → IsRead found left (parse_opt prog found left)
unfolding parse_opt
parse_opt-IsRead prog found left =
    check_opts-IsRead prog found left (apply_opts prog default_opts found)
      (Describes-apply_opts prog found default_opts)
