-- ===== src/Opt/Tests.antt =====
-- Options of main/opt.c.
use esp_hostdriver.Prelude.{ℕ, ◌≡◌, ◌++◌, List, [], ◌∷◌, arith}
use esp_hostdriver.Prelude.Codes.{codes}
use esp_hostdriver.Libc.Decimal.{print_d}
use esp_hostdriver.Inet.{dotted}
use esp_hostdriver.Opt.{parse_connection, parse_opt}
use esp_hostdriver.Opt.Last.{IsRead, parse_opt-IsRead}
use esp_hostdriver.Opt.Connection.{parse_connection-dotted}

parse_connection-dotted_example :
    (parse_connection 7 (dotted 0xc0a80001 ++ b':' ∷ print_d 80) ≡ (0xc0a80001, 80))
    × (parse_connection 7 (print_d 80) ≡ (7, 80))
parse_connection-dotted_example =
    parse_connection-dotted 7 0xc0a80001 80 (omega arith) (omega arith)

-- `-s net -c 80 -s home`
abbrev sample_options : List (ℕ × List ℕ)
sample_options = (b's', codes "net") ∷ (b'c', codes "80") ∷ (b's', codes "home") ∷ []

parse_opt-IsRead_example : IsRead sample_options 0 (parse_opt (codes "main") sample_options 0)
parse_opt-IsRead_example = parse_opt-IsRead (codes "main") sample_options 0
