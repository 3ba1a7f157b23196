-- ===== src/Main/Tests.antt =====
-- An answer of main/main.c.
use esp_hostdriver.Prelude.{◌≡◌, some, arith, refl}
use esp_hostdriver.Prelude.Codes.{codes}
use esp_hostdriver.Libc.Decimal.{print_d}
use esp_hostdriver.Main.{ack}
use esp_hostdriver.Main.Ack.{answer, ack-answer}

ack_hi : ack (codes "hi\n") ≡ some (codes "ack 2")
unfolding ack print_d
ack_hi = refl

ack-answer_example :
    (ack (codes "hi\n") ≡ answer (codes "hi")) × (ack (codes "hi") ≡ answer (codes "hi"))
ack-answer_example = ack-answer (codes "hi") (omega arith, (omega arith, tt)) (λ e. omega arith)
