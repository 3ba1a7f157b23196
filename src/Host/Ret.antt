-- ===== src/Host/Ret.antt =====
-- The `int` and `ssize_t` results of the program's functions: a number that is not negative, or -1,
-- the one negative value that they return.
use Prim.Native.Nat.{bit_or}
use esp_hostdriver.Prelude.{ℕ, Bool, false, ◌==◌}

pub data Ret : Type 0 where
  ret : ℕ → Ret
  fail : Ret

-- `r |= x`
abbrev pub or_ret : Ret → Ret → Ret
or_ret (ret a) (ret b) = ret (bit_or a b)
or_ret (ret a) fail = fail
or_ret fail x = fail

-- `r == 0`
abbrev pub is_zero : Ret → Bool
is_zero (ret n) = n == 0
is_zero fail = false
