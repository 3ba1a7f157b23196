-- ===== src/Fixdep/Depfile/Result.antt =====
-- The run of scripts/build/fixdep as a whole.
use esp_hostdriver.Prelude.{ℕ, ◌≡◌, ◌≢◌, false, List, All}
use esp_hostdriver.Fixdep.Depfile.{is_blank}

-- A target as the code reads it: without blanks, colons and zeros.
abbrev pub IsTarget : List ℕ → Type 0
IsTarget = All (λ c. (is_blank c ≡ false) × (c ≢ b':') × (c ≢ 0))
