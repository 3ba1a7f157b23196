-- ===== src/Libc/Files.antt =====
-- Open files as the list of their descriptors.
use esp_hostdriver.Prelude.{ℕ, List, [], ◌∷◌, ◌==◌, if◌then◌else◌}

-- `close(fd)`
abbrev pub close_file : ℕ → List ℕ → List ℕ
close_file fd [] = []
close_file fd (f ∷ fs) = if f == fd then fs else f ∷ close_file fd fs
