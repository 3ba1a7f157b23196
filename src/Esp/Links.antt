-- ===== src/Esp/Links.antt =====
-- The table of links in `esp_t`.
pub mod Search
use esp_hostdriver.Prelude.{
  ℕ, zero, suc, ◌+◌, ◌<◌, ◌≡◌, Option, none, some, List, [], ◌∷◌, ◌==◌, if◌then◌else◌, length,
  get_or, get_elem?, set, replicate,
}
use esp_hostdriver.Host.{Ptr, Esp}

-- `NLINKS`
abbrev pub nlinks : ℕ
nlinks = 5

-- The loop of `get_link_id` over the links from `i` on.
unfoldable pub find_link : Ptr → ℕ → List Ptr → Option ℕ
find_link sock i [] = none
find_link sock i (l ∷ ls) =
    let rest = find_link sock (i + 1) ls in if l == sock then some i else rest

-- `get_link_id`: none for -1.
unfoldable pub get_link_id : Esp → Ptr → Option ℕ
unfolding find_link
get_link_id esp sock = find_link sock 0 esp.links
