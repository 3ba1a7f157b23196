-- ===== src/Esp/Links/Search.antt =====
-- What `get_link_id` of esp01/esp01.c finds in the table of links.
use esp_hostdriver.Prelude.{
  ℕ, zero, suc, ◌+◌, ◌<◌, ◌≡◌, ◌≢◌, ap, inl, inr, Bool-cases, arith, Option, none, some, List, [],
  ◌∷◌, ◌==◌, eq_of_==, ne_of_==, get_elem?,
}
use esp_hostdriver.Host.{Ptr, Esp}
use esp_hostdriver.Esp.Links.{find_link, get_link_id}

-- The elements of the table from index `i` on, and what is found in them.
abbrev Found : Ptr → List Ptr → ℕ → Option ℕ → Type 0
Found sock ls i none = (j : ℕ) → get_elem? ls j ≢ some sock
Found sock ls i (some k) =
    (j : ℕ) × (k ≡ i + j)
    × (get_elem? ls j ≡ some sock)
    × ((m : ℕ) → m < j → get_elem? ls m ≢ some sock)

some-injective : {a b : ℕ} → some a ≡ some b → a ≡ b
some-injective {a} e = ap (λ o. elim o [ none ↦ a | some x ↦ x ]) e

module _ {sock l : ℕ} (ls : List Ptr) (ne : l ≢ sock) where
  absent-cons :
      (n : ℕ)
      → ((m : ℕ) → m < n → get_elem? ls m ≢ some sock)
      → (m : ℕ) → m < suc n
      → get_elem? (l ∷ ls) m ≢ some sock
  absent-cons n h zero lt e = ne (some-injective e)
  absent-cons n h (suc m) lt e = h m (omega arith) e

  Found-cons : (i : ℕ) (r : Option ℕ) → Found sock ls (i + 1) r → Found sock (l ∷ ls) i r
  Found-cons i none h = λ m e. absent-cons m (λ k _. h k) m (omega arith) e
  Found-cons i (some k) (j, shift, at, first) = (suc j, omega arith, at, absent-cons j first)

find_link-Found : (sock i : ℕ) (ls : List Ptr) → Found sock ls i (find_link sock i ls)
unfolding find_link
find_link-Found sock i [] = λ j e. cc
find_link-Found sock i (l ∷ ls) = elim (Bool-cases (l == sock)) [
  | inl e ↦ rw e (0, omega arith, ap some (eq_of_== l sock e), λ m h. elim h [ ])
  | inr e ↦ rw e (
      Found-cons ls (ne_of_== l sock e) i (find_link sock (i + 1) ls)
        (find_link-Found sock (i + 1) ls))
]

-- What `get_link_id` says of a socket: a number that it returns is the index of the first link to the
-- socket, and it returns -1 only if no link is to the socket.
abbrev pub LinkOf : Esp → Ptr → Option ℕ → Type 0
LinkOf esp sock none = (j : ℕ) → get_elem? esp.links j ≢ some sock
LinkOf esp sock (some k) =
    (get_elem? esp.links k ≡ some sock) × ((m : ℕ) → m < k → get_elem? esp.links m ≢ some sock)

-- The result of `get_link_id` for any table and any pointer, null for a free link included, is the
-- index of the first link to it, or -1 if there is none.
get_link_id-LinkOf : (esp : Esp) (sock : Ptr) → LinkOf esp sock (get_link_id esp sock)
unfolding get_link_id
get_link_id-LinkOf esp sock = from (find_link sock 0 esp.links) (find_link-Found sock 0 esp.links)
  where
    from : (r : Option ℕ) → Found sock esp.links 0 r → LinkOf esp sock r
    from none h = h
    from (some k) (j, same, at, first) = let e : k ≡ j = omega arith in rw e (at, first)
