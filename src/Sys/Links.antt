-- ===== src/Sys/Links.antt =====
-- The links of intrusive list elements (`list2_t` of include/sys/list.h) at their addresses, and
-- commands that read and write them. Address 0 is the null pointer; to follow it is a fault.
use esp_hostdriver.Prelude.{ℕ, Option, none, some, ◌≡◌, ◌≢◌, ◌==◌, ==_ne, if◌then◌else◌}

-- `el->prev` and `el->next` of every element `el`.
pub record Links : Type 0 where
  pub prev : ℕ → ℕ
  pub next : ℕ → ℕ

unfoldable pub null : ℕ
null = 0

-- `f` but for `v` at `p`.
abbrev pub update : (ℕ → ℕ) → ℕ → ℕ → ℕ → ℕ
update f p v q = if p == q then v else f q

-- `none` is a fault.
abbrev pub M : Type 0 → Type 0
M A = Links → Option (A × Links)

abbrev pub pure : {A : Type 0} → A → M A
pure a h = some (a, h)

-- After a fault nothing more runs.
abbrev pub proceed : {A B : Type 0} → Option (A × Links) → (A → M B) → Option (B × Links)
proceed none f = none
proceed (some (a, h)) f = f a h

infixl 5 ◌>>=◌ ◌>>◌
abbrev pub ◌>>=◌ : {A B : Type 0} → M A → (A → M B) → M B
m >>= f = λ h. proceed (m h) f

abbrev pub ◌>>◌ : {B : Type 0} → M (Unit {0}) → M B → M B
m >> k = m >>= λ _. k

-- `p->prev` and `p->next`
unfoldable pub get_prev : ℕ → M ℕ
get_prev p h = if p == null then none else some (h.prev p, h)

unfoldable pub get_next : ℕ → M ℕ
get_next p h = if p == null then none else some (h.next p, h)

-- `p->prev = v` and `p->next = v`
unfoldable pub set_prev : ℕ → ℕ → M (Unit {0})
set_prev p v h =
    if p == null then none else some (tt, record { prev = update h.prev p v; next = h.next })

unfoldable pub set_next : ℕ → ℕ → M (Unit {0})
set_next p v h =
    if p == null then none else some (tt, record { prev = h.prev; next = update h.next p v })

-- The run meets no fault, and its result and final links satisfy the postcondition.
pub data Ends {A : Type 0} (P : A → Links → Type 0) : Option (A × Links) → Type 0 where
  ends : {a : A} {h : Links} → P a h → Ends P (some (a, h))

pub mono :
    {A : Type 0} {P Q : A → Links → Type 0} {r : Option (A × Links)}
    → Ends P r
    → ((a : A) (h : Links) → P a h → Q a h)
    → Ends Q r
mono (ends p) weaken = ends (weaken _ _ p)

-- What the commands do at a pointer that is not null.
module _ (h : Links) (p : ℕ) (ne : p ≢ null) where
  pub get_prev-ok : get_prev p h ≡ some (h.prev p, h)
  unfolding get_prev
  get_prev-ok = rw (==_ne p null ne)

  pub get_next-ok : get_next p h ≡ some (h.next p, h)
  unfolding get_next
  get_next-ok = rw (==_ne p null ne)

  pub set_prev-ok :
      (v : ℕ) → set_prev p v h ≡ some (tt, record { prev = update h.prev p v; next = h.next })
  unfolding set_prev
  set_prev-ok v = rw (==_ne p null ne)

  pub set_next-ok :
      (v : ℕ) → set_next p v h ≡ some (tt, record { prev = h.prev; next = update h.next p v })
  unfolding set_next
  set_next-ok v = rw (==_ne p null ne)
