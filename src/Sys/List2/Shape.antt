-- ===== src/Sys/List2/Shape.antt =====
-- What a doubly linked list stands for: the addresses of its elements, in order.
use esp_hostdriver.Prelude.{
  ℕ, ◌≡◌, ◌≢◌, refl, sym, ◌∙◌, List, [], ◌∷◌, ◌++◌, append-nil, All, ==_ne, ==_self,
}
use esp_hostdriver.Sys.Links.{Links, null, update}

-- The first address of a chain that ends in `n`, and the last of one that begins behind `p`.
abbrev pub first_or : List ℕ → ℕ → ℕ
first_or [] n = n
first_or (x ∷ xs) n = x

abbrev pub last_or : ℕ → List ℕ → ℕ
last_or p [] = p
last_or p (x ∷ xs) = last_or x xs

abbrev pub NotIn : ℕ → List ℕ → Type 0
NotIn a xs = All (λ x. a ≢ x) xs

abbrev pub Distinct : List ℕ → Type 0
Distinct [] = Unit {0}
Distinct (x ∷ xs) = NotIn x xs × Distinct xs

-- The elements `xs` are linked both ways; `p` is the `prev` of the first and `n` the `next` of the
-- last.
abbrev pub Seg : Links → ℕ → List ℕ → ℕ → Type 0
Seg h p [] n = Unit {0}
Seg h p (x ∷ xs) n = (h.prev x ≡ p) × (h.next x ≡ first_or xs n) × Seg h x xs n

-- `head` heads the list of the elements `xs`.
pub record IsList (h : Links) (head : ℕ) (xs : List ℕ) : Type 0 where
  pub starts : head ≡ first_or xs null
  pub linked : Seg h (last_or null xs) xs null
  pub distinct : Distinct (null ∷ xs)

-- The links of all elements but those of `xs` are as before.
abbrev pub SameOutside : List ℕ → Links → Links → Type 0
SameOutside xs h g = (a : ℕ) → NotIn a xs → (g.prev a ≡ h.prev a) × (g.next a ≡ h.next a)

pub update-ne : (f : ℕ → ℕ) (p v q : ℕ) → p ≢ q → update f p v q ≡ f q
update-ne f p v q ne = rw (==_ne p q ne)

pub update_self : (f : ℕ → ℕ) (p v : ℕ) → update f p v p ≡ v
update_self f p v = rw (==_self p)

module _ (h : Links) where
  pub Seg-append :
      (p : ℕ) (xs ys : List ℕ) (n : ℕ)
      → Seg h p xs (first_or ys n)
      → Seg h (last_or p xs) ys n
      → Seg h p (xs ++ ys) n
  Seg-append p [] ys n s t = t
  Seg-append p (x ∷ []) ys n s t = (s.0, s.1, t)
  Seg-append p (x ∷ y ∷ xs) ys n s t = (s.0, s.1, Seg-append x (y ∷ xs) ys n s.2 t)

  pub Seg-left :
      (p : ℕ) (xs ys : List ℕ) (n : ℕ) → Seg h p (xs ++ ys) n → Seg h p xs (first_or ys n)
  Seg-left p [] ys n s = tt
  Seg-left p (x ∷ []) ys n s = (s.0, s.1, tt)
  Seg-left p (x ∷ y ∷ xs) ys n s = (s.0, s.1, Seg-left x (y ∷ xs) ys n s.2)

  pub Seg-right :
      (p : ℕ) (xs ys : List ℕ) (n : ℕ) → Seg h p (xs ++ ys) n → Seg h (last_or p xs) ys n
  Seg-right p [] ys n s = s
  Seg-right p (x ∷ xs) ys n s = Seg-right x xs ys n s.2

  -- A write outside a chain leaves it as it is.
  pub Seg-update_prev :
      (a v p : ℕ) (xs : List ℕ) (n : ℕ)
      → NotIn a xs
      → Seg h p xs n
      → Seg (record { prev = update h.prev a v; next = h.next }) p xs n
  Seg-update_prev a v p [] n out s = tt
  Seg-update_prev a v p (x ∷ xs) n out s =
      (rw (update-ne h.prev a v x out.0) s.0, s.1, Seg-update_prev a v x xs n out.1 s.2)

  pub Seg-update_next :
      (a v p : ℕ) (xs : List ℕ) (n : ℕ)
      → NotIn a xs
      → Seg h p xs n
      → Seg (record { prev = h.prev; next = update h.next a v }) p xs n
  Seg-update_next a v p [] n out s = tt
  Seg-update_next a v p (x ∷ xs) n out s =
      (s.0, rw (update-ne h.next a v x out.0) s.1, Seg-update_next a v x xs n out.1 s.2)

  -- The first element's `prev` and the last element's `next` can be set.
  pub Seg-set_prev :
      (v p x : ℕ) (xs : List ℕ) (n : ℕ)
      → NotIn x xs
      → Seg h p (x ∷ xs) n
      → Seg (record { prev = update h.prev x v; next = h.next }) v (x ∷ xs) n
  Seg-set_prev v p x xs n out s = (update_self h.prev x v, s.1, Seg-update_prev x v x xs n out s.2)

pub NotIn-last : (a x : ℕ) (xs : List ℕ) → NotIn a (x ∷ xs) → last_or x xs ≢ a
NotIn-last a x [] out = λ e. out.0 (sym e)
NotIn-last a x (y ∷ xs) out = NotIn-last a y xs out.1

pub last-ne : (x : ℕ) (xs : List ℕ) → NotIn null (x ∷ xs) → last_or x xs ≢ null
last-ne x xs out = NotIn-last null x xs out

module _ (h : Links) where
  pub Seg-set_next :
      (v p x : ℕ) (xs : List ℕ) (n : ℕ)
      → Distinct (x ∷ xs)
      → Seg h p (x ∷ xs) n
      → Seg (record { prev = h.prev; next = update h.next (last_or x xs) v }) p (x ∷ xs) v
  Seg-set_next v p x [] n d s = (s.0, update_self h.next x v, tt)
  Seg-set_next v p x (y ∷ xs) n d s = (
    s.0,
    rw (update-ne h.next (last_or y xs) v x (NotIn-last x y xs d.0)) s.1,
    Seg-set_next v x y xs n d.1 s.2,
  )

pub last_or-append :
    (p : ℕ) (xs : List ℕ) (y : ℕ) (ys : List ℕ) → last_or p (xs ++ y ∷ ys) ≡ last_or y ys
last_or-append p [] y ys = refl
last_or-append p (x ∷ xs) y ys = last_or-append x xs y ys

pub first_or-append :
    (xs : List ℕ) (y : ℕ) (ys : List ℕ) (n : ℕ) → first_or (xs ++ y ∷ ys) n ≡ first_or xs y
first_or-append [] y ys n = refl
first_or-append (x ∷ xs) y ys n = refl

pub NotIn-append : (a : ℕ) (xs ys : List ℕ) → NotIn a xs → NotIn a ys → NotIn a (xs ++ ys)
NotIn-append a [] ys o q = q
NotIn-append a (x ∷ xs) ys o q = (o.0, NotIn-append a xs ys o.1 q)

pub NotIn-left : (a : ℕ) (xs ys : List ℕ) → NotIn a (xs ++ ys) → NotIn a xs
NotIn-left a [] ys o = tt
NotIn-left a (x ∷ xs) ys o = (o.0, NotIn-left a xs ys o.1)

pub NotIn-right : (a : ℕ) (xs ys : List ℕ) → NotIn a (xs ++ ys) → NotIn a ys
NotIn-right a [] ys o = o
NotIn-right a (x ∷ xs) ys o = NotIn-right a xs ys o.1

pub Distinct-left : (xs ys : List ℕ) → Distinct (xs ++ ys) → Distinct xs
Distinct-left [] ys d = tt
Distinct-left (x ∷ xs) ys d = (NotIn-left x xs ys d.0, Distinct-left xs ys d.1)

pub Distinct-right : (xs ys : List ℕ) → Distinct (xs ++ ys) → Distinct ys
Distinct-right [] ys d = d
Distinct-right (x ∷ xs) ys d = Distinct-right xs ys d.1

-- An element of the second part is none of the first.
pub middle-NotIn : (xs : List ℕ) (y : ℕ) (ys : List ℕ) → Distinct (xs ++ y ∷ ys) → NotIn y xs
middle-NotIn [] y ys d = tt
middle-NotIn (x ∷ xs) y ys d =
    (λ e. (NotIn-right x xs (y ∷ ys) d.0).0 (sym e), middle-NotIn xs y ys d.1)

pub last-NotIn : (x : ℕ) (xs ys : List ℕ) → Distinct (x ∷ xs ++ ys) → NotIn (last_or x xs) ys
last-NotIn x [] ys d = d.0
last-NotIn x (y ∷ xs) ys d = last-NotIn y xs ys d.1

-- A new element can stand anywhere.
pub Distinct-insert :
    (xs : List ℕ) (y : ℕ) (ys : List ℕ)
    → Distinct (xs ++ ys)
    → NotIn y (xs ++ ys)
    → Distinct (xs ++ y ∷ ys)
Distinct-insert [] y ys d o = (o, d)
Distinct-insert (x ∷ xs) y ys d o = (
  NotIn-append x xs (y ∷ ys) (NotIn-left x xs ys d.0) (λ e. o.0 (sym e), NotIn-right x xs ys d.0),
  Distinct-insert xs y ys d.1 o.1,
)

pub Distinct-remove :
    (xs : List ℕ) (y : ℕ) (ys : List ℕ) → Distinct (xs ++ y ∷ ys) → Distinct (xs ++ ys)
Distinct-remove [] y ys d = d.1
Distinct-remove (x ∷ xs) y ys d = (
  NotIn-append x xs ys (NotIn-left x xs (y ∷ ys) d.0) (NotIn-right x xs (y ∷ ys) d.0).1,
  Distinct-remove xs y ys d.1,
)

pub Distinct-snoc : (xs : List ℕ) (y : ℕ) → Distinct xs → NotIn y xs → Distinct (xs ++ y ∷ [])
Distinct-snoc xs y d o = Distinct-insert xs y [] (rw append-nil d) (rw append-nil o)

-- Two writes, read at a third place or at the first.
pub update-update_ne :
    (f : ℕ → ℕ) (p v q w a : ℕ) → a ≢ p → a ≢ q → update (update f p v) q w a ≡ f a
update-update_ne f p v q w a np nq =
    update-ne (update f p v) q w a (λ e. nq (sym e)) ∙ update-ne f p v a (λ e. np (sym e))

pub update-update_first : (f : ℕ → ℕ) (p v q w : ℕ) → p ≢ q → update (update f p v) q w p ≡ v
update-update_first f p v q w ne =
    update-ne (update f p v) q w p (λ e. ne (sym e)) ∙ update_self f p v
