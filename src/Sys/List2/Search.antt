-- ===== src/Sys/List2/Search.antt =====
-- `_list2_contains` and `_list2_find` of sys/list2.c, on a well-formed list.
use esp_hostdriver.Prelude.{
  ℕ, zero, suc, ◌+◌, ◌<◌, ◌≡◌, ◌≢◌, sym, Bool, false, ◌||◌, some, List, [], ◌∷◌, arith, length,
  ◌==◌, ==_ne, ==_self, if◌then◌else◌, Bool-cases, inl, inr,
}
use esp_hostdriver.Sys.Links.{Links, null, get_next-ok}
use esp_hostdriver.Sys.List2.{contains, contains_loop, find, for_each_find}
use esp_hostdriver.Sys.List2.Shape.{first_or, last_or, NotIn, Seg, IsList}

abbrev pub has : ℕ → List ℕ → Bool
has a [] = false
has a (x ∷ xs) = x == a || has a xs

-- The first address that passes the test, or null.
abbrev pub first_match : (ℕ → Bool) → List ℕ → ℕ
first_match test [] = null
first_match test (x ∷ xs) = if test x then x else first_match test xs

module _ (h : Links) where
  contains_loop-first_match :
      (el p k : ℕ) (xs : List ℕ)
      → Seg h p xs null
      → NotIn null xs
      → length xs < k
      → contains_loop k (first_or xs null) el h ≡ some (first_match (λ x. x == el) xs, h)
  unfolding contains_loop
  contains_loop-first_match el p zero xs s o fuel = elim fuel [ ]
  contains_loop-first_match el p (suc k) [] s o fuel = rw (==_self null)
  contains_loop-first_match el p (suc k) (x ∷ xs) s o fuel =
      let x_ne = λ (e : x ≡ null). o.0 (sym e) in
      elim (Bool-cases (x == el)) [
        | inl e ↦ rw (==_ne x null x_ne, e)
        | inr e ↦
            rw (==_ne x null x_ne, e, get_next-ok h x x_ne, s.1)
              (contains_loop-first_match el x k xs s.2 o.1 (omega arith))
      ]

  for_each_find-null :
      (test : ℕ → Bool) (k next : ℕ) → 0 < k → for_each_find test k null next h ≡ some (null, h)
  unfolding for_each_find
  for_each_find-null test zero next fuel = elim fuel [ ]
  for_each_find-null test (suc k) next fuel = rw (==_self null)

  for_each_find-first_match :
      (test : ℕ → Bool) (p k : ℕ) (x : ℕ) (xs : List ℕ)
      → Seg h p (x ∷ xs) null
      → NotIn null (x ∷ xs)
      → length xs + 1 < k
      → for_each_find test k x (first_or xs null) h ≡ some (first_match test (x ∷ xs), h)
  unfolding for_each_find
  for_each_find-first_match test p zero x xs s o fuel = elim fuel [ ]
  for_each_find-first_match test p (suc k) x [] s o fuel =
      let x_ne = λ (e : x ≡ null). o.0 (sym e) in
      elim (Bool-cases (test x)) [
        | inl e ↦ rw (==_ne x null x_ne, e)
        | inr e ↦
            rw (==_ne x null x_ne, e, ==_self null) (for_each_find-null test k null (omega arith))
      ]
  for_each_find-first_match test p (suc k) x (y ∷ ys) s o fuel =
      let x_ne = λ (e : x ≡ null). o.0 (sym e) in
      let y_ne = λ (e : y ≡ null). o.1.0 (sym e) in
      elim (Bool-cases (test x)) [
        | inl e ↦ rw (==_ne x null x_ne, e)
        | inr e ↦
            rw (==_ne x null x_ne, e, ==_ne y null y_ne, get_next-ok h y y_ne, s.2.1)
              (for_each_find-first_match test x k y ys s.2 o.1 (omega arith))
      ]

first_match-has :
    (el : ℕ) (xs : List ℕ) → el ≢ null → (first_match (λ x. x == el) xs == el) ≡ has el xs
first_match-has el [] ne = ==_ne null el (λ e. ne (sym e))
first_match-has el (x ∷ xs) ne = elim (Bool-cases (x == el)) [
  | inl e ↦ rw (e, e)
  | inr e ↦ rw (e) (first_match-has el xs ne)
]

-- `_list2_contains` ends on a well-formed list within one round more than it has elements, and says
-- whether an element that is not null is one of them.
contains-has :
    {h : Links} {head : ℕ} (el k : ℕ) (xs : List ℕ)
    → IsList h head xs
    → el ≢ null
    → length xs < k
    → contains k head el h ≡ some (has el xs, h)
unfolding contains
contains-has {h} el k xs is ne fuel = rw (
  is.starts,
  contains_loop-first_match h el (last_or null xs) k xs is.linked is.distinct.0 fuel,
  first_match-has el xs ne,
)

-- `_list2_find` ends within one round more than the list has elements, and returns the first element
-- that passes the test, or null if none does.
find-first_match :
    {h : Links} {head : ℕ} (test : ℕ → Bool) (k : ℕ) (xs : List ℕ)
    → IsList h head xs
    → length xs < k
    → find test k head h ≡ some (first_match test xs, h)
unfolding find
find-first_match {h} test k [] is fuel =
    rw (is.starts, ==_self null) (for_each_find-null h test k null (omega arith))
find-first_match {h} test k (x ∷ xs) is fuel =
    let x_ne = λ (e : x ≡ null). is.distinct.0.0 (sym e) in
    rw (is.starts, ==_ne x null x_ne, get_next-ok h x x_ne, is.linked.1)
      (for_each_find-first_match h test (last_or x xs) k x xs is.linked is.distinct.0 (omega arith))
