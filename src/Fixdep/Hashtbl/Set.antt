-- ===== src/Fixdep/Hashtbl/Set.antt =====
-- scripts/build/fixdep/hashtbl.c as a set of names.
use esp_hostdriver.Prelude.{
  ℕ, zero, suc, ◌+◌, ◌-◌, ◌%◌, ◌≤◌, ◌<◌, ◌≡◌, refl, sym, ◌∙◌, ap, Bool, true, false, List, [], ◌∷◌,
  ◌++◌, arith, ◌==◌, ==_self, if◌then◌else◌, Bool-cases, inl, inr, length, take, take-append,
  take-length, All, eq_of_==, ne_of_==,
}
use esp_hostdriver.Libc.Strings.{str_eq}
use esp_hostdriver.Fixdep.{Item, Tool, done, exited}
use esp_hostdriver.Fixdep.Hashtbl.{
  table_size, strhash, find_item, hashtbl_lookup, set_bucket, hashtbl_add, clear_from,
  hashtbl_clear,
}

pub str_eq_self : (a : List ℕ) → str_eq a a ≡ true
str_eq_self [] = refl
str_eq_self (c ∷ a) = rw (==_self c) (str_eq_self a)

pub str_eq_same : (a b : List ℕ) → str_eq a b ≡ true → a ≡ b
str_eq_same [] [] h = refl
str_eq_same [] (b ∷ bs) h = absurd cc
str_eq_same (a ∷ as') [] h = absurd cc
str_eq_same (a ∷ as') (b ∷ bs) h = elim (Bool-cases (a == b)) [
  | inl e ↦
      let rest : str_eq as' bs ≡ true = rw e at h in cc (eq_of_== a b e, str_eq_same as' bs rest)
  | inr e ↦ absurd (let no : false ≡ true = rw e at h in cc)
]

-- Whether a name is among others.
unfoldable pub has : List (List ℕ) → List ℕ → Bool
has [] q = false
has (n ∷ names) q = if str_eq n q then true else has names q

unfoldable pub names_of : List Item → List (List ℕ)
names_of [] = []
names_of (aux ∷ items) = aux.name ∷ names_of items

-- The bucket of a name.
unfoldable pub slot : List ℕ → ℕ
slot q = strhash q (length q) % table_size

pub slot-lt : (q : List ℕ) → slot q < table_size
unfolding slot
slot-lt q = omega arith

-- An item carries the length and the hash of its name.
abbrev pub IsItem : Item → Type 0
IsItem aux = (aux.len ≡ length aux.name) × (aux.hash ≡ strhash aux.name aux.len)

find_item-has :
    (items : List Item) (q m : List ℕ)
    → take (length q) m ≡ q
    → All IsItem items
    → find_item items m (length q) (strhash q (length q)) ≡ has (names_of items) q
unfolding find_item has names_of
find_item-has [] q m p h = refl
find_item-has (aux ∷ items) q m p ((l, k), h) = elim (Bool-cases (str_eq aux.name q)) [
  | inl e ↦
      let same = str_eq_same aux.name q e in
      let len : aux.len ≡ length q = cc in
      let hash : aux.hash ≡ strhash q (length q) = cc in
      rw (p, e, hash, len, ==_self (strhash q (length q)), ==_self (length q)) refl
  | inr e ↦ rw (p, e) (ground (arith, find_item-has items q m p h))
]

-- The table holds the names of `s`: each item is what it should be, and a name is in its bucket if and
-- only if it is one of `s`.
pub record Holds (s : List (List ℕ)) (t : Tool) : Type 0 where
  pub items : (i : ℕ) → i < table_size → All IsItem (t.hashtab i)
  pub reads : (q : List ℕ) → has (names_of (t.hashtab (slot q))) q ≡ has s q

set_bucket_same :
    (i j : ℕ) (items : List Item) (tab : ℕ → List Item) → j ≡ i → set_bucket i items tab j ≡ items
set_bucket_same i j items tab e = rw (e, ==_self i) refl

set_bucket-nil : (i j : ℕ) (tab : ℕ → List Item) → tab j ≡ [] → set_bucket i [] tab j ≡ []
set_bucket-nil i j tab h = elim (Bool-cases (j == i)) [ inl e ↦ rw e refl | inr e ↦ rw e h ]

-- The loop leaves an empty bucket empty.
clear_from_stays : (i n j : ℕ) (tab : ℕ → List Item) → tab j ≡ [] → clear_from i n tab j ≡ []
unfolding clear_from
clear_from_stays i zero j tab h = h
clear_from_stays i (suc n) j tab h =
    clear_from_stays (suc i) n j (set_bucket i [] tab) (set_bucket-nil i j tab h)

-- After `n` rounds the buckets from `i` to `i + n` are empty.
clear_from-nil : (i n j : ℕ) (tab : ℕ → List Item) → i ≤ j → j < i + n → clear_from i n tab j ≡ []
unfolding clear_from
clear_from-nil i zero j tab lo hi = absurd (omega arith)
clear_from-nil i (suc n) j tab lo hi = elim (Bool-cases (j == i)) [
  | inl e ↦
      clear_from_stays (suc i) n j (set_bucket i [] tab)
        (set_bucket_same i j [] tab (eq_of_== j i e))
  | inr e ↦
      let ne = ne_of_== j i e in
      clear_from-nil (suc i) n j (set_bucket i [] tab) (omega arith) (omega arith)
]

-- `hashtbl_clear` leaves a table of no names, whatever it was.
pub hashtbl_clear-Holds :
    (t : Tool)
    → (t' : Tool) × (hashtbl_clear t ≡ done tt t')
      × Holds [] t'
      × (t'.budget ≡ t.budget)
      × (t'.out ≡ t.out)
unfolding hashtbl_clear names_of has
hashtbl_clear-Holds t =
    let nil =
      λ (j : ℕ) (h : j < table_size). clear_from-nil 0 table_size j t.hashtab (omega arith) h in
    (
      record t { hashtab = clear_from 0 table_size t.hashtab },
      refl,
      record { items = λ i h. rw (nil i h) tt; reads = λ q. rw (nil (slot q) (slot-lt q)) refl },
      refl,
      refl,
    )

strhash-take : (n m : List ℕ) (len : ℕ) → take len m ≡ n → strhash m len ≡ strhash n (length n)
unfolding strhash
strhash-take n m len p = rw (p, take-length (length n) n (omega arith)) refl

module _ (s : List (List ℕ)) (t : Tool) (holds : Holds s t) (n rest : List ℕ) where
  read : take (length n) (n ++ rest) ≡ n
  read = take-append (length n) n rest refl

  -- `hashtbl_lookup` finds the names that the table holds
  pub hashtbl_lookup-has : hashtbl_lookup (n ++ rest) (length n) (strhash n (length n)) t ≡ has s n
  unfolding hashtbl_lookup slot
  hashtbl_lookup-has =
      find_item-has (t.hashtab (slot n)) n (n ++ rest) read (holds.items (slot n) (slot-lt n))
      ∙ holds.reads n

  abbrev pub item_of : Item
  item_of = record { len = length n; hash = strhash n (length n); name = n }

  abbrev pub added : Tool
  added = record t {
    budget = t.budget - 1;
    hashtab = set_bucket (slot n) (item_of ∷ t.hashtab (slot n)) t.hashtab;
  }

  pub added-Holds : Holds (n ∷ s) added
  unfolding has names_of
  added-Holds = record {
    items = λ i h. elim (Bool-cases (i == slot n)) [
      | inl e ↦ rw e ((refl, refl), holds.items (slot n) (slot-lt n))
      | inr e ↦ rw e (holds.items i h)
    ];
    reads = λ q. elim (Bool-cases (slot q == slot n)) [
      | inl e ↦
          let same = eq_of_== (slot q) (slot n) e in
          let r : has (names_of (t.hashtab (slot n))) q ≡ has s q = rw same at (holds.reads q) in
          rw (e, r) refl
      | inr e ↦ elim (Bool-cases (str_eq n q)) [
        | inl f ↦ absurd (ne_of_== (slot q) (slot n) e (ap slot (sym (str_eq_same n q f))))
        | inr f ↦ rw (e, f) (holds.reads q)
      ]
    ];
  }

  pub hashtbl_add_lem :
      hashtbl_add (n ++ rest) (length n) t
      ≡ (if has s n then done true t else if t.budget == 0 then exited 1 t else done false added)
  unfolding hashtbl_add slot
  hashtbl_add_lem = rw (strhash-take n (n ++ rest) (length n) read, hashtbl_lookup-has, read) refl
