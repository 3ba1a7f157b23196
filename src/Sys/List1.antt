-- ===== src/Sys/List1.antt =====
-- sys/list1.c and the macros of include/sys/list1.h: singly linked lists with a head and a tail
-- pointer. Both pointers are passed by value, and their new values are the result.
mod Tests
use esp_hostdriver.Prelude.{
  ℕ, ◌≡◌, ◌≢◌, refl, sym, ◌∙◌, List, [], ◌∷◌, ◌++◌, ◌==◌, ==_ne, ==_self, if◌then◌else◌,
}
use esp_hostdriver.Sys.Links.{
  Links, M, pure, ◌>>=◌, ◌>>◌, null, get_next, set_next, get_next-ok, set_next-ok, update, Ends,
  ends,
}
use esp_hostdriver.Sys.List2.Shape.{
  first_or, last_or, NotIn, Distinct, update-ne, update_self, NotIn-last, last-ne, last_or-append,
  Distinct-insert, Distinct-snoc,
}

-- `_list1_init`: the tail.
unfoldable pub init : ℕ → M ℕ
init head = do set_next head null; pure head

-- `_add_head`
unfoldable pub add_head : ℕ → ℕ → ℕ → M (ℕ × ℕ)
add_head head tail el = do set_next el head; pure (el, if tail == null then el else tail)

-- `_add_tail`
unfoldable pub add_tail : ℕ → ℕ → ℕ → M (ℕ × ℕ)
add_tail head tail el = do
  set_next el null
  if tail == null then pure tt else set_next tail el
  pure (if head == null then el else head, el)

-- `_list1_rm_head`
unfoldable pub rm_head : ℕ → ℕ → M (ℕ × ℕ)
rm_head head tail = do
  let tail' = if tail == head then null else tail
  head' ← get_next head
  pure (head', tail')

-- The `next` pointers lead through `xs` to null.
abbrev pub Chain : Links → List ℕ → Type 0
Chain h [] = Unit {0}
Chain h (x ∷ xs) = (h.next x ≡ first_or xs null) × Chain h xs

-- `head` and `tail` hold the list of the elements `xs`.
pub record IsList (h : Links) (head tail : ℕ) (xs : List ℕ) : Type 0 where
  pub starts : head ≡ first_or xs null
  pub stops : tail ≡ last_or null xs
  pub linked : Chain h xs
  pub distinct : Distinct (null ∷ xs)

Chain-update :
    (h : Links) (a v : ℕ) (xs : List ℕ)
    → NotIn a xs
    → Chain h xs
    → Chain (record { prev = h.prev; next = update h.next a v }) xs
Chain-update h a v [] o c = tt
Chain-update h a v (x ∷ xs) o c =
    (rw (update-ne h.next a v x o.0) c.0, Chain-update h a v xs o.1 c.1)

Chain-snoc :
    (h : Links) (el x : ℕ) (xs : List ℕ)
    → Distinct (x ∷ xs)
    → NotIn el (x ∷ xs)
    → h.next el ≡ null
    → Chain h (x ∷ xs)
    → Chain (record { prev = h.prev; next = update h.next (last_or x xs) el }) (x ∷ xs ++ el ∷ [])
Chain-snoc h el x [] d o e c =
    (update_self h.next x el, (update-ne h.next x el el (λ p. o.0 (sym p)) ∙ e, tt))
Chain-snoc h el x (y ∷ ys) d o e c = (
  update-ne h.next (last_or y ys) el x (NotIn-last x y ys d.0) ∙ c.0,
  Chain-snoc h el y ys d.1 o.1 e c.1,
)

add_tail-Chain :
    (h : Links) (el : ℕ) (xs : List ℕ)
    → Chain h xs
    → Distinct (null ∷ xs)
    → NotIn el (null ∷ xs)
    → Ends
        (λ (head, tail) g. IsList g head tail (xs ++ el ∷ []))
        (add_tail (first_or xs null) (last_or null xs) el h)
unfolding add_tail
add_tail-Chain h el [] c d o =
    rw (set_next-ok h el o.0, ==_self null)
      (ends (record {
        starts = refl;
        stops = refl;
        linked = (update_self h.next el null, tt);
        distinct = Distinct-snoc (null ∷ []) el d o;
      }))
add_tail-Chain h el (x ∷ xs) c d o =
    let l = last_or x xs in
    let l_ne : l ≢ null = last-ne x xs d.0 in
    rw
      (
        set_next-ok h el o.0,
        ==_ne l null l_ne,
        set_next-ok _ l l_ne,
        ==_ne x null (λ e. d.0.0 (sym e)),
      )
      (ends (record {
        starts = refl;
        stops = sym (last_or-append x xs el []);
        linked =
            Chain-snoc (record { prev = h.prev; next = update h.next el null }) el x xs d.1 o.1
              (update_self h.next el null) (Chain-update h el null (x ∷ xs) o.1 c);
        distinct = Distinct-snoc (null ∷ x ∷ xs) el d o;
      }))

-- `_add_tail` puts a new element behind all others, and both pointers follow.
pub add_tail-IsList :
    {h : Links} {head tail : ℕ} (el : ℕ) (xs : List ℕ)
    → IsList h head tail xs
    → NotIn el (null ∷ xs)
    → Ends (λ (head', tail') g. IsList g head' tail' (xs ++ el ∷ [])) (add_tail head tail el h)
add_tail-IsList {h} el xs is o =
    rw (is.starts, is.stops) (add_tail-Chain h el xs is.linked is.distinct o)

-- `_add_head` puts it in front of them; the tail changes only if the list was empty.
pub add_head-IsList :
    {h : Links} {head tail : ℕ} (el : ℕ) (xs : List ℕ)
    → IsList h head tail xs
    → NotIn el (null ∷ xs)
    → Ends (λ (head', tail') g. IsList g head' tail' (el ∷ xs)) (add_head head tail el h)
unfolding add_head
add_head-IsList {h} {head} {tail} el xs is o = rw (set_next-ok h el o.0) (
    ends (record {
      starts = refl;
      stops = new_tail xs is.stops is.distinct;
      linked = (update_self h.next el head ∙ is.starts, Chain-update h el head xs o.1 is.linked);
      distinct = Distinct-insert (null ∷ []) el xs is.distinct o;
    }))
  where
    new_tail :
        (xs : List ℕ)
        → tail ≡ last_or null xs
        → Distinct (null ∷ xs)
        → (if tail == null then el else tail) ≡ last_or el xs
    new_tail [] e d = rw (e, ==_self null)
    new_tail (x ∷ xs) e d = rw (e, ==_ne (last_or x xs) null (last-ne x xs d.0))

rm_head-Chain :
    (h : Links) (x : ℕ) (xs : List ℕ)
    → Chain h (x ∷ xs)
    → Distinct (null ∷ x ∷ xs)
    → Ends (λ (head, tail) g. IsList g head tail xs × (g ≡ h)) (rm_head x (last_or x xs) h)
unfolding rm_head
rm_head-Chain h x [] c d =
    rw (get_next-ok h x (λ e. d.0.0 (sym e)), c.0, ==_self x)
      (ends (record { starts = refl; stops = refl; linked = tt; distinct = (tt, tt) }, refl))
rm_head-Chain h x (y ∷ ys) c d =
    rw (get_next-ok h x (λ e. d.0.0 (sym e)), c.0, ==_ne (last_or y ys) x (NotIn-last x y ys d.1.0))
      (ends (record { starts = refl; stops = refl; linked = c.1; distinct = (d.0.1, d.1.1) }, refl))

-- `_list1_rm_head` drops the first element of a list that is not empty, and writes to no element.
pub rm_head-tail :
    {h : Links} {head tail : ℕ} (x : ℕ) (xs : List ℕ)
    → IsList h head tail (x ∷ xs)
    → Ends (λ (head', tail') g. IsList g head' tail' xs × (g ≡ h)) (rm_head head tail h)
rm_head-tail {h} x xs is = rw (is.starts, is.stops) (rm_head-Chain h x xs is.linked is.distinct)
