-- ===== src/Sys/List2/Insert.antt =====
-- The operations of sys/list2.c that add an element, on a well-formed list.
use esp_hostdriver.Prelude.{
  ℕ, ◌≡◌, ◌≢◌, refl, sym, List, [], ◌∷◌, ◌++◌, ◌∙◌, append_assoc, arith, ==_ne, ==_self,
}
use esp_hostdriver.Sys.Links.{
  Links, null, update, Ends, ends, mono, set_next-ok, set_prev-ok, get_prev-ok,
}
use esp_hostdriver.Sys.List2.{add_head, add_tail, add_in}
use esp_hostdriver.Sys.List2.Shape.{
  first_or, last_or, NotIn, Distinct, Seg, IsList, SameOutside, update-ne, update_self, Seg-append,
  Seg-left, Seg-right, update-update_ne, update-update_first, Seg-update_prev, Seg-update_next,
  Seg-set_prev, Seg-set_next, NotIn-last, last-ne, last_or-append, Distinct-insert, Distinct-snoc,
  NotIn-left, NotIn-right, Distinct-right, middle-NotIn, first_or-append,
}

module _ (h : Links) (el : ℕ) where
  add_tail-Seg :
      (xs : List ℕ)
      → Seg h (last_or null xs) xs null
      → Distinct (null ∷ xs)
      → NotIn el (null ∷ xs)
      → Ends
          (λ head' g. IsList g head' (xs ++ el ∷ []) × SameOutside (el ∷ xs) h g)
          (add_tail (first_or xs null) el h)
  unfolding add_tail
  add_tail-Seg [] s d out =
      rw (set_next-ok h el out.0, ==_self null, set_prev-ok _ el out.0)
        (ends (
          record {
            starts = refl;
            linked = (update_self h.prev el el, update_self h.next el null, tt);
            distinct = Distinct-snoc (null ∷ []) el d out;
          },
          λ a o. ground (arith, o.0),
        ))
  add_tail-Seg (x ∷ xs) s d out =
      let x_ne = λ (e : x ≡ null). d.0.0 (sym e) in
      let l = last_or x xs in
      let l_ne : l ≢ el = NotIn-last el x xs out.1 in
      let s1 =
        Seg-update_prev _ el l l (x ∷ xs) null out.1
          (Seg-update_next h el null l (x ∷ xs) null out.1 s) in
      let s2 = Seg-set_prev _ el l x xs el d.1.0 (Seg-set_next _ el l x xs null d.1 s1) in
      rw
        (
          set_next-ok h el out.0,
          ==_ne x null x_ne,
          get_prev-ok _ x x_ne,
          s.0,
          set_prev-ok _ el out.0,
          set_next-ok _ l (last-ne x xs d.0),
          set_prev-ok _ x x_ne,
        )
        (ends (
          record {
            starts = refl;
            linked = rw (last_or-append null (x ∷ xs) el []) (
                Seg-append _ el (x ∷ xs) (el ∷ []) null s2 (
                  update-ne (update h.prev el l) x el el (λ e. out.1.0 (sym e))
                      ∙ update_self h.prev el l,
                  update-ne (update h.next el null) l el el l_ne ∙ update_self h.next el null,
                  tt,
                ));
            distinct = Distinct-snoc (null ∷ x ∷ xs) el d out;
          },
          λ a o. ground (arith, o.0, o.1.0, NotIn-last a x xs o.1),
        ))

  add_head-Seg :
      (xs : List ℕ)
      → Seg h (last_or null xs) xs null
      → Distinct (null ∷ xs)
      → NotIn el (null ∷ xs)
      → Ends
          (λ head' g. IsList g head' (el ∷ xs) × SameOutside (el ∷ xs) h g)
          (add_head (first_or xs null) el h)
  unfolding add_head
  add_head-Seg [] s d out =
      rw (set_next-ok h el out.0, ==_self null, set_prev-ok _ el out.0)
        (ends (
          record {
            starts = refl;
            linked = (update_self h.prev el el, update_self h.next el null, tt);
            distinct = Distinct-insert (null ∷ []) el [] d out;
          },
          λ a o. ground (arith, o.0),
        ))
  add_head-Seg (x ∷ xs) s d out =
      let x_ne = λ (e : x ≡ null). d.0.0 (sym e) in
      let l = last_or x xs in
      let s1 =
        Seg-update_prev _ el l l (x ∷ xs) null out.1
          (Seg-update_next h el x l (x ∷ xs) null out.1 s) in
      rw
        (
          set_next-ok h el out.0,
          ==_ne x null x_ne,
          get_prev-ok _ x x_ne,
          s.0,
          set_prev-ok _ el out.0,
          set_prev-ok _ x x_ne,
        )
        (ends (
          record {
            starts = refl;
            linked = (
              ground (arith, out.1.0),
              update_self h.next el x,
              Seg-set_prev _ el l x xs null d.1.0 s1,
            );
            distinct = Distinct-insert (null ∷ []) el (x ∷ xs) d out;
          },
          λ a o. ground (arith, o.0, o.1.0),
        ))

-- `_list2_add_tail` puts a new element behind all others of a well-formed list, faults nowhere, and
-- changes the links of the list's elements alone.
pub add_tail-append :
    {h : Links} {head : ℕ} (el : ℕ) (xs : List ℕ)
    → IsList h head xs
    → NotIn el (null ∷ xs)
    → Ends
        (λ head' g. IsList g head' (xs ++ el ∷ []) × SameOutside (el ∷ xs) h g)
        (add_tail head el h)
add_tail-append {h} el xs is out = rw is.starts (add_tail-Seg h el xs is.linked is.distinct out)

-- `_list2_add_head` puts it in front of them, with the same care.
add_head-cons :
    {h : Links} {head : ℕ} (el : ℕ) (xs : List ℕ)
    → IsList h head xs
    → NotIn el (null ∷ xs)
    → Ends (λ head' g. IsList g head' (el ∷ xs) × SameOutside (el ∷ xs) h g) (add_head head el h)
add_head-cons {h} el xs is out = rw is.starts (add_head-Seg h el xs is.linked is.distinct out)

module _ (h : Links) (el f b : ℕ) where
  add_in-Seg :
      (p : ℕ) (xs ys : List ℕ)
      → Seg h p (xs ++ f ∷ b ∷ ys) null
      → Distinct (null ∷ xs ++ f ∷ b ∷ ys)
      → NotIn el (null ∷ xs ++ f ∷ b ∷ ys)
      → Ends
          (λ _ g. Seg g p (xs ++ f ∷ el ∷ b ∷ ys) null × SameOutside (el ∷ f ∷ b ∷ []) h g)
          (add_in el f b h)
  unfolding add_in
  add_in-Seg p xs ys s d out =
      let tail = f ∷ b ∷ ys in
      let dt : Distinct tail = Distinct-right xs tail d.1 in
      let ot : NotIn el tail = NotIn-right el xs tail out.1 in
      let nt : NotIn null tail = NotIn-right null xs tail d.0 in
      let oxs : NotIn el xs = NotIn-left el xs tail out.1 in
      let fxs : NotIn f xs = middle-NotIn xs f (b ∷ ys) d.1 in
      let bxs : NotIn b xs =
        NotIn-left b xs (f ∷ []) (middle-NotIn (xs ++ f ∷ []) b ys (rw append_assoc d.1)) in
      let f_ne = λ (e : f ≡ null). nt.0 (sym e) in
      let b_ne = λ (e : b ≡ null). nt.1.0 (sym e) in
      let st = Seg-right h p xs tail null s in
      let left = Seg-update_prev _ b el p xs f bxs (
        Seg-update_next _ f el p xs f fxs (
          Seg-update_next _ el b p xs f oxs
            (Seg-update_prev h el f p xs f oxs (Seg-left h p xs tail null s)))) in
      let right = Seg-set_prev _ el f b ys null dt.1.0 (
        Seg-update_next _ f el f (b ∷ ys) null dt.0 (
          Seg-update_next _ el b f (b ∷ ys) null ot.1
            (Seg-update_prev h el f f (b ∷ ys) null ot.1 st.2))) in
      rw
        (set_prev-ok h el out.0, set_next-ok _ el out.0, set_next-ok _ f f_ne, set_prev-ok _ b b_ne)
        (ends (
          Seg-append _ p xs (f ∷ el ∷ b ∷ ys) null left (
            update-update_ne h.prev el f b el f (λ e. ot.0 (sym e)) dt.0.0 ∙ st.0,
            update_self (update h.next el b) f el,
            (
              update-update_first h.prev el f b el ot.1.0,
              update-update_first h.next el b f el ot.0,
              right,
            ),
          ),
          λ a o. (
            update-update_ne h.prev el f b el a o.0 o.1.1.0,
            update-update_ne h.next el b f el a o.0 o.1.0,
          ),
        ))

-- `_list2_add_in` links a new element between two neighbours of a well-formed list; it writes to the
-- new element and these two alone.
pub add_in-middle :
    {h : Links} {head : ℕ} (el f b : ℕ) (xs ys : List ℕ)
    → IsList h head (xs ++ f ∷ b ∷ ys)
    → NotIn el (null ∷ xs ++ f ∷ b ∷ ys)
    → Ends
        (λ _ g. IsList g head (xs ++ f ∷ el ∷ b ∷ ys) × SameOutside (el ∷ f ∷ b ∷ []) h g)
        (add_in el f b h)
add_in-middle {h} {head} el f b xs ys is out =
    mono (add_in-Seg h el f b (last_or null (xs ++ f ∷ b ∷ ys)) xs ys is.linked is.distinct out)
      λ _ g (s, same). (
        record {
          starts =
              is.starts
              ∙ first_or-append xs f (b ∷ ys) null
              ∙ sym (first_or-append xs f (el ∷ b ∷ ys) null);
          linked =
              rw (last_or-append null xs f (el ∷ b ∷ ys), ← last_or-append null xs f (b ∷ ys)) s;
          distinct = rw append_assoc at (
              Distinct-insert (null ∷ xs ++ f ∷ []) el (b ∷ ys) (rw append_assoc is.distinct)
                (rw append_assoc out));
        },
        same,
      )
