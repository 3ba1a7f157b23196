-- ===== src/Sys/List2/Remove.antt =====
-- `_list2_rm` of sys/list2.c, on a well-formed list.
use esp_hostdriver.Prelude.{
  ℕ, ◌≡◌, ◌≢◌, refl, sym, List, [], ◌∷◌, ◌++◌, append-nil, append_assoc, ==_ne, ==_self,
}
use esp_hostdriver.Sys.Links.{
  Links, null, Ends, ends, set_next-ok, set_prev-ok, get_prev-ok, get_next-ok,
}
use esp_hostdriver.Sys.List2.{rm}
use esp_hostdriver.Sys.List2.Shape.{
  first_or, last_or, NotIn, Distinct, Seg, IsList, SameOutside, update-ne, Seg-append, Seg-left,
  Seg-right, Seg-update_prev, Seg-update_next, Seg-set_prev, Seg-set_next, NotIn-last, last-ne,
  last_or-append, first_or-append, NotIn-left, NotIn-right, Distinct-left, Distinct-right,
  middle-NotIn, last-NotIn, Distinct-remove,
}

module _ (h : Links) (el : ℕ) where
  -- The four places of the element: alone, first, last, and in the middle.
  rm-Seg :
      (xs ys : List ℕ)
      → Seg h (last_or null (xs ++ el ∷ ys)) (xs ++ el ∷ ys) null
      → Distinct (null ∷ xs ++ el ∷ ys)
      → Ends
          (λ head' g. IsList g head' (xs ++ ys) × SameOutside (xs ++ el ∷ ys) h g)
          (rm (first_or xs el) el h)
  unfolding rm
  rm-Seg [] [] s d =
      let el_ne = λ (e : el ≡ null). d.0.0 (sym e) in
      rw
        (
          ==_self el,
          get_next-ok h el el_ne,
          get_prev-ok h el el_ne,
          s.1,
          s.0,
          ==_self null,
          set_prev-ok h el el_ne,
          get_next-ok _ el el_ne,
          s.1,
        )
        (ends (
          record { starts = refl; linked = tt; distinct = (tt, tt) },
          λ a o. (update-ne h.prev el el a (λ e. o.0 (sym e)), refl),
        ))
  rm-Seg [] (y ∷ ys) s d =
      let el_ne = λ (e : el ≡ null). d.0.0 (sym e) in
      let y_ne = λ (e : y ≡ null). d.0.1.0 (sym e) in
      rw
        (
          ==_self el,
          get_next-ok h el el_ne,
          get_prev-ok h el el_ne,
          s.1,
          s.0,
          ==_ne y null y_ne,
          set_prev-ok h y y_ne,
          get_next-ok _ el el_ne,
          s.1,
        )
        (ends (
          record {
            starts = refl;
            linked = Seg-set_prev h (last_or y ys) el y ys null d.1.1.0 s.2;
            distinct = Distinct-remove (null ∷ []) el (y ∷ ys) d;
          },
          λ a o. (update-ne h.prev y (last_or y ys) a (λ e. o.1.0 (sym e)), refl),
        ))
  rm-Seg (x ∷ xs) [] s d =
      let l = last_or x xs in
      let out : NotIn el (x ∷ xs) = middle-NotIn (x ∷ xs) el [] d.1 in
      let el_ne = λ (e : el ≡ null). (NotIn-right null (x ∷ xs) (el ∷ []) d.0).0 (sym e) in
      let x_ne = λ (e : x ≡ null). d.0.0 (sym e) in
      let l_el : l ≢ el = (last-NotIn x xs (el ∷ []) d.1).0 in
      let l_ne : l ≢ null = last-ne x xs (NotIn-left null (x ∷ xs) (el ∷ []) d.0) in
      let dxs : Distinct (x ∷ xs) = Distinct-left (x ∷ xs) (el ∷ []) d.1 in
      let s' : Seg h el (x ∷ xs ++ el ∷ []) null = rw (last_or-append x xs el []) at s in
      let st = Seg-right h el (x ∷ xs) (el ∷ []) null s' in
      rw
        (
          ==_ne el x out.0,
          get_prev-ok h el el_ne,
          get_next-ok h el el_ne,
          st.0,
          st.1,
          set_next-ok h l l_ne,
          get_next-ok _ el el_ne,
          update-ne h.next l null el l_el,
          st.1,
          get_prev-ok _ el el_ne,
          st.0,
          ==_self null,
          set_prev-ok _ x x_ne,
        )
        (ends (
          rw append-nil (record {
            starts = refl;
            linked =
                Seg-set_prev _ l el x xs null dxs.0
                  (Seg-set_next h null el x xs el dxs (Seg-left h el (x ∷ xs) (el ∷ []) null s'));
            distinct = Distinct-left (null ∷ x ∷ xs) (el ∷ []) d;
          }),
          λ a o. (
            update-ne h.prev x l a (λ e. o.0 (sym e)),
            update-ne h.next l null a (NotIn-last a x xs (NotIn-left a (x ∷ xs) (el ∷ []) o)),
          ),
        ))
  rm-Seg (x ∷ xs) (y ∷ ys) s d =
      let l = last_or x xs in
      let tail = el ∷ y ∷ ys in
      let out : NotIn el (x ∷ xs) = middle-NotIn (x ∷ xs) el (y ∷ ys) d.1 in
      let nt : NotIn null tail = NotIn-right null (x ∷ xs) tail d.0 in
      let el_ne = λ (e : el ≡ null). nt.0 (sym e) in
      let y_ne = λ (e : y ≡ null). nt.1.0 (sym e) in
      let lt : NotIn l tail = last-NotIn x xs tail d.1 in
      let l_ne : l ≢ null = last-ne x xs (NotIn-left null (x ∷ xs) tail d.0) in
      let dxs : Distinct (x ∷ xs) = Distinct-left (x ∷ xs) tail d.1 in
      let dt : Distinct tail = Distinct-right (x ∷ xs) tail d.1 in
      let yxs : NotIn y (x ∷ xs) =
        NotIn-left y (x ∷ xs) (el ∷ [])
          (middle-NotIn (x ∷ xs ++ el ∷ []) y ys (rw append_assoc d.1)) in
      let p = last_or y ys in
      let s' : Seg h p (x ∷ xs ++ tail) null = rw (last_or-append x xs el (y ∷ ys)) at s in
      let st = Seg-right h p (x ∷ xs) tail null s' in
      rw
        (
          ==_ne el x out.0,
          get_prev-ok h el el_ne,
          get_next-ok h el el_ne,
          st.0,
          st.1,
          set_next-ok h l l_ne,
          get_next-ok _ el el_ne,
          update-ne h.next l y el lt.0,
          st.1,
          get_prev-ok _ el el_ne,
          st.0,
          ==_ne y null y_ne,
          set_prev-ok _ y y_ne,
        )
        (ends (
          record {
            starts = refl;
            linked = rw (last_or-append x xs y ys) (
                Seg-append _ p (x ∷ xs) (y ∷ ys) null
                  (Seg-update_prev _ y l p (x ∷ xs) y yxs
                    (Seg-set_next h y p x xs el dxs (Seg-left h p (x ∷ xs) tail null s')))
                  (Seg-set_prev _ l el y ys null dt.1.0
                    (Seg-update_next h l y el (y ∷ ys) null lt.1 st.2)));
            distinct = Distinct-remove (null ∷ x ∷ xs) el (y ∷ ys) d;
          },
          λ a o. (
            update-ne h.prev y l a (λ e. (NotIn-right a (x ∷ xs) tail o).1.0 (sym e)),
            update-ne h.next l y a (NotIn-last a x xs (NotIn-left a (x ∷ xs) tail o)),
          ),
        ))

-- `_list2_rm` takes an element out of a well-formed list, wherever it stands: the others keep their
-- order, the new head heads them, nothing faults, and no link outside the list changes.
pub rm-append :
    {h : Links} {head : ℕ} (el : ℕ) (xs ys : List ℕ)
    → IsList h head (xs ++ el ∷ ys)
    → Ends (λ head' g. IsList g head' (xs ++ ys) × SameOutside (xs ++ el ∷ ys) h g) (rm head el h)
rm-append {h} el xs ys is =
    rw (is.starts, first_or-append xs el ys null) (rm-Seg h el xs ys is.linked is.distinct)
