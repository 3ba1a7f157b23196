-- ===== src/Sys/List2/Replace.antt =====
-- `_list2_replace` of sys/list2.c, on a well-formed list.
use esp_hostdriver.Prelude.{
  ℕ, ◌≡◌, ◌≢◌, refl, sym, List, [], ◌∷◌, ◌++◌, append_assoc, ==_ne, ==_self,
}
use esp_hostdriver.Sys.Links.{
  Links, null, Ends, ends, set_next-ok, set_prev-ok, get_prev-ok, get_next-ok,
}
use esp_hostdriver.Sys.List2.{replace}
use esp_hostdriver.Sys.List2.Shape.{
  first_or, last_or, NotIn, Distinct, Seg, IsList, SameOutside, update-ne, update_self,
  update-update_ne, update-update_first, Seg-append, Seg-left, Seg-right, Seg-update_prev,
  Seg-update_next, Seg-set_prev, Seg-set_next, NotIn-last, last-ne, last_or-append, first_or-append,
  NotIn-append, NotIn-left, NotIn-right, Distinct-left, Distinct-right, middle-NotIn, last-NotIn,
  Distinct-remove, Distinct-insert,
}

first-ne :
    (xs : List ℕ) (y : ℕ) (ys : List ℕ)
    → NotIn null (xs ++ y ∷ ys)
    → first_or (xs ++ y ∷ ys) null ≢ null
first-ne [] y ys o = λ e. o.0 (sym e)
first-ne (x ∷ xs) y ys o = λ e. o.0 (sym e)

-- What the new element's place knows of the others.
Distinct-replace :
    (xs : List ℕ) (old : ℕ) (ys : List ℕ) (new : ℕ)
    → Distinct (xs ++ old ∷ ys)
    → NotIn new (xs ++ old ∷ ys)
    → Distinct (xs ++ new ∷ ys)
Distinct-replace xs old ys new d o =
    Distinct-insert xs new ys (Distinct-remove xs old ys d)
      (NotIn-append new xs ys (NotIn-left new xs (old ∷ ys) o) (NotIn-right new xs (old ∷ ys) o).1)

module _ (h : Links) (old new : ℕ) where
  replace-Seg :
      (xs ys : List ℕ)
      → Seg h (last_or null (xs ++ old ∷ ys)) (xs ++ old ∷ ys) null
      → Distinct (null ∷ xs ++ old ∷ ys)
      → NotIn new (null ∷ xs ++ old ∷ ys)
      → Ends
          (λ head' g. IsList g head' (xs ++ new ∷ ys) × SameOutside (new ∷ xs ++ old ∷ ys) h g)
          (replace (first_or xs old) old new h)
  unfolding replace
  replace-Seg [] [] s d o =
      let old_ne = λ (e : old ≡ null). d.0.0 (sym e) in
      rw
        (
          ==_ne old null old_ne,
          get_next-ok h old old_ne,
          s.1,
          ==_self null,
          set_prev-ok h new o.0,
          get_next-ok _ old old_ne,
          s.1,
          set_next-ok _ new o.0,
          get_next-ok _ old old_ne,
          update-ne h.next new null old o.1.0,
          s.1,
          ==_self null,
          set_prev-ok _ old old_ne,
          ==_self old,
        )
        (ends (
          record {
            starts = refl;
            linked =
                (update-update_first h.prev new new old new o.1.0, update_self h.next new null, tt);
            distinct = Distinct-replace (null ∷ []) old [] new d (o.0, o.1);
          },
          λ a q. (
            update-update_ne h.prev new new old new a q.0 q.1.0,
            update-ne h.next new null a (λ e. q.0 (sym e)),
          ),
        ))
  replace-Seg [] (y ∷ ys) s d o =
      let old_ne = λ (e : old ≡ null). d.0.0 (sym e) in
      let y_ne = λ (e : y ≡ null). d.0.1.0 (sym e) in
      let l = last_or y ys in
      let behind =
        Seg-update_next _ new y old (y ∷ ys) null o.1.1
          (Seg-update_prev h new l old (y ∷ ys) null o.1.1 s.2) in
      rw
        (
          ==_ne old null old_ne,
          get_next-ok h old old_ne,
          s.1,
          ==_ne y null y_ne,
          get_prev-ok h old old_ne,
          s.0,
          set_prev-ok h new o.0,
          get_next-ok _ old old_ne,
          s.1,
          set_next-ok _ new o.0,
          get_next-ok _ old old_ne,
          update-ne h.next new y old o.1.0,
          s.1,
          ==_ne y null y_ne,
          set_prev-ok _ y y_ne,
          ==_self old,
        )
        (ends (
          record {
            starts = refl;
            linked = (
              update-update_first h.prev new l y new o.1.1.0,
              update_self h.next new y,
              Seg-set_prev _ new old y ys null d.1.1.0 behind,
            );
            distinct = Distinct-replace (null ∷ []) old (y ∷ ys) new d (o.0, o.1);
          },
          λ a q. (
            update-update_ne h.prev new l y new a q.0 q.1.1.0,
            update-ne h.next new y a (λ e. q.0 (sym e)),
          ),
        ))
  replace-Seg (x ∷ xs) [] s d o =
      let l = last_or x xs in
      let tail = old ∷ [] in
      let out : NotIn old (x ∷ xs) = middle-NotIn (x ∷ xs) old [] d.1 in
      let oxs : NotIn new (x ∷ xs) = NotIn-left new (x ∷ xs) tail o.1 in
      let new_old : new ≢ old = (NotIn-right new (x ∷ xs) tail o.1).0 in
      let old_ne = λ (e : old ≡ null). (NotIn-right null (x ∷ xs) tail d.0).0 (sym e) in
      let x_ne = λ (e : x ≡ null). d.0.0 (sym e) in
      let l_ne : l ≢ null = last-ne x xs (NotIn-left null (x ∷ xs) tail d.0) in
      let new_l : new ≢ l = λ e. NotIn-last new x xs oxs (sym e) in
      let dxs : Distinct (x ∷ xs) = Distinct-left (x ∷ xs) tail d.1 in
      let s' : Seg h old (x ∷ xs ++ tail) null = rw (last_or-append x xs old []) at s in
      let st = Seg-right h old (x ∷ xs) tail null s' in
      let front =
        Seg-update_prev _ new l old (x ∷ xs) old oxs (
          Seg-update_next h new null old (x ∷ xs) old oxs (Seg-left h old (x ∷ xs) tail null s')) in
      rw
        (
          ==_ne x null x_ne,
          get_next-ok h x x_ne,
          s.1,
          ==_ne (first_or (xs ++ tail) null) null (first-ne xs old [] d.0.1),
          get_prev-ok h old old_ne,
          st.0,
          set_prev-ok h new o.0,
          get_next-ok _ old old_ne,
          st.1,
          set_next-ok _ new o.0,
          get_next-ok _ old old_ne,
          update-ne h.next new null old new_old,
          st.1,
          ==_self null,
          set_prev-ok _ x x_ne,
          ==_ne old x out.0,
          get_prev-ok _ old old_ne,
          update-update_ne h.prev new l x new old (λ e. new_old (sym e)) out.0,
          st.0,
          set_next-ok _ l l_ne,
        )
        (ends (
          record {
            starts = refl;
            linked = rw (last_or-append x xs new []) (
                Seg-append _ new (x ∷ xs) (new ∷ []) null
                  (Seg-set_prev _ new old x xs new dxs.0
                    (Seg-set_next _ new old x xs old dxs front))
                  (
                    update-update_first h.prev new l x new oxs.0,
                    update-update_first h.next new null l new new_l,
                    tt,
                  ));
            distinct = Distinct-replace (null ∷ x ∷ xs) old [] new d (o.0, o.1);
          },
          λ a q. (
            update-update_ne h.prev new l x new a q.0 q.1.0,
            update-update_ne h.next new null l new a q.0
                (λ e. NotIn-last a x xs (NotIn-left a (x ∷ xs) tail q.1) (sym e)),
          ),
        ))
  replace-Seg (x ∷ xs) (y ∷ ys) s d o =
      let l = last_or x xs in
      let p = last_or y ys in
      let tail = old ∷ y ∷ ys in
      let out : NotIn old (x ∷ xs) = middle-NotIn (x ∷ xs) old (y ∷ ys) d.1 in
      let oxs : NotIn new (x ∷ xs) = NotIn-left new (x ∷ xs) tail o.1 in
      let ot : NotIn new tail = NotIn-right new (x ∷ xs) tail o.1 in
      let nt : NotIn null tail = NotIn-right null (x ∷ xs) tail d.0 in
      let old_ne = λ (e : old ≡ null). nt.0 (sym e) in
      let y_ne = λ (e : y ≡ null). nt.1.0 (sym e) in
      let x_ne = λ (e : x ≡ null). d.0.0 (sym e) in
      let l_ne : l ≢ null = last-ne x xs (NotIn-left null (x ∷ xs) tail d.0) in
      let new_l : new ≢ l = λ e. NotIn-last new x xs oxs (sym e) in
      let lt : NotIn l tail = last-NotIn x xs tail d.1 in
      let dxs : Distinct (x ∷ xs) = Distinct-left (x ∷ xs) tail d.1 in
      let dt : Distinct tail = Distinct-right (x ∷ xs) tail d.1 in
      let yxs : NotIn y (x ∷ xs) =
        NotIn-left y (x ∷ xs) (old ∷ [])
          (middle-NotIn (x ∷ xs ++ old ∷ []) y ys (rw append_assoc d.1)) in
      let s' : Seg h p (x ∷ xs ++ tail) null = rw (last_or-append x xs old (y ∷ ys)) at s in
      let st = Seg-right h p (x ∷ xs) tail null s' in
      let front = Seg-update_prev _ y new p (x ∷ xs) old yxs (
        Seg-update_prev _ new l p (x ∷ xs) old oxs
          (Seg-update_next h new y p (x ∷ xs) old oxs (Seg-left h p (x ∷ xs) tail null s'))) in
      let behind = Seg-update_next _ l new old (y ∷ ys) null lt.1 (
        Seg-update_next _ new y old (y ∷ ys) null ot.1
          (Seg-update_prev h new l old (y ∷ ys) null ot.1 st.2)) in
      rw
        (
          ==_ne x null x_ne,
          get_next-ok h x x_ne,
          s.1,
          ==_ne (first_or (xs ++ tail) null) null (first-ne xs old (y ∷ ys) d.0.1),
          get_prev-ok h old old_ne,
          st.0,
          set_prev-ok h new o.0,
          get_next-ok _ old old_ne,
          st.1,
          set_next-ok _ new o.0,
          get_next-ok _ old old_ne,
          update-ne h.next new y old ot.0,
          st.1,
          ==_ne y null y_ne,
          set_prev-ok _ y y_ne,
          ==_ne old x out.0,
          get_prev-ok _ old old_ne,
          update-update_ne h.prev new l y new old (λ e. ot.0 (sym e)) dt.0.0,
          st.0,
          set_next-ok _ l l_ne,
        )
        (ends (
          record {
            starts = refl;
            linked = rw (last_or-append x xs new (y ∷ ys)) (
                Seg-append _ p (x ∷ xs) (new ∷ y ∷ ys) null
                  (Seg-set_next _ new p x xs old dxs front)
                  (
                    update-update_first h.prev new l y new ot.1.0,
                    update-update_first h.next new y l new new_l,
                    Seg-set_prev _ new old y ys null dt.1.0 behind,
                  ));
            distinct = Distinct-replace (null ∷ x ∷ xs) old (y ∷ ys) new d (o.0, o.1);
          },
          λ a q. (
            update-update_ne h.prev new l y new a q.0 (NotIn-right a (x ∷ xs) tail q.1).1.0,
            update-update_ne h.next new y l new a q.0
                (λ e. NotIn-last a x xs (NotIn-left a (x ∷ xs) tail q.1) (sym e)),
          ),
        ))

-- `_list2_replace` puts a new element exactly where an element of a well-formed list stood, first,
-- last or alone included; nothing faults, and no link outside the two and the list changes.
pub replace-append :
    {h : Links} {head : ℕ} (old new : ℕ) (xs ys : List ℕ)
    → IsList h head (xs ++ old ∷ ys)
    → NotIn new (null ∷ xs ++ old ∷ ys)
    → Ends
        (λ head' g. IsList g head' (xs ++ new ∷ ys) × SameOutside (new ∷ xs ++ old ∷ ys) h g)
        (replace head old new h)
replace-append {h} old new xs ys is out =
    rw (is.starts, first_or-append xs old ys null)
      (replace-Seg h old new xs ys is.linked is.distinct out)
