-- ===== src/Sys/List1/Tests.antt =====
-- The theorems on sys/list1.c at a list of two elements.
use esp_hostdriver.Prelude.{◌≡◌, refl, [], ◌∷◌, arith, ◌==◌, if◌then◌else◌}
use esp_hostdriver.Sys.Links.{Links, null, Ends}
use esp_hostdriver.Sys.List1.{IsList, rm_head, rm_head-tail}
use esp_hostdriver.Sys.List2.Shape.{NotIn}

abbrev two : Links
two = record { prev = λ a. 0; next = λ a. if a == 5 then 6 else 0 }

two-IsList : IsList two 5 6 (5 ∷ 6 ∷ [])
unfolding null
two-IsList = record {
  starts = refl;
  stops = refl;
  linked = (refl, (refl, tt));
  distinct = omega arith;
}

four_is_new : NotIn 4 (null ∷ 5 ∷ 6 ∷ [])
unfolding null
four_is_new = omega arith

rm_head-tail_example :
    Ends (λ (head, tail) g. IsList g head tail (6 ∷ []) × (g ≡ two)) (rm_head 5 6 two)
rm_head-tail_example = rm_head-tail 5 (6 ∷ []) two-IsList
