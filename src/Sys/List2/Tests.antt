-- ===== src/Sys/List2/Tests.antt =====
-- Tests of sys/list2.c, and its theorems at a list of three elements.
use esp_hostdriver.Prelude.{ℕ, ◌≡◌, refl, some, Option, List, [], ◌∷◌, arith, ◌==◌, if◌then◌else◌}
use esp_hostdriver.Sys.Links.{Links, null, Ends, M, ◌>>=◌, get_next, get_prev, set_next, set_prev}
use esp_hostdriver.Sys.List2.{add_head, add_tail, add_in, replace, rm}
use esp_hostdriver.Sys.List2.Shape.{IsList, NotIn, SameOutside}
use esp_hostdriver.Sys.List2.Insert.{add_tail-append, add_in-middle}
use esp_hostdriver.Sys.List2.Remove.{rm-append}
use esp_hostdriver.Sys.List2.Replace.{replace-append}

-- The list 3, 1, 2, and no links elsewhere.
abbrev three : Links
three = record {
  prev = λ a. if a == 3 then 2 else if a == 1 then 3 else if a == 2 then 1 else 0;
  next = λ a. if a == 3 then 1 else if a == 1 then 2 else 0;
}

three-IsList : IsList three 3 (3 ∷ 1 ∷ 2 ∷ [])
unfolding null
three-IsList = record {
  starts = refl;
  linked = (refl, refl, (refl, refl, (refl, refl, tt)));
  distinct = omega arith;
}

four_is_new : NotIn 4 (null ∷ 3 ∷ 1 ∷ 2 ∷ [])
unfolding null
four_is_new = omega arith

-- Both ways round the list.
walk : ℕ → M (List ℕ)
walk head = do
  a ← get_next head
  b ← get_next a
  c ← get_prev head
  d ← get_prev c
  λ h. some (head ∷ a ∷ b ∷ c ∷ d ∷ [], h)

results : {A : Type 0} → Option (A × Links) → Option A
results r = elim r [ Option.none ↦ Option.none | Option.some (a, _) ↦ some a ]

rm_first : results (rm 3 3 three) ≡ some 1
unfolding results rm set_next set_prev get_next get_prev null
rm_first = refl

walk-add_head :
    results ((rm 3 1 >>= λ head. add_head head 1 >>= walk) three) ≡ some (1 ∷ 3 ∷ 2 ∷ 2 ∷ 3 ∷ [])
unfolding results walk rm add_head set_next set_prev get_next get_prev null
walk-add_head = refl

add_tail-append_example :
    Ends
      (λ head g. IsList g head (3 ∷ 1 ∷ 2 ∷ 4 ∷ []) × SameOutside (4 ∷ 3 ∷ 1 ∷ 2 ∷ []) three g)
      (add_tail 3 4 three)
add_tail-append_example = add_tail-append 4 (3 ∷ 1 ∷ 2 ∷ []) three-IsList four_is_new

rm-append_example :
    Ends
      (λ head g. IsList g head (3 ∷ 2 ∷ []) × SameOutside (3 ∷ 1 ∷ 2 ∷ []) three g)
      (rm 3 1 three)
rm-append_example = rm-append 1 (3 ∷ []) (2 ∷ []) three-IsList

add_in-middle_example :
    Ends
      (λ _ g. IsList g 3 (3 ∷ 4 ∷ 1 ∷ 2 ∷ []) × SameOutside (4 ∷ 3 ∷ 1 ∷ []) three g)
      (add_in 4 3 1 three)
add_in-middle_example = add_in-middle 4 3 1 [] (2 ∷ []) three-IsList four_is_new

replace-append_example :
    Ends
      (λ head g. IsList g head (4 ∷ 1 ∷ 2 ∷ []) × SameOutside (4 ∷ 3 ∷ 1 ∷ 2 ∷ []) three g)
      (replace 3 3 4 three)
replace-append_example = replace-append 3 4 [] (1 ∷ 2 ∷ []) three-IsList four_is_new
