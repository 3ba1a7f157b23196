-- ===== src/Sys/List2.antt =====
-- sys/list2.c and the macros of include/sys/list2.h: doubly linked lists whose head is an element.
-- `head->prev` is the last element, and the last element's `next` is null. A `list2_t **head` is
-- passed by value, and the new head is the result.
pub mod Shape
pub mod Insert
pub mod Remove
pub mod Replace
pub mod Search
mod Tests
use esp_hostdriver.Prelude.{
  ℕ, zero, suc, Bool, true, false, Option, none, some, ◌==◌, if◌then◌else◌,
}
use esp_hostdriver.Sys.Links.{M, pure, ◌>>=◌, ◌>>◌, null, get_prev, get_next, set_prev, set_next}

-- `_list2_init`
unfoldable pub init : ℕ → M (Unit {0})
init head = do set_prev head head; set_next head null

-- `_list2_add_head`
unfoldable pub add_head : ℕ → ℕ → M ℕ
add_head head el = do
  set_next el head
  last ← if head == null then pure el else get_prev head
  set_prev el last
  if head == null then pure tt else set_prev head el
  pure el

-- `_list2_add_tail`
unfoldable pub add_tail : ℕ → ℕ → M ℕ
add_tail head el = do
  set_next el null
  if head == null then (do set_prev el el; pure el) else (do
    last ← get_prev head
    set_prev el last
    set_next last el
    set_prev head el
    pure head)

-- `_list2_add_in`
unfoldable pub add_in : ℕ → ℕ → ℕ → M (Unit {0})
add_in el front back = do set_prev el front; set_next el back; set_next front el; set_prev back el

-- `_list2_replace`
unfoldable pub replace : ℕ → ℕ → ℕ → M ℕ
replace head old new =
    if head == null then (do set_prev new new; set_next new null; pure new) else (do
      second ← get_next head
      before ← if second == null then pure new else get_prev old
      set_prev new before
      after ← get_next old
      set_next new after
      after' ← get_next old
      if after' == null then set_prev head new else set_prev after' new
      if old == head
          then pure new
          else (do before' ← get_prev old; set_next before' new; pure head))

-- `_list2_rm`
unfoldable pub rm : ℕ → ℕ → M ℕ
rm head el = do
  if el == head
      then pure tt
      else (do before ← get_prev el; after ← get_next el; set_next before after)
  after ← get_next el
  before ← get_prev el
  if after == null then set_prev head before else set_prev after before
  if el == head then get_next el else pure head

-- The loop of `_list2_contains`: where `_head` stops. `none` also stands for a lack of fuel.
unfoldable pub contains_loop : ℕ → ℕ → ℕ → M ℕ
contains_loop zero head el = λ _. none
contains_loop (suc k) head el =
    if head == null
    then pure head
    else if head == el
    then pure head
    else (do next ← get_next head; contains_loop k next el)

-- `_list2_contains`
unfoldable pub contains : ℕ → ℕ → ℕ → M Bool
unfolding contains_loop
contains fuel head el = do stop ← contains_loop fuel head el; pure (stop == el)

-- `list_for_each(head, el)` around the test of `_list2_find` or `_list2_find_str`: `test el` says
-- that the member of `el` is the one looked for. `next` is the macro's second variable.
unfoldable pub for_each_find : (ℕ → Bool) → ℕ → ℕ → ℕ → M ℕ
for_each_find test zero el next = λ _. none
for_each_find test (suc k) el next =
    if el == null then pure null else if test el then pure el else (do
      after ← if next == null then pure null else get_next next
      for_each_find test k next after)

-- `_list2_find`, and `_list2_find_str` with its comparison for `test`
unfoldable pub find : (ℕ → Bool) → ℕ → ℕ → M ℕ
unfolding for_each_find
find test fuel head = do
  next ← if head == null then pure null else get_next head
  for_each_find test fuel head next
