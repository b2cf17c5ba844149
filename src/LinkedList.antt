-- ===== src/LinkedList.antt =====
-- src/lib/linked_list.c. A chain of `list_element` that hangs on `*head` is the list of its `data`
-- pointers. `same` is the equality of such pointers. `none` is a call that does not return: it
-- reads through a NULL element, or it calls `die`.
pub mod Laws
use trema.Base.{
  ℕ, suc, ◌%◌, ◌^◌, Bool, true, false, Option, none, some, List, [], ◌∷◌, if◌then◌else◌, length,
}

module _ {ℓ} {A : Type ℓ} where
  -- `*list = NULL`
  abbrev pub create_list : List A
  create_list = []

  unfoldable pub insert_in_front : List A → A → List A
  insert_in_front head d = d ∷ head

  -- the walk over `e->next`
  unfoldable pub insert_before_next : (A → A → Bool) → List A → A → A → Bool × List A
  insert_before_next same [] sibling d = (false, [])
  insert_before_next same (x ∷ xs) sibling d =
      let rest = insert_before_next same xs sibling d in
      if same x sibling then (true, d ∷ x ∷ xs) else (rest.0, x ∷ rest.1)

  -- The head itself is never compared; on an empty list `e->next` reads through NULL.
  unfoldable pub insert_before : (A → A → Bool) → List A → A → A → Option (Bool × List A)
  unfolding insert_before_next
  insert_before same [] sibling d = none
  insert_before same (x ∷ xs) sibling d =
      let rest = insert_before_next same xs sibling d in some (rest.0, x ∷ rest.1)

  unfoldable pub append_to_tail : List A → A → List A
  append_to_tail [] d = d ∷ []
  append_to_tail (x ∷ xs) d = x ∷ append_to_tail xs d

  -- The counter is an `unsigned int`.
  unfoldable pub list_length_of : List A → ℕ
  list_length_of xs = length xs % 2 ^ 32

  -- `function` acts on the memory that `user_data` leads to.
  unfoldable pub iterate_list {κ} : {S : Type κ} → List A → (A → S → S) → S → S
  iterate_list [] function s = s
  iterate_list (x ∷ xs) function s = iterate_list xs function (function x s)

  -- the loop of `find_list_custom`: the data that was found, or NULL
  unfoldable pub find_from : (A → Bool) → List A → Option A
  find_from function [] = none
  find_from function (x ∷ xs) = if function x then some x else find_from function xs

  -- `die( "head must not be NULL" )` on an empty list
  unfoldable pub find_list_custom : List A → (A → Bool) → Option (Option A)
  unfolding find_from
  find_list_custom [] function = none
  find_list_custom (x ∷ xs) function = some (find_from function (x ∷ xs))

  -- Both tests of `delete_element`, on the head and on `e->next`, drop the first such element.
  unfoldable pub delete_next : (A → A → Bool) → List A → A → Bool × List A
  delete_next same [] d = (false, [])
  delete_next same (x ∷ xs) d =
      let rest = delete_next same xs d in if same x d then (true, xs) else (rest.0, x ∷ rest.1)

  -- On an empty list `e->data` reads through NULL.
  unfoldable pub delete_element : (A → A → Bool) → List A → A → Option (Bool × List A)
  unfolding delete_next
  delete_element same [] d = none
  delete_element same (x ∷ xs) d =
      let rest = delete_next same xs d in
      some (if same x d then (true, xs) else (rest.0, x ∷ rest.1))
