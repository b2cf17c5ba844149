-- ===== src/EventForward.antt =====
-- src/switch_manager/event_forward_entry_manipulation.c: the list of services that an event goes
-- to. A service name is its bytes without the final NUL. A request is long enough for its header,
-- and `service_list` holds the bytes behind the header. `none` is a call that aborts or that writes
-- outside its array.
pub mod Laws
use trema.Base.{
  ℕ, zero, suc, ◌+◌, Bool, true, false, Option, none, some, List, [], ◌∷◌, ◌++◌, ◌==◌,
  if◌then◌else◌, ltb, length,
}
use trema.LinkedList.{find_list_custom, append_to_tail, delete_element}
use trema.Utility.{compare_string}

pub record OperationRequest : Type 0 where
  pub n_services : ℕ
  pub service_list : List ℕ

-- the string that a copy of the bytes holds: they end at the first NUL or with the copy
unfoldable pub c_string : List ℕ → List ℕ
c_string [] = []
c_string (b ∷ bs) = if b == 0 then [] else b ∷ c_string bs

-- `string_equal` with the name as `user_data`
abbrev pub string_equal : List ℕ → List ℕ → Bool
string_equal name x = compare_string x name

-- with the result of `find_list_custom`
unfoldable pub add_unless_found : List (List ℕ) → List ℕ → Option (List ℕ) → List (List ℕ)
add_unless_found services name none = append_to_tail services name
add_unless_found services name (some m) = services

unfoldable pub bind_found :
    Option (Option (List ℕ)) → (Option (List ℕ) → Option (List (List ℕ))) → Option (List (List ℕ))
bind_found none f = none
bind_found (some m) f = f m

unfoldable pub management_event_forward_entry_add :
    List (List ℕ) → OperationRequest → Option (List (List ℕ))
unfolding c_string add_unless_found bind_found
management_event_forward_entry_add services request =
    if request.n_services == 0
    then some services
    else if length request.service_list == 0
    then some services
    else let name = c_string request.service_list in
      bind_found (find_list_custom services (string_equal name))
        λ m. some (add_unless_found services name m)

-- The element that holds the string which was found is the first with an equal string.
unfoldable pub delete_if_found : List (List ℕ) → Option (List ℕ) → Option (List (List ℕ))
delete_if_found services none = some services
delete_if_found services (some m) = elim (delete_element compare_string services m) [
  | none ↦ none
  | some r ↦ some r.1
]

unfoldable pub management_event_forward_entry_delete :
    List (List ℕ) → OperationRequest → Option (List (List ℕ))
unfolding c_string delete_if_found bind_found
management_event_forward_entry_delete services request =
    if request.n_services == 0
    then some services
    else if length request.service_list == 0
    then some services
    else let name = c_string request.service_list in
      bind_found (find_list_custom services (string_equal name)) (delete_if_found services)

-- The loop that splits the bytes. `room` is the number of array items that are left, `expected` the
-- number of names after which the loop breaks; `name` holds the bytes since `name_begin`. A name
-- that is written outside the array is `none`.
unfoldable pub split_names :
    (expected room found : ℕ) (name bytes : List ℕ) → Option (List (List ℕ))
split_names expected room found name [] = some []
split_names expected zero found name (b ∷ bs) =
    let rest = split_names expected zero found (name ++ b ∷ []) bs in if b == 0 then none else rest
split_names expected (suc room) found name (b ∷ bs) =
    let more = split_names expected (suc room) found (name ++ b ∷ []) bs in
    let rest = split_names expected room (found + 1) [] bs in
    let next : Option (List (List ℕ)) = elim rest [
      | none ↦ none
      | some names ↦ some (name ∷ names)
    ] in
    if b == 0 then (if found + 1 == expected then some (name ∷ []) else next) else more

-- The loop that fills the new list; a name of length 0 is passed over.
unfoldable pub set_names : List (List ℕ) → List (List ℕ) → List (List ℕ)
set_names services [] = services
set_names services (n ∷ names) =
    set_names (if length n == 0 then services else append_to_tail services n) names

unfoldable pub management_event_forward_entries_set :
    List (List ℕ) → OperationRequest → Option (List (List ℕ))
unfolding split_names set_names
management_event_forward_entries_set services request =
    elim (split_names request.n_services request.n_services 0 [] request.service_list) [
      | none ↦ none
      | some names ↦ some (set_names [] names)
    ]
