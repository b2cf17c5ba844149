-- ===== src/EventForward/Laws.antt =====
-- src/switch_manager/event_forward_entry_manipulation.c on every list and request.
use trema.Base.{
  ℕ, zero, suc, ◌+◌, ◌<◌, ◌≡◌, ◌≢◌, ◌∙◌, refl, sym, ap, Bool, false, ◌||◌, none, some, List, [],
  ◌∷◌, ◌++◌, ◌==◌, arith, if◌then◌else◌, length, take, All, Bool-cases, inl, inr,
}
use mathlib.Core.List.{append_assoc, append-nil}
use trema.EventForward.{
  OperationRequest, c_string, string_equal, management_event_forward_entry_add,
  management_event_forward_entry_delete, split_names, set_names,
  management_event_forward_entries_set,
}
use trema.LinkedList.{find_from, find_list_custom, append_to_tail, delete_next, delete_element}
use trema.LinkedList.Laws.{append_to_tail-append}
use trema.Utility.{compare_string, compare_string→eq}

-- A request that names no service, or has no bytes for a name, changes nothing.
abbrev pub is_ignored : OperationRequest → Bool
is_ignored request = request.n_services == 0 || length request.service_list == 0

unfoldable pub lists : List ℕ → List (List ℕ) → Bool
lists name [] = false
lists name (x ∷ xs) = compare_string x name || lists name xs

unfoldable pub drop_service : List ℕ → List (List ℕ) → List (List ℕ)
drop_service name [] = []
drop_service name (x ∷ xs) = if compare_string x name then xs else x ∷ drop_service name xs

find_from-lists :
    (name : List ℕ) (services : List (List ℕ))
    → find_from (string_equal name) services ≡ (if lists name services then some name else none)
unfolding find_from lists
find_from-lists name [] = refl
find_from-lists name (x ∷ xs) = ground (arith, find_from-lists name xs, compare_string→eq x name)

delete_next-drop_service :
    (name : List ℕ) (services : List (List ℕ))
    → (delete_next compare_string services name).1 ≡ drop_service name services
unfolding delete_next drop_service
delete_next-drop_service name [] = refl
delete_next-drop_service name (x ∷ xs) = ground (arith, delete_next-drop_service name xs)

drop_service_absent :
    (name : List ℕ) (services : List (List ℕ))
    → lists name services ≡ false
    → drop_service name services ≡ services
unfolding drop_service lists
drop_service_absent name [] h = refl
drop_service_absent name (x ∷ xs) h = ground (arith, drop_service_absent name xs)

-- To a list with a service an add request appends its name, unless the list has it or the request
-- names no service or has no bytes.
pub entry_add_appends :
    (s : List ℕ) (services : List (List ℕ)) (request : OperationRequest)
    → let name = c_string request.service_list in
      management_event_forward_entry_add (s ∷ services) request
      ≡ some (
          if is_ignored request || lists name (s ∷ services)
          then s ∷ services
          else s ∷ (services ++ name ∷ []))
unfolding management_event_forward_entry_add find_list_custom
entry_add_appends s services request =
    let name = c_string request.service_list in
    ground (arith, find_from-lists name (s ∷ services), append_to_tail-append (s ∷ services) name)

-- On an empty list `find_list_custom` aborts the process, for every request that is not ignored.
pub entry_add_empty :
    (request : OperationRequest)
    → management_event_forward_entry_add [] request ≡ (if is_ignored request then some [] else none)
unfolding management_event_forward_entry_add find_list_custom
entry_add_empty request = ground arith

-- From a list with a service a delete request removes the first service of its name, if any, unless
-- the request names no service or has no bytes.
pub entry_delete_removes :
    (s : List ℕ) (services : List (List ℕ)) (request : OperationRequest)
    → management_event_forward_entry_delete (s ∷ services) request
      ≡ some (
          if is_ignored request
          then s ∷ services
          else drop_service (c_string request.service_list) (s ∷ services))
unfolding management_event_forward_entry_delete find_list_custom delete_element drop_service lists
entry_delete_removes s services request =
    let name = c_string request.service_list in
    ground (
      arith,
      find_from-lists name (s ∷ services),
      delete_next-drop_service name services,
      drop_service_absent name services,
    )

-- On an empty list `find_list_custom` aborts the process, for every delete request that is not
-- ignored.
pub entry_delete_empty :
    (request : OperationRequest)
    → management_event_forward_entry_delete [] request
      ≡ (if is_ignored request then some [] else none)
unfolding management_event_forward_entry_delete find_list_custom
entry_delete_empty request = ground arith

-- the strings that end with a NUL, `name` being what stands before the first byte
unfoldable pub terminated : List ℕ → List ℕ → List (List ℕ)
terminated name [] = []
terminated name (b ∷ bs) =
    let more = terminated (name ++ b ∷ []) bs in
    let rest = terminated [] bs in if b == 0 then name ∷ rest else more

split_names-terminated :
    (bs : List ℕ) (expected room found : ℕ) (name : List ℕ)
    → found + room ≡ expected
    → 0 < room
    → split_names expected room found name bs ≡ some (take room (terminated name bs))
unfolding split_names terminated
split_names-terminated [] expected zero found name e pos = absurd (omega arith)
split_names-terminated [] expected (suc room) found name e pos = refl
split_names-terminated (b ∷ bs) expected zero found name e pos = absurd (omega arith)
split_names-terminated (b ∷ bs) expected (suc zero) found name e pos =
    ground (arith, split_names-terminated bs expected 1 found (name ++ b ∷ []))
split_names-terminated (b ∷ bs) expected (suc (suc room)) found name e pos = ground (
  arith,
  split_names-terminated bs expected (suc (suc room)) found (name ++ b ∷ []),
  split_names-terminated bs expected (suc room) (found + 1) [],
)

-- the names that are not empty
unfoldable pub nonempty : List (List ℕ) → List (List ℕ)
nonempty [] = []
nonempty (n ∷ names) = if length n == 0 then nonempty names else n ∷ nonempty names

set_names-nonempty :
    (names services : List (List ℕ)) → set_names services names ≡ services ++ nonempty names
unfolding set_names nonempty
set_names-nonempty [] services = sym (append-nil services)
set_names-nonempty (n ∷ names) services = elim (Bool-cases (length n == 0)) [
  | inl e ↦ rw e (set_names-nonempty names services)
  | inr e ↦ rw e (
      set_names-nonempty names (append_to_tail services n)
      ∙ ap (λ l. l ++ nonempty names) (append_to_tail-append services n)
      ∙ append_assoc services (n ∷ []) (nonempty names))
]

-- A set request for at least one service replaces the list by the first `n_services` strings that
-- end with a NUL, less the empty ones.
pub entries_set_replaces :
    (services : List (List ℕ)) (request : OperationRequest)
    → 0 < request.n_services
    → management_event_forward_entries_set services request
      ≡ some (nonempty (take request.n_services (terminated [] request.service_list)))
unfolding management_event_forward_entries_set
entries_set_replaces services request pos =
    let run =
      split_names-terminated request.service_list request.n_services request.n_services 0 []
        (omega arith) pos in
    rw (run, management_event_forward_entries_set) (ap some (set_names-nonempty _ []))

abbrev pub holds_nul : List ℕ → Bool
holds_nul [] = false
holds_nul (b ∷ bs) = b == 0 || holds_nul bs

split_names_full :
    (bs : List ℕ) (expected found : ℕ) (name : List ℕ)
    → split_names expected 0 found name bs ≡ (if holds_nul bs then none else some [])
unfolding split_names
split_names_full [] expected found name = refl
split_names_full (b ∷ bs) expected found name =
    ground (arith, split_names_full bs expected found (name ++ b ∷ []))

-- A set request for no service writes outside its array when its bytes hold a NUL, and empties the
-- list otherwise.
pub entries_set_zero :
    (services : List (List ℕ)) (service_list : List ℕ)
    → management_event_forward_entries_set services
        (record { n_services = 0; service_list = service_list })
      ≡ (if holds_nul service_list then none else some [])
unfolding management_event_forward_entries_set
entries_set_zero services service_list = ground (arith, split_names_full service_list 0 0 [])

-- what a sender writes: each name and a NUL
unfoldable pub joined : List (List ℕ) → List ℕ
joined [] = []
joined (n ∷ names) = n ++ 0 ∷ joined names

terminated_name :
    (n name bs : List ℕ)
    → holds_nul n ≡ false
    → terminated name (n ++ 0 ∷ bs) ≡ (name ++ n) ∷ terminated [] bs
unfolding terminated
terminated_name [] name bs h = rw append-nil
terminated_name (c ∷ n) name bs h = elim (Bool-cases (c == 0)) [
  | inl e ↦ ground arith
  | inr e ↦ rw e (
      terminated_name n (name ++ c ∷ []) bs (ground arith)
      ∙ ap (λ l. l ∷ terminated [] bs) (append_assoc name (c ∷ []) n))
]

abbrev pub IsName : List ℕ → Type 0
IsName n = (holds_nul n ≡ false) × (n ≢ [])

terminated-joined :
    (names : List (List ℕ)) → All IsName names → terminated [] (joined names) ≡ names
unfolding joined
terminated-joined [] h = unfold terminated in refl
terminated-joined (n ∷ names) h =
    terminated_name n [] (joined names) h.0.0 ∙ ap (λ l. n ∷ l) (terminated-joined names h.1)

nonempty-All : (names : List (List ℕ)) → All IsName names → nonempty names ≡ names
unfolding nonempty
nonempty-All [] h = refl
nonempty-All (n ∷ names) h = ground (arith, nonempty-All names h.1, h.0)

take_all : (names : List (List ℕ)) → take (length names) names ≡ names
take_all [] = refl
take_all (n ∷ names) = ap (λ l. n ∷ l) (take_all names)

-- A set request that lists proper names, each with its NUL, makes exactly them the list.
pub entries_set_roundtrip :
    (services names : List (List ℕ))
    → names ≢ []
    → All IsName names
    → management_event_forward_entries_set services
        (record { n_services = length names; service_list = joined names })
      ≡ some names
entries_set_roundtrip services names ne proper =
    let request : OperationRequest = record {
      n_services = length names;
      service_list = joined names;
    } in
    let split = terminated-joined names proper in
    entries_set_replaces services request (grind arith)
    ∙ ap (λ l. some (nonempty (take (length names) l))) split
    ∙ ap some (ap nonempty (take_all names) ∙ nonempty-All names proper)
