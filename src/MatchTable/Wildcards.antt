-- ===== src/MatchTable/Wildcards.antt =====
-- src/lib/match_table.c: the list of wildcard entries, highest priority first.
use trema.Base.{
  ℕ, zero, suc, Bool, true, false, Option, none, some, List, [], ◌∷◌, ◌&&◌, ◌==◌, ltb,
  if◌then◌else◌,
}
use trema.LinkedList.{append_to_tail, insert_in_front, insert_before, delete_element}
use trema.Match.{compare_match, compare_match_strict}
use trema.Match.Strict.{match_key}
use trema.OpenFlow.{Match}
use trema.MatchTable.{MatchEntry, MatchTable, allocate_match_entry, free_match_entry, update_found}

-- `entry->priority == priority && compare_match_strict( &entry->match, match )`
unfoldable pub is_same_entry : MatchEntry → Match → ℕ → Bool
is_same_entry e m p = e.priority == p && compare_match_strict e.match m

-- where the loop of `insert_wildcards_match_entry` ends
pub data InsertPoint : Type 0 where
  already_exists : InsertPoint
  at_tail : InsertPoint
  -- the number of elements passed, and the entry of the element that it stops at
  at_element : ℕ → ℕ → InsertPoint

unfoldable pub find_insert_point : (ℕ → MatchEntry) → ℕ → List ℕ → Match → ℕ → InsertPoint
unfolding is_same_entry
find_insert_point h n [] m p = at_tail
find_insert_point h n (a ∷ xs) m p =
    if ltb (h a).priority p
    then at_element n a
    else if is_same_entry (h a) m p
    then already_exists
    else find_insert_point h (suc n) xs m p

-- The result of `insert_before` is not looked at.
unfoldable pub keep_list : MatchTable → Option (Bool × List ℕ) → Option (Bool × MatchTable)
keep_list t none = none
keep_list t (some r) = some (true, record t { wildcards_table = r.1 })

unfoldable pub insert_wildcards_at : InsertPoint → ℕ → MatchTable → Option (Bool × MatchTable)
unfolding keep_list
insert_wildcards_at already_exists a t = some (false, t)
insert_wildcards_at at_tail a t =
    some (true, record t { wildcards_table = append_to_tail t.wildcards_table a })
insert_wildcards_at (at_element zero b) a t =
    some (true, record t { wildcards_table = insert_in_front t.wildcards_table a })
insert_wildcards_at (at_element (suc n) b) a t =
    keep_list t (insert_before (λ x y. x == y) t.wildcards_table b a)

-- Nothing is allocated for an entry that exists already.
unfoldable pub insert_wildcards_from :
    MatchTable → Match → ℕ → ℕ → InsertPoint → Option (Bool × MatchTable)
unfolding allocate_match_entry insert_wildcards_at
insert_wildcards_from t m p d already_exists = some (false, t)
insert_wildcards_from t m p d at_tail =
    let new = allocate_match_entry t m p d in insert_wildcards_at at_tail new.0 new.1
insert_wildcards_from t m p d (at_element n b) =
    let new = allocate_match_entry t m p d in insert_wildcards_at (at_element n b) new.0 new.1

unfoldable pub insert_wildcards_match_entry :
    MatchTable → Match → ℕ → ℕ → Option (Bool × MatchTable)
unfolding find_insert_point insert_wildcards_from
insert_wildcards_match_entry t m p d =
    insert_wildcards_from t m p d (find_insert_point t.entries 0 t.wildcards_table m p)

unfoldable pub strict_from : (ℕ → MatchEntry) → List ℕ → Match → ℕ → Option ℕ
unfolding is_same_entry
strict_from h [] m p = none
strict_from h (a ∷ xs) m p =
    if ltb (h a).priority p
    then none
    else if is_same_entry (h a) m p
    then some a
    else strict_from h xs m p

unfoldable pub lookup_wildcards_match_strict_entry : MatchTable → Match → ℕ → Option ℕ
unfolding strict_from
lookup_wildcards_match_strict_entry t m p = strict_from t.entries t.wildcards_table m p

unfoldable pub first_match : (ℕ → MatchEntry) → List ℕ → Match → Option ℕ
first_match h [] m = none
first_match h (a ∷ xs) m = if compare_match (h a).match m then some a else first_match h xs m

unfoldable pub lookup_wildcards_match_entry : MatchTable → Match → Option ℕ
unfolding first_match
lookup_wildcards_match_entry t m = first_match t.entries t.wildcards_table m

unfoldable pub update_wildcards_match_entry : MatchTable → Match → ℕ → ℕ → Bool × MatchTable
unfolding update_found lookup_wildcards_match_strict_entry
update_wildcards_match_entry t m p d = update_found t d (lookup_wildcards_match_strict_entry t m p)

-- with what `delete_element` leaves of the list
unfoldable pub delete_wildcards_list :
    MatchTable → ℕ → Option (Bool × List ℕ) → Option (ℕ × MatchTable)
unfolding free_match_entry
delete_wildcards_list t a none = none
delete_wildcards_list t a (some r) =
    some ((t.entries a).entry_data, free_match_entry (record t { wildcards_table = r.1 }) a)

unfoldable pub delete_wildcards_found : MatchTable → Option ℕ → Option (ℕ × MatchTable)
unfolding delete_wildcards_list
delete_wildcards_found t none = some (0, t)
delete_wildcards_found t (some a) =
    delete_wildcards_list t a (delete_element (λ x y. x == y) t.wildcards_table a)

unfoldable pub delete_wildcards_match_strict_entry :
    MatchTable → Match → ℕ → Option (ℕ × MatchTable)
unfolding delete_wildcards_found lookup_wildcards_match_strict_entry
delete_wildcards_match_strict_entry t m p =
    delete_wildcards_found t (lookup_wildcards_match_strict_entry t m p)
