-- ===== src/MatchTable.antt =====
-- src/lib/match_table.c: the exact table, a hash table, and the list of wildcard entries in the
-- order of priority. Both hold pointers to entries: `entries` is the memory behind them, `live`
-- says which of them is allocated, and `next_address` is the one that the next `xmalloc` returns. A
-- pointer to data is a number, 0 for NULL. `none` is a call that does not return. A lock is held
-- from the start of an operation to its end, so operations are one after the other.
pub mod Wildcards
pub mod Operations
pub mod Ordered
pub mod Rules
pub mod Invariant
pub mod Preserve
pub mod Enlist
pub mod Find
pub mod Insert
pub mod Change
pub mod Delete
pub mod Priority
pub mod Lifetime
use trema.Base.{
  ℕ, zero, suc, ◌+◌, Bool, true, false, Option, none, some, List, [], ◌∷◌, ◌&&◌, ◌==◌, ltb,
  if◌then◌else◌, update,
}
use trema.HashTable.{
  HashTable, create_hash, lookup_hash_entry, insert_hash_entry, delete_hash_entry,
}
use trema.HashTable.Iterate.{foreach_hash, delete_hash}
use trema.LinkedList.{append_to_tail, insert_in_front, insert_before, delete_element, iterate_list}
use trema.Match.{compare_match, compare_match_strict, compare_filter_match, exact_match}
use trema.Match.Strict.{match_key}
use trema.OpenFlow.{Match}

pub record MatchEntry : Type 0 where
  pub match : Match
  pub priority : ℕ
  pub entry_data : ℕ

pub record MatchTable : Type 0 where
  pub exact_table : HashTable Match ℕ
  pub wildcards_table : List ℕ
  pub entries : ℕ → MatchEntry
  pub live : ℕ → Bool
  pub next_address : ℕ

unfoldable pub allocate_match_entry : MatchTable → Match → ℕ → ℕ → ℕ × MatchTable
allocate_match_entry t m p d = (
  t.next_address,
  record t {
    entries = update t.entries t.next_address (record { match = m; priority = p; entry_data = d });
    live = update t.live t.next_address true;
    next_address = t.next_address + 1;
  },
)

unfoldable pub free_match_entry : MatchTable → ℕ → MatchTable
free_match_entry t a = record t { live = update t.live a false }

-- `entry->data = data`
unfoldable pub set_data : MatchTable → ℕ → ℕ → MatchTable
set_data t a d = record t { entries = update t.entries a (record (t.entries a) { entry_data = d }) }

-- `entry != NULL ? entry->data : NULL`
unfoldable pub data_of : MatchTable → Option ℕ → ℕ
data_of t none = 0
data_of t (some a) = (t.entries a).entry_data

unfoldable pub add_exact : MatchTable → Match → ℕ × MatchTable → Bool × MatchTable
add_exact t m (a, u) = (true, record u { exact_table = (insert_hash_entry u.exact_table m a).1 })

unfoldable pub insert_exact_found : MatchTable → Match → ℕ → Option ℕ → Bool × MatchTable
unfolding allocate_match_entry add_exact
insert_exact_found t m d (some a) = (false, t)
insert_exact_found t m d none = add_exact t m (allocate_match_entry t m 0 d)

unfoldable pub insert_exact_match_entry : MatchTable → Match → ℕ → Bool × MatchTable
unfolding insert_exact_found
insert_exact_match_entry t m d = insert_exact_found t m d (lookup_hash_entry t.exact_table m)

unfoldable pub lookup_exact_match_strict_entry : MatchTable → Match → Option ℕ
lookup_exact_match_strict_entry t m = lookup_hash_entry t.exact_table m

-- both updates, behind their lookup
unfoldable pub update_found : MatchTable → ℕ → Option ℕ → Bool × MatchTable
unfolding set_data
update_found t d none = (false, t)
update_found t d (some a) = (true, set_data t a d)

unfoldable pub update_exact_match_entry : MatchTable → Match → ℕ → Bool × MatchTable
unfolding update_found lookup_exact_match_strict_entry
update_exact_match_entry t m d = update_found t d (lookup_exact_match_strict_entry t m)

unfoldable pub delete_exact_found : MatchTable → Match → Option ℕ → ℕ × MatchTable
unfolding free_match_entry
delete_exact_found t m none = (0, t)
delete_exact_found t m (some a) = (
  (t.entries a).entry_data,
  free_match_entry (record t { exact_table = (delete_hash_entry t.exact_table m).1 }) a,
)

unfoldable pub delete_exact_match_strict_entry : MatchTable → Match → ℕ × MatchTable
unfolding delete_exact_found
delete_exact_match_strict_entry t m = delete_exact_found t m (lookup_hash_entry t.exact_table m)
