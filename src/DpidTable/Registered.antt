-- ===== src/DpidTable/Registered.antt =====
-- src/switch_manager/dpid_table.c as a set of datapath ids.
use trema.Base.{
  ℕ, ◌<◌, ◌≡◌, refl, Bool, not, ◌&&◌, ◌||◌, Option, none, some, is_some, ◌==◌, length, arith,
}
use trema.DpidTable.{
  register_unless_found, insert_dpid_entry, delete_dpid_entry, append_ids, get_switches,
}
use trema.HashTable.{HashTable, lookup_hash_entry}
use trema.HashTable.Laws.{lookup-insert, lookup-delete, insert-IsValid, delete-IsValid}
use trema.HashTable.Valid.{IsValid}
use trema.HashTable.Walk.{all_entries, iterate_all_entries}
use trema.Utility.{datapath_id_key}

abbrev pub is_registered : HashTable ℕ ℕ → ℕ → Bool
is_registered t x = is_some (lookup_hash_entry t x)

module _ (t : HashTable ℕ ℕ) (valid : IsValid t) (dpid : ℕ) where
  register_found :
      (o : Option ℕ)
      → lookup_hash_entry t dpid ≡ o
      → IsValid (register_unless_found t dpid o)
        × ((x : ℕ)
            → is_registered (register_unless_found t dpid o) x ≡ (x == dpid || is_registered t x))
  unfolding register_unless_found
  register_found (some d) e = (valid, λ x. ground (arith, e))
  register_found none e = (
    insert-IsValid t valid dpid dpid refl,
    λ x. ground (arith, lookup-insert t valid dpid dpid x refl refl),
  )

  -- `insert_dpid_entry` keeps a well formed table well formed and registers the id, and no other.
  pub insert_dpid_entry-registers :
      IsValid (insert_dpid_entry t dpid)
      × ((x : ℕ) → is_registered (insert_dpid_entry t dpid) x ≡ (x == dpid || is_registered t x))
  unfolding insert_dpid_entry
  insert_dpid_entry-registers = register_found (lookup_hash_entry t dpid) refl

  -- `delete_dpid_entry` keeps a well formed table well formed and takes the id out, and no other.
  pub delete_dpid_entry-removes :
      IsValid (delete_dpid_entry t dpid)
      × ((x : ℕ)
          → is_registered (delete_dpid_entry t dpid) x ≡ (not (x == dpid) && is_registered t x))
  unfolding delete_dpid_entry
  delete_dpid_entry-removes =
      (delete-IsValid t valid dpid, λ x. ground (arith, lookup-delete t valid dpid x refl refl))

-- `get_switches` returns, and writes the ids of all entries, in the order of a walk.
pub get_switches-entries :
    (t : HashTable ℕ ℕ) (fuel : ℕ)
    → length (all_entries t) < fuel
    → get_switches fuel t ≡ some (append_ids (all_entries t))
unfolding get_switches
get_switches-entries t fuel h = rw (iterate_all_entries t fuel h, get_switches)
