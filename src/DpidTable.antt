-- ===== src/DpidTable.antt =====
-- src/switch_manager/dpid_table.c: the datapath ids of the switches that are connected, as a hash
-- table whose keys and values are pointers to one copy of the id.
pub mod Registered
use trema.Base.{ℕ, ◌/◌, ◌%◌, Bool, true, false, Option, none, some, List, [], ◌∷◌, ◌++◌, is_some}
use trema.HashTable.{
  HashTable, create_hash, lookup_hash_entry, insert_hash_entry, delete_hash_entry,
}
use trema.HashTable.Iterate.{iterate_all, init_hash_iterator}
use trema.Utility.{datapath_id_key, bytes_of}

unfoldable pub init_dpid_table : HashTable ℕ ℕ
unfolding create_hash
init_dpid_table = create_hash

-- with the result of `lookup_hash_entry`
unfoldable pub register_unless_found : HashTable ℕ ℕ → ℕ → Option ℕ → HashTable ℕ ℕ
register_unless_found t dpid (some d) = t
register_unless_found t dpid none = (insert_hash_entry t dpid dpid).1

unfoldable pub insert_dpid_entry : HashTable ℕ ℕ → ℕ → HashTable ℕ ℕ
unfolding register_unless_found
insert_dpid_entry t dpid = register_unless_found t dpid (lookup_hash_entry t dpid)

unfoldable pub delete_dpid_entry : HashTable ℕ ℕ → ℕ → HashTable ℕ ℕ
delete_dpid_entry t dpid = (delete_hash_entry t dpid).1

abbrev reversed : List ℕ → List ℕ
reversed [] = []
reversed (b ∷ bs) = reversed bs ++ b ∷ []

-- `htonll`: the eight bytes of an id, high byte first
unfoldable pub htonll : ℕ → List ℕ
unfolding bytes_of
htonll x = reversed (bytes_of 8 x)

-- the bytes that the loop appends to the buffer
unfoldable pub append_ids : List (ℕ × ℕ) → List ℕ
unfolding htonll
append_ids [] = []
append_ids (e ∷ es) = htonll e.1 ++ append_ids es

-- the bytes of the buffer; `none` when the fuel does not suffice
unfoldable pub get_switches : ℕ → HashTable ℕ ℕ → Option (List ℕ)
unfolding append_ids
get_switches fuel t = elim (iterate_all fuel (init_hash_iterator t)) [
  | none ↦ none
  | some es ↦ some (append_ids es)
]
