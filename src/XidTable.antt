-- ===== src/XidTable.antt =====
-- src/switch_manager/xid_table.c: transaction ids that are handed out to switches, each with the id
-- and the service that asked. An entry is not changed while it is in the table, so the pointer to
-- it is modelled by its fields. `none` is a loop that has not ended on the fuel given.
pub mod Invariant
pub mod Generate
pub mod Insert
use trema.Base.{
  ℕ, zero, suc, ◌+◌, ◌-◌, ◌^◌, Bool, Option, none, some, List, ◌==◌, if◌then◌else◌, ltb, update,
  is_some,
}
use trema.HashTable.{
  HashTable, create_hash, lookup_hash_entry, delete_hash_entry, insert_hash_entry,
}
use trema.HashTable.Iterate.{delete_hash}
use trema.Utility.{uint32_key}

pub record XidEntry : Type 0 where
  pub xid : ℕ
  pub original_xid : ℕ
  pub service_name : List ℕ
  pub index : ℕ

abbrev pub xid_max_entries : ℕ
xid_max_entries = 4096

abbrev pub uint32_max : ℕ
uint32_max = 2 ^ 32 - 1

-- `transaction_id` is the static variable beside the table.
pub record XidTable : Type 0 where
  pub transaction_id : ℕ
  pub entries : ℕ → Option XidEntry
  pub hash : HashTable ℕ XidEntry
  pub next_index : ℕ

unfoldable pub init_xid_table : ℕ → XidTable
init_xid_table transaction_id = record {
  transaction_id = transaction_id;
  entries = λ _. none;
  hash = create_hash;
  next_index = 0;
}

-- The loop frees the entry of every slot; `delete_hash` frees the table. The counter stays.
unfoldable pub finalize_xid_table : XidTable → XidTable
unfolding delete_hash
finalize_xid_table t = record t {
  entries = λ _. none;
  hash = (delete_hash t.hash).1;
  next_index = 0;
}

unfoldable pub lookup_xid_entry : XidTable → ℕ → Option XidEntry
lookup_xid_entry t xid = lookup_hash_entry t.hash xid

-- the next value of a `uint32_t` counter
abbrev pub next_xid : ℕ → ℕ
next_xid x = if x == uint32_max then 0 else x + 1

-- the `while` loop of `generate_xid`; `used` tells whether an id is in the table
unfoldable pub probe : ℕ → (ℕ → Bool) → ℕ → ℕ → Option ℕ
probe zero used initial_value x = none
probe (suc fuel) used initial_value x =
    let again = probe fuel used initial_value (next_xid x) in
    let moved = if next_xid x == initial_value then some 0 else again in
    if used x then moved else some x

abbrev pub used_in : XidTable → ℕ → Bool
used_in t x = is_some (lookup_xid_entry t x)

-- At `UINT32_MAX` the counter itself is not moved before the loop. The result is also the new value
-- of `transaction_id`.
unfoldable pub generate_within : ℕ → XidTable → Option ℕ
unfolding probe
generate_within fuel t =
    if t.transaction_id == uint32_max
    then probe fuel (used_in t) 0 t.transaction_id
    else probe fuel (used_in t) (t.transaction_id + 1) (t.transaction_id + 1)

-- No run of the loop takes more rounds than there are ids.
unfoldable pub generate_xid : XidTable → Option ℕ
unfolding generate_within
generate_xid t = generate_within (2 ^ 32) t

-- the slot of the entry that the hash table held
unfoldable pub clear_slot : XidTable → Option XidEntry → XidTable
clear_slot t none = t
clear_slot t (some e) = record t { entries = update t.entries e.index none }

unfoldable pub delete_xid_entry : XidTable → XidEntry → XidTable
unfolding clear_slot
delete_xid_entry t e =
    let (deleted, hash) = delete_hash_entry t.hash e.xid in
    clear_slot (record t { hash = hash }) deleted

unfoldable pub wrap_index : XidTable → XidTable
wrap_index t = if ltb t.next_index xid_max_entries then t else record t { next_index = 0 }

unfoldable pub evict : XidTable → Option XidEntry → XidTable
unfolding delete_xid_entry
evict t none = t
evict t (some e) = delete_xid_entry t e

-- with `xid` from `generate_xid`
unfoldable pub store_entry : XidTable → ℕ → ℕ → List ℕ → XidTable
unfolding clear_slot
store_entry t xid original_xid service_name =
    let e : XidEntry = record {
      xid = xid;
      original_xid = original_xid;
      service_name = service_name;
      index = t.next_index;
    } in
    let (old, hash) = insert_hash_entry t.hash xid e in
    let t' = clear_slot (record t { transaction_id = xid; hash = hash }) old in
    record t' { entries = update t'.entries t.next_index (some e); next_index = t.next_index + 1 }

unfoldable pub insert_xid_entry : XidTable → ℕ → List ℕ → Option (ℕ × XidTable)
unfolding wrap_index
insert_xid_entry t original_xid service_name =
    let t₁ = wrap_index t in
    let t₂ = evict t₁ (t₁.entries t₁.next_index) in
    elim (generate_xid t₂) [
      | none ↦ none
      | some xid ↦ some (xid, store_entry t₂ xid original_xid service_name)
    ]
