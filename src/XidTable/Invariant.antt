-- ===== src/XidTable/Invariant.antt =====
-- src/switch_manager/xid_table.c: the array of entries and the hash table hold the same entries.
use trema.Base.{ℕ, ◌^◌, ◌≤◌, ◌<◌, ◌≡◌, refl, Option, none, some, ◌==◌, arith, if◌then◌else◌, update}
use trema.HashTable.{create_hash, default_hash_size, lookup_hash_entry, delete_hash_entry}
use trema.HashTable.Entries.{delete-returns}
use trema.HashTable.Laws.{lookup-delete, delete-IsValid as hash_delete-IsValid, create-IsValid}
use trema.HashTable.Valid as Table
use trema.Utility.{uint32_key}
use trema.XidTable.{
  XidEntry, XidTable, xid_max_entries, init_xid_table, lookup_xid_entry, clear_slot,
  delete_xid_entry,
}

-- A slot holds an entry exactly when the hash table holds it under its id, and the entry knows its
-- slot.
pub record IsValid (t : XidTable) : Type 0 where
  pub table : Table.IsValid t.hash
  pub counter : t.transaction_id < 2 ^ 32
  pub position : t.next_index ≤ xid_max_entries
  pub stored :
      (i : ℕ) (e : XidEntry)
      → t.entries i ≡ some e
      → (lookup_xid_entry t e.xid ≡ some e) × (e.index ≡ i)
  pub listed :
      (x : ℕ) (e : XidEntry)
      → lookup_xid_entry t x ≡ some e
      → (t.entries e.index ≡ some e) × (e.index < xid_max_entries) × (e.xid ≡ x)

pub init-IsValid : (x : ℕ) → x < 2 ^ 32 → IsValid (init_xid_table x)
unfolding init_xid_table lookup_xid_entry lookup_hash_entry create_hash
init-IsValid x h = record {
  table = create-IsValid default_hash_size (omega arith);
  counter = h;
  position = omega arith;
  stored = λ i e p. ground arith;
  listed = λ y e p. let q : none ≡ some e = p in cc;
}

-- What `delete_xid_entry` leaves, whether or not the table knows the id.
abbrev pub without : XidTable → ℕ → Option XidEntry → XidTable
without t xid none = record t { hash = (delete_hash_entry t.hash xid).1 }
without t xid (some d) = record t {
  hash = (delete_hash_entry t.hash xid).1;
  entries = update t.entries d.index none;
}

pub delete-without :
    (t : XidTable) (e : XidEntry)
    → delete_xid_entry t e ≡ without t e.xid (lookup_xid_entry t e.xid)
unfolding delete_xid_entry lookup_xid_entry
delete-without t e = rw delete-returns (split (lookup_hash_entry t.hash e.xid))
  where
    split :
        (o : Option XidEntry)
        → clear_slot (record t { hash = (delete_hash_entry t.hash e.xid).1 }) o ≡ without t e.xid o
    split none = refl
    split (some d) = refl

pub lookup-without :
    (t : XidTable) (xid : ℕ) (o : Option XidEntry) (q : ℕ)
    → Table.IsValid t.hash
    → lookup_xid_entry (without t xid o) q ≡ (if q == xid then none else lookup_xid_entry t q)
unfolding lookup_xid_entry
lookup-without t xid none q v = lookup-delete t.hash v xid q refl refl
lookup-without t xid (some d) q v = lookup-delete t.hash v xid q refl refl

without-IsValid :
    (t : XidTable) (xid : ℕ) (o : Option XidEntry)
    → lookup_xid_entry t xid ≡ o
    → IsValid t
    → IsValid (without t xid o)
without-IsValid t xid none found v = record {
  table = hash_delete-IsValid t.hash v.table xid;
  counter = v.counter;
  position = v.position;
  stored = λ i e p. ground (arith, lookup-without t xid none e.xid v.table, v.stored i e);
  listed = λ x e p. ground (arith, lookup-without t xid none x v.table, v.listed x e);
}
without-IsValid t xid (some d) found v = record {
  table = hash_delete-IsValid t.hash v.table xid;
  counter = v.counter;
  position = v.position;
  stored = λ i e p.
      ground (arith, lookup-without t xid (some d) e.xid v.table, v.stored i e, v.listed xid d);
  listed = λ x e p.
      ground (arith, lookup-without t xid (some d) x v.table, v.listed x e, v.listed xid d);
}

pub delete-IsValid : (t : XidTable) (e : XidEntry) → IsValid t → IsValid (delete_xid_entry t e)
delete-IsValid t e v =
    rw (delete-without t e) (without-IsValid t e.xid (lookup_xid_entry t e.xid) refl v)
