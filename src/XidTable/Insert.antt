-- ===== src/XidTable/Insert.antt =====
-- src/switch_manager/xid_table.c: `insert_xid_entry` frees the next slot, and stores the entry
-- there under a new id.
use trema.Base.{
  ℕ, ◌+◌, ◌^◌, ◌<◌, ◌≡◌, ◌≢◌, refl, sym, ◌∙◌, ap, Option, none, some, List, ◌==◌, arith,
  if◌then◌else◌, ltb, update, Bool-cases, inl, inr,
}
use trema.HashTable.{insert_hash_entry}
use trema.HashTable.Entries.{insert-returns}
use trema.HashTable.Laws.{lookup-insert, insert-IsValid as hash_insert-IsValid}
use trema.Utility.{uint32_key}
use trema.XidTable.{
  XidEntry, XidTable, xid_max_entries, uint32_max, lookup_xid_entry, generate_xid, clear_slot,
  wrap_index, evict, store_entry, insert_xid_entry,
}
use trema.XidTable.Invariant.{IsValid, without, delete-without, lookup-without, delete-IsValid}
use trema.XidTable.Generate.{generate_xid_fresh}

abbrev new_entry : XidTable → ℕ → ℕ → List ℕ → XidEntry
new_entry t xid original_xid service_name = record {
  xid = xid;
  original_xid = original_xid;
  service_name = service_name;
  index = t.next_index;
}

-- the table that `store_entry` leaves when the id is new
abbrev stored : XidTable → ℕ → XidEntry → XidTable
stored t xid e = record {
  transaction_id = xid;
  entries = update t.entries t.next_index (some e);
  hash = (insert_hash_entry t.hash xid e).1;
  next_index = t.next_index + 1;
}

store_entry_fresh :
    (t : XidTable) (xid original_xid : ℕ) (service_name : List ℕ)
    → lookup_xid_entry t xid ≡ none
    → store_entry t xid original_xid service_name
      ≡ stored t xid (new_entry t xid original_xid service_name)
unfolding store_entry lookup_xid_entry clear_slot
store_entry_fresh t xid original_xid service_name h = rw (insert-returns, h)

lookup-stored :
    (t : XidTable) (xid : ℕ) (e : XidEntry) (q : ℕ)
    → IsValid t
    → lookup_xid_entry (stored t xid e) q ≡ (if q == xid then some e else lookup_xid_entry t q)
unfolding lookup_xid_entry
lookup-stored t xid e q v = lookup-insert t.hash v.table xid e q refl refl

stored-IsValid :
    (t : XidTable) (e : XidEntry)
    → IsValid t
    → e.xid < 2 ^ 32
    → t.next_index < xid_max_entries
    → e.index ≡ t.next_index
    → t.entries t.next_index ≡ none
    → lookup_xid_entry t e.xid ≡ none
    → IsValid (stored t e.xid e)
stored-IsValid t e v small room at empty fresh = record {
  table = hash_insert-IsValid t.hash v.table e.xid e refl;
  counter = small;
  position = omega arith;
  stored = λ i d p. ground (arith, lookup-stored t e.xid e d.xid v, v.stored i d);
  listed = λ x d p. ground (arith, lookup-stored t e.xid e x v, v.listed x d);
}

wrap_index-IsValid : (t : XidTable) → IsValid t → IsValid (wrap_index t)
unfolding wrap_index lookup_xid_entry
wrap_index-IsValid t v = elim (Bool-cases (ltb t.next_index xid_max_entries)) [
  | inl e ↦ rw e v
  | inr e ↦ rw e (record {
    table = v.table;
    counter = v.counter;
    position = omega arith;
    stored = v.stored;
    listed = v.listed;
  })
]

wrap_index-lt : (t : XidTable) → (wrap_index t).next_index < xid_max_entries
unfolding wrap_index
wrap_index-lt t = ground arith

-- An eviction frees the slot at `next_index` and drops the id that stood there, and no other.
record Evicts (t u : XidTable) : Type 0 where
  valid : IsValid u
  position : u.next_index ≡ t.next_index
  counter : u.transaction_id ≡ t.transaction_id
  freed : u.entries t.next_index ≡ none
  kept :
      (q : ℕ) (e : XidEntry)
      → lookup_xid_entry t q ≡ some e
      → e.index ≢ t.next_index
      → lookup_xid_entry u q ≡ some e

without-Evicts :
    (t : XidTable) (e : XidEntry)
    → IsValid t
    → t.entries t.next_index ≡ some e
    → IsValid (without t e.xid (some e))
    → Evicts t (without t e.xid (some e))
without-Evicts t e v at u = record {
  valid = u;
  position = refl;
  counter = refl;
  freed = ground (arith, v.stored t.next_index e);
  kept = λ q d found away.
      ground
        (arith, lookup-without t e.xid (some e) q v.table, v.stored t.next_index e, v.listed q d);
}

evict-Evicts :
    (t : XidTable) (o : Option XidEntry)
    → IsValid t
    → t.entries t.next_index ≡ o
    → Evicts t (evict t o)
unfolding evict
evict-Evicts t none v at = record {
  valid = v;
  position = refl;
  counter = refl;
  freed = at;
  kept = λ q e p a. p;
}
evict-Evicts t (some e) v at =
    let same = delete-without t e ∙ ap (without t e.xid) (v.stored t.next_index e at).0 in
    rw same (without-Evicts t e v at (rw same at (delete-IsValid t e v)))

abbrev pub slot_of : XidTable → ℕ
slot_of t = if ltb t.next_index xid_max_entries then t.next_index else 0

-- What `insert_xid_entry` promises: the new id was free once the slot was, it reads as the new
-- entry, and every entry of another slot reads as before.
pub record Inserts (t : XidTable) (original_xid : ℕ) (service_name : List ℕ) (x : ℕ) (u : XidTable)
    : Type 0 where
  pub valid : IsValid u
  pub counter : u.transaction_id ≡ x
  pub reads :
      lookup_xid_entry u x
      ≡ some (record {
        xid = x;
        original_xid = original_xid;
        service_name = service_name;
        index = slot_of t;
      })
  pub kept :
      (q : ℕ) (e : XidEntry)
      → lookup_xid_entry t q ≡ some e
      → e.index ≢ slot_of t
      → (q ≢ x) × (lookup_xid_entry u q ≡ some e)

-- the second half of `insert_xid_entry`, at a free slot
insert_at :
    (t u : XidTable) (original_xid : ℕ) (service_name : List ℕ) (x : ℕ)
    → Evicts t u
    → t.next_index < xid_max_entries
    → lookup_xid_entry u x ≡ none
    → x < 2 ^ 32
    → Inserts t original_xid service_name x (store_entry u x original_xid service_name)
insert_at t u original_xid service_name x out room fresh small =
    let e = new_entry u x original_xid service_name in
    rw (store_entry_fresh u x original_xid service_name fresh) (record {
      valid =
          stored-IsValid u e out.valid small (rw out.position room) refl (rw out.position out.freed)
            fresh;
      counter = refl;
      reads = ground (arith, lookup-stored u x e x out.valid, out.position);
      kept = λ q d found away. ground (arith, lookup-stored u x e q out.valid, out.kept q d found);
    })

wrap_index-Inserts :
    (t : XidTable) (original_xid : ℕ) (service_name : List ℕ) (x : ℕ) (u : XidTable)
    → Inserts (wrap_index t) original_xid service_name x u
    → Inserts t original_xid service_name x u
unfolding wrap_index lookup_xid_entry
wrap_index-Inserts t original_xid service_name x u h =
    elim (Bool-cases (ltb t.next_index xid_max_entries)) [
      | inl e ↦ rw e at h
      | inr e ↦
          let h' : Inserts (record t { next_index = 0 }) original_xid service_name x u =
            rw e at h in
          record {
            valid = h'.valid;
            counter = h'.counter;
            reads = rw e h'.reads;
            kept = λ q d found away. h'.kept q d found (rw e at away);
          }
    ]

insert_run :
    (t : XidTable) (original_xid : ℕ) (service_name : List ℕ) (x : ℕ)
    → generate_xid (evict (wrap_index t) ((wrap_index t).entries (wrap_index t).next_index))
      ≡ some x
    → insert_xid_entry t original_xid service_name
      ≡ some (
        x,
        store_entry
            (evict (wrap_index t) ((wrap_index t).entries (wrap_index t).next_index))
            x
            original_xid
            service_name,
      )
unfolding insert_xid_entry
insert_run t original_xid service_name x run = rw (run, insert_xid_entry)

wrap_index-transaction_id : (t : XidTable) → (wrap_index t).transaction_id ≡ t.transaction_id
unfolding wrap_index
wrap_index-transaction_id t = ground arith

-- On a well formed table whose counter is not at `UINT32_MAX`, `insert_xid_entry` returns an id and
-- a table for which `Inserts` holds.
pub insert-Inserts :
    (t : XidTable) (original_xid : ℕ) (service_name : List ℕ)
    → IsValid t
    → t.transaction_id ≢ uint32_max
    → (x : ℕ) × (u : XidTable) × (insert_xid_entry t original_xid service_name ≡ some (x, u))
      × Inserts t original_xid service_name x u
insert-Inserts t original_xid service_name v ne =
    let w = wrap_index t in
    let out = evict-Evicts w (w.entries w.next_index) (wrap_index-IsValid t v) refl in
    let evicted = evict w (w.entries w.next_index) in
    let (x, run, fresh, small) =
      generate_xid_fresh evicted out.valid
        (λ e. ne (sym (wrap_index-transaction_id t) ∙ sym out.counter ∙ e)) in
    (
      x,
      store_entry evicted x original_xid service_name,
      insert_run t original_xid service_name x run,
      wrap_index-Inserts t original_xid service_name x _
          (insert_at w evicted original_xid service_name x out (wrap_index-lt t) fresh small),
    )
