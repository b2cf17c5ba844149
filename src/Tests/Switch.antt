-- ===== src/Tests/Switch.antt =====
-- Runs of src/switch_manager/xid_table.c and src/switch_manager/event_forward_entry_manipulation.c.
use trema.Base.{
  ℕ, ◌^◌, ◌<◌, ◌≡◌, ◌≢◌, refl, ap, none, some, List, [], ◌∷◌, arith, ◌==◌, ◌||◌, length,
  if◌then◌else◌,
}
use trema.DpidTable.{insert_dpid_entry}
use trema.DpidTable.Registered.{is_registered, insert_dpid_entry-registers}
use trema.HashTable.{create_hash_with_size}
use trema.HashTable.Laws.{create-IsValid}
use trema.HashTable.Valid as Table
use trema.Utility.{datapath_id_key}
use trema.EventForward.{OperationRequest, management_event_forward_entries_set}
use trema.EventForward.Laws.{entries_set_roundtrip, joined}
use trema.XidTable.{
  XidTable, uint32_max, init_xid_table, lookup_xid_entry, generate_xid, used_in, insert_xid_entry,
}
use trema.XidTable.Generate.{generate_xid_fresh, generate_xid_wrap}
use trema.XidTable.Insert.{Inserts, insert-Inserts}
use trema.XidTable.Invariant.{init-IsValid}

counter_low : (init_xid_table 5).transaction_id ≢ uint32_max
unfolding init_xid_table
counter_low e = omega (arith, e)

counter_top : (init_xid_table uint32_max).transaction_id ≡ uint32_max
unfolding init_xid_table
counter_top = refl

insert-Inserts_example :
    (x : ℕ) × (u : XidTable) × (insert_xid_entry (init_xid_table 5) 77 (108 ∷ []) ≡ some (x, u))
    × Inserts (init_xid_table 5) 77 (108 ∷ []) x u
insert-Inserts_example =
    insert-Inserts (init_xid_table 5) 77 (108 ∷ []) (init-IsValid 5 (omega arith)) counter_low

generate_xid_fresh_example :
    (x : ℕ) × (generate_xid (init_xid_table 5) ≡ some x)
    × (lookup_xid_entry (init_xid_table 5) x ≡ none)
    × (x < 2 ^ 32)
generate_xid_fresh_example =
    generate_xid_fresh (init_xid_table 5) (init-IsValid 5 (omega arith)) counter_low

generate_xid_wrap_example :
    generate_xid (init_xid_table uint32_max)
    ≡ some (if used_in (init_xid_table uint32_max) uint32_max then 0 else uint32_max)
generate_xid_wrap_example = generate_xid_wrap (init_xid_table uint32_max) counter_top

-- the services "lldp" and "arp", by their first bytes
abbrev lldp : List ℕ
lldp = 108 ∷ 108 ∷ []

abbrev arp : List ℕ
arp = 97 ∷ 114 ∷ []

abbrev arp_request : OperationRequest
arp_request = record { n_services = 1; service_list = 97 ∷ 114 ∷ 0 ∷ [] }

entries_set_roundtrip_example :
    management_event_forward_entries_set
      (lldp ∷ [])
      (record { n_services = 2; service_list = joined (arp ∷ lldp ∷ []) })
    ≡ some (arp ∷ lldp ∷ [])
entries_set_roundtrip_example =
    entries_set_roundtrip (lldp ∷ []) (arp ∷ lldp ∷ []) (λ e. omega (arith, ap length e))
      ((refl, λ e. omega (arith, ap length e)), ((refl, λ e. omega (arith, ap length e)), tt))

insert_dpid_entry-registers_example :
    Table.IsValid (insert_dpid_entry (create_hash_with_size 4) 7)
    × ((x : ℕ)
        → is_registered (insert_dpid_entry (create_hash_with_size 4) 7) x
          ≡ (x == 7 || is_registered (create_hash_with_size 4) x))
insert_dpid_entry-registers_example =
    insert_dpid_entry-registers (create_hash_with_size 4) (create-IsValid 4 (omega arith)) 7
