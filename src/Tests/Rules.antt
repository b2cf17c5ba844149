-- ===== src/Tests/Rules.antt =====
-- Runs of src/lib/match.h and src/lib/match_table.c.
use trema.Base.{
  ℕ, ◌-◌, ◌^◌, ◌≡◌, ◌⊎◌, ◌∙◌, refl, sym, true, false, none, some, [], ◌∷◌, ◌==◌, if◌then◌else◌,
  arith, All,
}
use trema.HashTable.{create_hash_with_size, lookup_hash_entry}
use trema.HashTable.Laws.{create-IsValid, lookup-create}
use trema.Match.{
  compare_match, compare_match_strict, exact_match, compare_fields, wild_or, same_under,
  compare_mac, create_nw_src_mask, create_nw_dst_mask, prefix_mask,
}
use trema.Match.Strict.{match_key, IsShort, compare_match_strict_refl}
use trema.MatchTable.{MatchTable, set_data, lookup_exact_match_strict_entry}
use trema.MatchTable.Wildcards.{lookup_wildcards_match_strict_entry, strict_from, is_same_entry}
use trema.MatchTable.Change.{update_match_entry-changes}
use trema.MatchTable.Delete.{delete_match_entry-Removes, Removes}
use trema.MatchTable.Find.{same_rule}
use trema.MatchTable.Insert.{Adds, insert_match_entry-Adds}
use trema.MatchTable.Invariant.{IsValid, Stores}
use trema.MatchTable.Operations.{
  lookup_match_entry, lookup_match_strict_entry, strict_entry, update_match_entry,
}
use trema.MatchTable.Priority.{Highest, lookup_match_entry-Highest}
use trema.OpenFlow.{Mac, Match}

abbrev mac_one : Mac
mac_one = record { b₀ = 0; b₁ = 0; b₂ = 0; b₃ = 0; b₄ = 0; b₅ = 1 }

-- a packet from port 1
abbrev packet : Match
packet = record {
  wildcards = 0;
  in_port = 1;
  dl_src = mac_one;
  dl_dst = mac_one;
  dl_vlan = 0xffff;
  dl_vlan_pcp = 0;
  dl_type = 0x800;
  nw_tos = 0;
  nw_proto = 6;
  nw_src = 0x0a000001;
  nw_dst = 0x0a000002;
  tp_src = 1024;
  tp_dst = 80;
}

-- every packet
abbrev any_packet : Match
any_packet = record packet { wildcards = 2 ^ 22 - 1 }

packet-IsShort : IsShort packet
packet-IsShort = (omega arith, omega arith)

any_packet-IsShort : IsShort any_packet
any_packet-IsShort = (omega arith, omega arith)

-- one wildcard entry, at address 1
abbrev one_rule : MatchTable
one_rule = record {
  exact_table = create_hash_with_size 4;
  wildcards_table = 1 ∷ [];
  entries = λ a. record { match = any_packet; priority = 10; entry_data = 7 };
  live = λ a. a == 1;
  next_address = 2;
}

any_is_wild : exact_match any_packet ≡ false
unfolding exact_match
any_is_wild = refl

packet_is_exact : exact_match packet ≡ true
unfolding exact_match
packet_is_exact = refl

no_exact_entry :
    (q : Match) (a : ℕ)
    → lookup_hash_entry (create_hash_with_size {V = ℕ} 4) q ≡ some a
    → Stores one_rule q a
no_exact_entry q a e =
    let no : none ≡ some a = sym (lookup-create 4 q) ∙ e in absurd (ground (arith, no))

one_rule-IsValid : IsValid one_rule
one_rule-IsValid = record {
  hashed = create-IsValid 4 (omega arith);
  keyed = λ q a l e. no_exact_entry q a e;
  listed = ((refl, omega arith, any_is_wild), tt);
  distinct = (tt, tt);
  sorted = (tt, tt);
  unique = (tt, tt);
}

find_packet : strict_entry one_rule packet 0 ≡ none
unfolding strict_entry lookup_exact_match_strict_entry exact_match
find_packet = lookup-create 4 packet

find_any : strict_entry one_rule any_packet 10 ≡ some 1
unfolding strict_entry lookup_wildcards_match_strict_entry strict_from is_same_entry exact_match
find_any = rw (compare_match_strict_refl any_packet)

insert_match_entry-Adds_example : (u : MatchTable) × Adds one_rule packet 0 5 u
insert_match_entry-Adds_example =
    insert_match_entry-Adds one_rule one_rule-IsValid packet 0 5 packet-IsShort find_packet

delete_match_entry-Removes_example : (u : MatchTable) × Removes one_rule any_packet 10 1 u
delete_match_entry-Removes_example =
    delete_match_entry-Removes one_rule one_rule-IsValid any_packet 10 1 any_packet-IsShort find_any

update_match_entry-changes_example :
    (update_match_entry one_rule any_packet 10 8 ≡ (true, set_data one_rule 1 8))
    × IsValid (set_data one_rule 1 8)
    × ((q : Match) (r : ℕ)
        → IsShort q
        → lookup_match_strict_entry (set_data one_rule 1 8) q r
          ≡ (if same_rule q r any_packet 10 then 8 else lookup_match_strict_entry one_rule q r))
update_match_entry-changes_example =
    update_match_entry-changes one_rule one_rule-IsValid any_packet 10 8 1 any_packet-IsShort
      find_any

lookup_match_entry-Highest_example :
    ((lookup_match_entry one_rule packet ≡ 0)
      × All (λ b. compare_match (one_rule.entries b).match packet ≡ false) (1 ∷ []))
    ⊎ ((a : ℕ) × (lookup_match_entry one_rule packet ≡ (one_rule.entries a).entry_data)
        × (one_rule.live a ≡ true)
        × Highest one_rule.entries packet (1 ∷ []) a)
lookup_match_entry-Highest_example =
    lookup_match_entry-Highest one_rule one_rule-IsValid packet (lookup-create 4 packet)

-- the same packet with a wildcard bit that OpenFlow 1.0 does not use
abbrev marked_packet : Match
marked_packet = record packet { wildcards = 2 ^ 31 }

marked_is_same : compare_match_strict packet marked_packet ≡ true
unfolding compare_match_strict compare_match compare_fields wild_or same_under compare_mac
    create_nw_src_mask create_nw_dst_mask prefix_mask
marked_is_same = refl
