-- ===== src/MatchTable/Operations.antt =====
-- src/lib/match_table.c: the functions that other files call, and the walks.
use trema.Base.{ℕ, Bool, false, Option, none, some, [], if◌then◌else◌}
use trema.HashTable.{create_hash}
use trema.HashTable.Iterate.{foreach_hash, delete_hash}
use trema.LinkedList.{iterate_list}
use trema.Match.{compare_filter_match, exact_match}
use trema.Match.Strict.{match_key}
use trema.OpenFlow.{Mac, Match}
use trema.MatchTable.{
  MatchEntry, MatchTable, free_match_entry, data_of, insert_exact_match_entry,
  lookup_exact_match_strict_entry, update_exact_match_entry, delete_exact_match_strict_entry,
}
use trema.MatchTable.Wildcards.{
  insert_wildcards_match_entry, lookup_wildcards_match_strict_entry, lookup_wildcards_match_entry,
  update_wildcards_match_entry, delete_wildcards_match_strict_entry,
}

abbrev pub no_mac : Mac
no_mac = record { b₀ = 0; b₁ = 0; b₂ = 0; b₃ = 0; b₄ = 0; b₅ = 0 }

abbrev pub no_match : Match
no_match = record {
  wildcards = 0;
  in_port = 0;
  dl_src = no_mac;
  dl_dst = no_mac;
  dl_vlan = 0;
  dl_vlan_pcp = 0;
  dl_type = 0;
  nw_tos = 0;
  nw_proto = 0;
  nw_src = 0;
  nw_dst = 0;
  tp_src = 0;
  tp_dst = 0;
}

-- An address that was never returned by `xmalloc` is not read.
abbrev pub empty_match_table : MatchTable
empty_match_table = record {
  exact_table = create_hash;
  wildcards_table = [];
  entries = λ _. record { match = no_match; priority = 0; entry_data = 0 };
  live = λ _. false;
  next_address = 1;
}

unfoldable pub init_match_table : Option MatchTable → Option MatchTable
init_match_table (some t) = none
init_match_table none = some empty_match_table

-- Below, the argument is the table that `_match_table_head` points to.
unfoldable pub insert_match_entry : MatchTable → Match → ℕ → ℕ → Option (Bool × MatchTable)
unfolding insert_exact_match_entry insert_wildcards_match_entry
insert_match_entry t m p d =
    if exact_match m
    then some (insert_exact_match_entry t m d)
    else insert_wildcards_match_entry t m p d

-- the entry of `lookup_match_strict_entry`
unfoldable pub strict_entry : MatchTable → Match → ℕ → Option ℕ
unfolding lookup_exact_match_strict_entry lookup_wildcards_match_strict_entry
strict_entry t m p =
    if exact_match m
    then lookup_exact_match_strict_entry t m
    else lookup_wildcards_match_strict_entry t m p

unfoldable pub lookup_match_strict_entry : MatchTable → Match → ℕ → ℕ
unfolding strict_entry data_of
lookup_match_strict_entry t m p = data_of t (strict_entry t m p)

unfoldable pub or_wildcards : MatchTable → Match → Option ℕ → Option ℕ
unfolding lookup_wildcards_match_entry
or_wildcards t m (some a) = some a
or_wildcards t m none = lookup_wildcards_match_entry t m

unfoldable pub lookup_match_entry : MatchTable → Match → ℕ
unfolding or_wildcards data_of lookup_exact_match_strict_entry
lookup_match_entry t m = data_of t (or_wildcards t m (lookup_exact_match_strict_entry t m))

unfoldable pub update_match_entry : MatchTable → Match → ℕ → ℕ → Bool × MatchTable
unfolding update_exact_match_entry update_wildcards_match_entry
update_match_entry t m p d =
    if exact_match m then update_exact_match_entry t m d else update_wildcards_match_entry t m p d

unfoldable pub delete_match_strict_entry : MatchTable → Match → ℕ → Option (ℕ × MatchTable)
unfolding delete_exact_match_strict_entry delete_wildcards_match_strict_entry
delete_match_strict_entry t m p =
    if exact_match m
    then some (delete_exact_match_strict_entry t m)
    else delete_wildcards_match_strict_entry t m p

-- an entry of a walk; a walk with no `match` filters nothing
unfoldable pub walk_entry {ℓ} :
    {S : Type ℓ} → Option Match → (Match → ℕ → ℕ → S → S) → MatchEntry → S → S
walk_entry none function e s = function e.match e.priority e.entry_data s
walk_entry (some m) function e s =
    if compare_filter_match m e.match then function e.match e.priority e.entry_data s else s

-- for a function that leaves the table as it is
unfoldable pub map_exact_match_table {ℓ} :
    {S : Type ℓ} → MatchTable → Option Match → (Match → ℕ → ℕ → S → S) → S → S
unfolding walk_entry
map_exact_match_table t m function s =
    foreach_hash t.exact_table (λ k a. walk_entry m function (t.entries a)) s

unfoldable pub map_wildcards_match_table {ℓ} :
    {S : Type ℓ} → MatchTable → Option Match → (Match → ℕ → ℕ → S → S) → S → S
unfolding walk_entry
map_wildcards_match_table t m function s =
    iterate_list t.wildcards_table (λ a. walk_entry m function (t.entries a)) s

-- `_map_match_table`, that `foreach_match_table` calls with no match
unfoldable pub map_match_table {ℓ} :
    {S : Type ℓ} → MatchTable → Option Match → (Match → ℕ → ℕ → S → S) → S → S
unfolding map_exact_match_table map_wildcards_match_table
map_match_table t m function s =
    map_wildcards_match_table t m function (map_exact_match_table t m function s)

-- the entries that `finalize_match_table` frees, in order: the walk of the exact table, then the
-- list
unfoldable pub finalize_exact_match_table : MatchTable → MatchTable
unfolding free_match_entry
finalize_exact_match_table t =
    record (foreach_hash t.exact_table (λ k a u. free_match_entry u a) t) {
      exact_table = (delete_hash t.exact_table).1;
    }

unfoldable pub finalize_wildcards_match_table : MatchTable → MatchTable
unfolding free_match_entry
finalize_wildcards_match_table t =
    record (iterate_list t.wildcards_table (λ a u. free_match_entry u a) t) { wildcards_table = [] }

-- The memory that is left when both tables are freed.
unfoldable pub finalize_match_table : MatchTable → MatchTable
unfolding finalize_exact_match_table finalize_wildcards_match_table
finalize_match_table t = finalize_wildcards_match_table (finalize_exact_match_table t)
