-- ===== src/XidTable/Generate.antt =====
-- src/switch_manager/xid_table.c: `generate_xid` returns an id, and away from the wrap-around the
-- id is not in the table, because the table is much smaller than the range of ids.
use trema.Base.{
  ℕ, zero, suc, ◌+◌, ◌-◌, ◌%◌, ◌^◌, ◌≤◌, ◌<◌, ◌≡◌, ◌≢◌, refl, sym, ◌∙◌, ap, Bool, true, false,
  Option, none, some, List, [], ◌∷◌, ◌==◌, arith, if◌then◌else◌, ==_iff, length, Option-cases,
  Bool-cases, inl, inr,
}
use trema.Base.Pigeonhole.{contains, run-le-length}
use trema.XidTable.{
  XidEntry, XidTable, xid_max_entries, uint32_max, next_xid, lookup_xid_entry, probe, used_in,
  generate_within, generate_xid,
}
use trema.XidTable.Invariant.{IsValid}

-- the ids in the first `n` slots
xids_below : ℕ → (ℕ → Option XidEntry) → List ℕ
xids_below zero entries = []
xids_below (suc n) entries = elim (entries n) [
  | none ↦ xids_below n entries
  | some e ↦ e.xid ∷ xids_below n entries
]

length-xids_below : (n : ℕ) (entries : ℕ → Option XidEntry) → length (xids_below n entries) ≤ n
unfolding xids_below
length-xids_below zero entries = omega arith
length-xids_below (suc n) entries = ground (arith, length-xids_below n entries)

contains-xids_below :
    (n : ℕ) (entries : ℕ → Option XidEntry) (i : ℕ) (e : XidEntry)
    → i < n
    → entries i ≡ some e
    → contains e.xid (xids_below n entries) ≡ true
unfolding xids_below contains
contains-xids_below zero entries i e h p = absurd (omega arith)
contains-xids_below (suc n) entries i e h p = elim (Bool-cases (i == n)) [
  | inl same ↦ ground arith
  | inr other ↦ ground (arith, contains-xids_below n entries i e)
]

next-offset : (start k : ℕ) → next_xid ((start + k) % 2 ^ 32) ≡ (start + suc k) % 2 ^ 32
next-offset start k = ground arith

moves :
    (start k : ℕ)
    → start < 2 ^ 32
    → suc k ≤ xid_max_entries
    → (next_xid ((start + k) % 2 ^ 32) == start) ≡ false
moves start k lt le = ground arith

probe_step :
    (fuel : ℕ) (used : ℕ → Bool) (start x : ℕ)
    → used x ≡ true
    → (next_xid x == start) ≡ false
    → probe (suc fuel) used start x ≡ probe fuel used start (next_xid x)
unfolding probe
probe_step fuel used start x u m = rw (u, m)

generate_within_ne :
    (fuel : ℕ) (t : XidTable)
    → t.transaction_id ≢ uint32_max
    → generate_within fuel t ≡ probe fuel (used_in t) (t.transaction_id + 1) (t.transaction_id + 1)
unfolding generate_within
generate_within_ne fuel t ne =
    let other : (t.transaction_id == uint32_max) ≡ false = ground arith in rw other

module _ (t : XidTable) (valid : IsValid t) where
  used-contains :
      (x : ℕ) → used_in t x ≡ true → contains x (xids_below xid_max_entries t.entries) ≡ true
  used-contains x h = elim (Option-cases (lookup_xid_entry t x)) [
    | inl e ↦ ground arith
    | inr (e, found) ↦
        let at = valid.listed x e found in
        rw (sym at.2) (contains-xids_below xid_max_entries t.entries e.index e at.1 at.0)
  ]

  -- At most as many ids in a row are in use as the table has slots.
  run_bound :
      (n start : ℕ)
      → n ≤ 2 ^ 32
      → ((j : ℕ) → j < n → used_in t ((start + j) % 2 ^ 32) ≡ true)
      → n ≤ xid_max_entries
  run_bound n start small all = omega (
    arith,
    run-le-length n start (xids_below xid_max_entries t.entries) small
        (λ j h. used-contains ((start + j) % 2 ^ 32) (all j h)),
    length-xids_below xid_max_entries t.entries,
  )

  extend :
      (start k : ℕ)
      → ((j : ℕ) → j < k → used_in t ((start + j) % 2 ^ 32) ≡ true)
      → used_in t ((start + k) % 2 ^ 32) ≡ true
      → (j : ℕ) → j < suc k
      → used_in t ((start + j) % 2 ^ 32) ≡ true
  extend start k all used j h = elim (Bool-cases (j == k)) [
    | inl e ↦ rw ((==_iff j k).0 e) used
    | inr e ↦ all j (ground arith)
  ]

  probe_fresh :
      (fuel start k : ℕ)
      → start < 2 ^ 32
      → xid_max_entries < k + fuel
      → k ≤ xid_max_entries
      → ((j : ℕ) → j < k → used_in t ((start + j) % 2 ^ 32) ≡ true)
      → (x : ℕ) × (probe fuel (used_in t) start ((start + k) % 2 ^ 32) ≡ some x)
        × (lookup_xid_entry t x ≡ none)
        × (x < 2 ^ 32)
  unfolding probe
  probe_fresh zero start k lt enough le all = absurd (omega arith)
  probe_fresh (suc fuel) start k lt enough le all =
      let x = (start + k) % 2 ^ 32 in
      elim (Bool-cases (used_in t x)) [
        | inr free ↦ (x, rw free refl, ground arith, omega arith)
        | inl used ↦
            let all' = extend start k all used in
            let bound = run_bound (suc k) start (omega arith) all' in
            let (y, run, fresh, small) =
              probe_fresh fuel start (suc k) lt (omega arith) bound all' in
            (
              y,
              probe_step fuel (used_in t) start x used (moves start k lt bound)
                  ∙ ap (probe fuel (used_in t) start) (next-offset start k)
                  ∙ run,
              fresh,
              small,
            )
      ]

  generate_within_fresh :
      (fuel : ℕ)
      → xid_max_entries < fuel
      → t.transaction_id ≢ uint32_max
      → (x : ℕ) × (generate_within fuel t ≡ some x) × (lookup_xid_entry t x ≡ none) × (x < 2 ^ 32)
  generate_within_fresh fuel enough ne =
      let start = t.transaction_id + 1 in
      let first : (start + 0) % 2 ^ 32 ≡ start = omega (arith, valid.counter) in
      let (x, run, fresh, small) =
        probe_fresh fuel start 0 (omega (arith, valid.counter)) (omega arith) (omega arith)
          (λ j h. absurd (omega arith)) in
      (
        x,
        generate_within_ne fuel t ne ∙ ap (probe fuel (used_in t) start) (sym first) ∙ run,
        fresh,
        small,
      )

  -- On a well formed table whose counter is not at `UINT32_MAX`, `generate_xid` returns an id of 32
  -- bits that is not in the table.
  pub generate_xid_fresh :
      t.transaction_id ≢ uint32_max
      → (x : ℕ) × (generate_xid t ≡ some x) × (lookup_xid_entry t x ≡ none) × (x < 2 ^ 32)
  unfolding generate_xid
  generate_xid_fresh ne = generate_within_fresh (2 ^ 32) (omega arith) ne

generate_within_wrap :
    (fuel : ℕ) (t : XidTable)
    → t.transaction_id ≡ uint32_max
    → generate_within (suc fuel) t ≡ some (if used_in t uint32_max then 0 else uint32_max)
unfolding generate_within probe lookup_xid_entry
generate_within_wrap fuel t e = simp e (split (used_in t uint32_max))
  where
    split :
        (b : Bool) → (if b then some 0 else some uint32_max) ≡ some (if b then 0 else uint32_max)
    split true = refl
    split false = refl

-- With the counter at `UINT32_MAX`, `generate_xid` returns `UINT32_MAX`, or 0 when that is in use,
-- whether or not 0 is in use.
pub generate_xid_wrap :
    (t : XidTable)
    → t.transaction_id ≡ uint32_max
    → generate_xid t ≡ some (if used_in t uint32_max then 0 else uint32_max)
unfolding generate_xid
generate_xid_wrap t e = generate_within_wrap (2 ^ 32 - 1) t e
