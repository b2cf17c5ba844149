-- ===== src/Match/Strict.antt =====
-- src/lib/match.h: `compare_match_strict` is an equivalence, and it fits the hash of
-- src/lib/match_table.c on the matches that the exact table stores.
use trema.Base.{
  ℕ, ◌<◌, ◌^◌, ◌/◌, ◌≡◌, ◌↔◌, ◌∙◌, refl, sym, ap, Bool, true, ◌&&◌, ◌==◌, ltb, arith, bit_and,
  bit_xor, ==_iff,
}
use trema.Bits.{xor_masked, and_submask, and_ones}
use trema.Match.{
  compare_mac, compare_fields, compare_match_strict, exact_match, hash_exact_match_entry,
  same_under, wild_or, create_nw_src_mask, create_nw_dst_mask, prefix_mask,
}
use trema.Match.Fields.{
  SameWild, canon, canon_refl, canon_symm, canon_trans, compare_match-canon, compare_mac→eq,
}
use trema.OpenFlow.{
  Match, Mac, ofpfw_all, ofpfw_in_port, ofpfw_dl_vlan, ofpfw_dl_src, ofpfw_dl_dst, ofpfw_dl_type,
  ofpfw_nw_proto, ofpfw_tp_src, ofpfw_tp_dst, ofpfw_dl_vlan_pcp, ofpfw_nw_tos, ofpfw_nw_src_mask,
  ofpfw_nw_dst_mask,
}
use trema.TableKey.{Key}

SameWild-iff :
    (x y : Match)
    → ((bit_and (bit_xor x.wildcards y.wildcards) ofpfw_all == 0) ≡ true) ↔ SameWild x y
SameWild-iff x y = (
  λ h. (xor_masked x.wildcards y.wildcards ofpfw_all).0 ((==_iff _ 0).0 h),
  λ s. (==_iff _ 0).1 ((xor_masked x.wildcards y.wildcards ofpfw_all).1 s),
)

strict_split : (x y : Match) → compare_match_strict x y ≡ true → SameWild x y × (canon x y ≡ true)
unfolding compare_match_strict
strict_split x y h =
    let s = (SameWild-iff x y).0 (ground arith) in
    (s, sym (compare_match-canon x y s) ∙ ground arith)

strict_join : (x y : Match) → SameWild x y → canon x y ≡ true → compare_match_strict x y ≡ true
unfolding compare_match_strict
strict_join x y s c = ground (arith, (SameWild-iff x y).1 s, compare_match-canon x y s ∙ c)

-- `compare_match_strict` holds of a match and itself.
pub compare_match_strict_refl : (x : Match) → compare_match_strict x x ≡ true
compare_match_strict_refl x = strict_join x x refl (canon_refl x)

strict_flip : (x y : Match) → compare_match_strict x y ≡ true → compare_match_strict y x ≡ true
strict_flip x y h =
    let (s, c) = strict_split x y h in strict_join y x (sym s) (sym (canon_symm x y s) ∙ c)

pub compare_match_strict_symm : (x y : Match) → compare_match_strict x y ≡ compare_match_strict y x
compare_match_strict_symm x y = ground (arith, strict_flip x y, strict_flip y x)

-- Three matches: when the first and the second, and the second and the third compare strictly
-- equal, so do the first and the third.
pub compare_match_strict_trans :
    (x y z : Match)
    → compare_match_strict x y ≡ true
    → compare_match_strict y z ≡ true
    → compare_match_strict x z ≡ true
compare_match_strict_trans x y z p q =
    let (s, c) = strict_split x y p in
    let (r, d) = strict_split y z q in strict_join x z (s ∙ r) (canon_trans x y z s c d)

pub exact_match_congr :
    (x y : Match) → compare_match_strict x y ≡ true → exact_match x ≡ exact_match y
unfolding exact_match
exact_match_congr x y h = ap (λ w. w == 0) (strict_split x y h).0

-- the address of 32 bits
abbrev pub IsShort : Match → Type 0
IsShort m = (m.nw_src < 2 ^ 32) × (m.nw_dst < 2 ^ 32)

module _ (w : ℕ) (none_set : bit_and w ofpfw_all ≡ 0) where
  no_flag : (flag : ℕ) → bit_and ofpfw_all flag ≡ flag → bit_and 0 flag ≡ 0 → bit_and w flag ≡ 0
  no_flag flag sub z = and_submask w 0 ofpfw_all flag sub none_set ∙ z

  not_wild :
      (flag : ℕ) (e : Bool)
      → bit_and ofpfw_all flag ≡ flag
      → bit_and 0 flag ≡ 0
      → wild_or w flag e ≡ true
      → e ≡ true
  unfolding wild_or
  not_wild flag e sub z h = ground (arith, no_flag flag sub z)

  src_mask_full : create_nw_src_mask w ≡ 0xffffffff
  unfolding create_nw_src_mask prefix_mask
  src_mask_full = ap (λ v. prefix_mask (v / 2 ^ 8)) (no_flag ofpfw_nw_src_mask refl refl)

  dst_mask_full : create_nw_dst_mask w ≡ 0xffffffff
  unfolding create_nw_dst_mask prefix_mask
  dst_mask_full = ap (λ v. prefix_mask (v / 2 ^ 14)) (no_flag ofpfw_nw_dst_mask refl refl)

same_under_full : (a b : ℕ) → a < 2 ^ 32 → b < 2 ^ 32 → same_under 0xffffffff a b ≡ true → a ≡ b
unfolding same_under
same_under_full a b ha hb h =
    sym (and_ones 32 a ha) ∙ (xor_masked a b 0xffffffff).0 ((==_iff _ 0).0 h) ∙ and_ones 32 b hb

and_map : {a b : Bool} {P Q : Type 0} → (a ≡ true → P) → (b ≡ true → Q) → (a && b) ≡ true → P × Q
and_map {a} {b} f g h = (f (ground arith), g (ground arith))

-- Exact matches that compare equal have equal fields.
fields_full :
    (w : ℕ) (x y : Match)
    → bit_and w ofpfw_all ≡ 0
    → IsShort x
    → IsShort y
    → compare_fields w 0xffffffff 0xffffffff x y ≡ true
    → record x { wildcards = w } ≡ record y { wildcards = w }
unfolding compare_fields
fields_full w x y full sx sy h =
    let eq : (flag : ℕ) (a b : ℕ)
        → bit_and ofpfw_all flag ≡ flag
        → bit_and 0 flag ≡ 0
        → wild_or w flag (a == b) ≡ true
        → a ≡ b =
      λ flag a b sub z p. (==_iff a b).0 (not_wild w full flag (a == b) sub z p) in
    let mac : (flag : ℕ) (a b : Mac)
        → bit_and ofpfw_all flag ≡ flag
        → bit_and 0 flag ≡ 0
        → wild_or w flag (compare_mac a b) ≡ true
        → a ≡ b =
      λ flag a b sub z p. compare_mac→eq a b (not_wild w full flag (compare_mac a b) sub z p) in
    let (
      (
        (
          (
            (((((((in_port, dl_vlan), dl_vlan_pcp), dl_src), dl_dst), dl_type), nw_src), nw_dst),
            nw_tos,
          ),
          nw_proto,
        ),
        tp_src,
      ),
      tp_dst,
    ) =
      and_map
        (and_map
          (and_map
            (and_map
              (and_map
                (and_map
                  (and_map
                    (and_map
                      (and_map
                        (and_map
                          (and_map (eq ofpfw_in_port x.in_port y.in_port refl refl)
                            (eq ofpfw_dl_vlan x.dl_vlan y.dl_vlan refl refl))
                          (eq ofpfw_dl_vlan_pcp x.dl_vlan_pcp y.dl_vlan_pcp refl refl))
                        (mac ofpfw_dl_src x.dl_src y.dl_src refl refl))
                      (mac ofpfw_dl_dst x.dl_dst y.dl_dst refl refl))
                    (eq ofpfw_dl_type x.dl_type y.dl_type refl refl))
                  (same_under_full x.nw_src y.nw_src sx.0 sy.0))
                (same_under_full x.nw_dst y.nw_dst sx.1 sy.1))
              (eq ofpfw_nw_tos x.nw_tos y.nw_tos refl refl))
            (eq ofpfw_nw_proto x.nw_proto y.nw_proto refl refl))
          (eq ofpfw_tp_src x.tp_src y.tp_src refl refl))
        (eq ofpfw_tp_dst x.tp_dst y.tp_dst refl refl) h in
    cc (
      in_port, dl_vlan, dl_vlan_pcp, dl_src, dl_dst, dl_type, nw_src, nw_dst, nw_tos, nw_proto,
      tp_src, tp_dst,
    )

canon-full :
    (x y : Match)
    → bit_and x.wildcards ofpfw_all ≡ 0
    → canon x y ≡ compare_fields x.wildcards 0xffffffff 0xffffffff x y
canon-full x y full = rw (src_mask_full x.wildcards full, dst_mask_full x.wildcards full)

-- Two exact matches with addresses of 32 bits that compare strictly equal agree in every field but
-- the wildcards.
pub exact-strict-eq :
    (x y : Match)
    → exact_match x ≡ true
    → IsShort x
    → IsShort y
    → compare_match_strict x y ≡ true
    → record x { wildcards = 0 } ≡ record y { wildcards = 0 }
unfolding exact_match compare_fields
exact-strict-eq x y exact sx sy h =
    let full = (==_iff _ 0).0 exact in
    let (s, c) = strict_split x y h in
    ap (λ (m : Match). record m { wildcards = 0 })
      (fields_full x.wildcards x y full sx sy (sym (canon-full x y full) ∙ c))

hash-wildcards :
    (x : Match) → hash_exact_match_entry (record x { wildcards = 0 }) ≡ hash_exact_match_entry x
unfolding hash_exact_match_entry
hash-wildcards x = refl

-- an exact match with addresses of 32 bits
abbrev pub is_key : Match → Bool
is_key m = exact_match m && ltb m.nw_src (2 ^ 32) && ltb m.nw_dst (2 ^ 32)

pub is_key-exact : (m : Match) → is_key m ≡ true → exact_match m ≡ true
is_key-exact m h = ground arith

pub is_key-IsShort : (m : Match) → is_key m ≡ true → IsShort m
is_key-IsShort m h = (ground arith, ground arith)

pub hash-compare_match_strict :
    (x y : Match)
    → is_key x ≡ true
    → is_key y ≡ true
    → compare_match_strict x y ≡ true
    → hash_exact_match_entry x ≡ hash_exact_match_entry y
hash-compare_match_strict x y kx ky h =
    sym (hash-wildcards x)
    ∙ ap hash_exact_match_entry
        (exact-strict-eq x y (is_key-exact x kx) (is_key-IsShort x kx) (is_key-IsShort y ky) h)
    ∙ hash-wildcards y

-- the key of the exact table
instance abbrev pub match_key : Key Match
match_key = record {
  compare = compare_match_strict;
  hash = hash_exact_match_entry;
  legal = is_key;
  compare_refl = compare_match_strict_refl;
  compare_symm = compare_match_strict_symm;
  compare_trans = compare_match_strict_trans;
  hash-compare = hash-compare_match_strict;
}
