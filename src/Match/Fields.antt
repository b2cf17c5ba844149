-- ===== src/Match/Fields.antt =====
-- src/lib/match.h: the comparison of fields under one set of wildcards is an equivalence.
use trema.Base.{
  ℕ, ◌/◌, ◌^◌, ◌≡◌, ◌∙◌, refl, sym, ap, Bool, true, ◌&&◌, ◌==◌, arith, bit_and, bit_or, ==_refl,
  ==_symm, ==_trans,
}
use trema.Bits.{or_masked, xor_masked, and_submask}
use trema.Match.{
  compare_mac, prefix_mask, create_nw_src_mask, create_nw_dst_mask, wild_or, same_under,
  compare_fields, compare_match,
}
use trema.OpenFlow.{
  Mac, Match, ofpfw_in_port, ofpfw_dl_vlan, ofpfw_dl_src, ofpfw_dl_dst, ofpfw_dl_type,
  ofpfw_nw_proto, ofpfw_tp_src, ofpfw_tp_dst, ofpfw_nw_src_mask, ofpfw_nw_dst_mask,
  ofpfw_dl_vlan_pcp, ofpfw_nw_tos, ofpfw_all,
}

-- matches with the same wildcards
abbrev pub SameWild : Match → Match → Type 0
SameWild x y = bit_and x.wildcards ofpfw_all ≡ bit_and y.wildcards ofpfw_all

module _ (x y : Match) (same : SameWild x y) where
  flag_same :
      (flag : ℕ)
      → bit_and ofpfw_all flag ≡ flag
      → bit_and x.wildcards flag ≡ bit_and y.wildcards flag
  flag_same flag sub = and_submask x.wildcards y.wildcards ofpfw_all flag sub same

  wild_or-same :
      (flag : ℕ) (e : Bool)
      → bit_and ofpfw_all flag ≡ flag
      → wild_or (bit_or x.wildcards y.wildcards) flag e ≡ wild_or x.wildcards flag e
  unfolding wild_or
  wild_or-same flag e sub =
      ground (arith, or_masked x.wildcards y.wildcards flag, flag_same flag sub)

  src_mask_same : create_nw_src_mask x.wildcards ≡ create_nw_src_mask y.wildcards
  unfolding create_nw_src_mask
  src_mask_same = ap (λ w. prefix_mask (w / 2 ^ 8)) (flag_same ofpfw_nw_src_mask refl)

  dst_mask_same : create_nw_dst_mask x.wildcards ≡ create_nw_dst_mask y.wildcards
  unfolding create_nw_dst_mask
  dst_mask_same = ap (λ w. prefix_mask (w / 2 ^ 14)) (flag_same ofpfw_nw_dst_mask refl)

  wild_or-other :
      (flag : ℕ) (e : Bool)
      → bit_and ofpfw_all flag ≡ flag
      → wild_or x.wildcards flag e ≡ wild_or y.wildcards flag e
  unfolding wild_or
  wild_or-other flag e sub = ground (arith, flag_same flag sub)

-- the comparison by the wildcards of the first match alone
abbrev pub canon : Match → Match → Bool
canon x y =
    compare_fields x.wildcards
      (bit_and (create_nw_src_mask x.wildcards) (create_nw_src_mask x.wildcards))
      (bit_and (create_nw_dst_mask x.wildcards) (create_nw_dst_mask x.wildcards)) x y

pub compare_match-canon : (x y : Match) → SameWild x y → compare_match x y ≡ canon x y
unfolding compare_match compare_fields
compare_match-canon x y same =
    let w = wild_or-same x y same in
    cc (
      w ofpfw_in_port (x.in_port == y.in_port) refl,
      w ofpfw_dl_vlan (x.dl_vlan == y.dl_vlan) refl,
      w ofpfw_dl_vlan_pcp (x.dl_vlan_pcp == y.dl_vlan_pcp) refl,
      w ofpfw_dl_src (compare_mac x.dl_src y.dl_src) refl,
      w ofpfw_dl_dst (compare_mac x.dl_dst y.dl_dst) refl,
      w ofpfw_dl_type (x.dl_type == y.dl_type) refl,
      w ofpfw_nw_tos (x.nw_tos == y.nw_tos) refl,
      w ofpfw_nw_proto (x.nw_proto == y.nw_proto) refl,
      w ofpfw_tp_src (x.tp_src == y.tp_src) refl,
      w ofpfw_tp_dst (x.tp_dst == y.tp_dst) refl,
      src_mask_same x y same,
      dst_mask_same x y same,
    )

pub compare_mac_refl : (x : Mac) → compare_mac x x ≡ true
unfolding compare_mac
compare_mac_refl x = ground arith

compare_mac_symm : (x y : Mac) → compare_mac x y ≡ compare_mac y x
unfolding compare_mac
compare_mac_symm x y = cc (
  ==_symm x.b₀ y.b₀,
  ==_symm x.b₁ y.b₁,
  ==_symm x.b₂ y.b₂,
  ==_symm x.b₃ y.b₃,
  ==_symm x.b₄ y.b₄,
  ==_symm x.b₅ y.b₅,
)

pub compare_mac→eq : (x y : Mac) → compare_mac x y ≡ true → x ≡ y
unfolding compare_mac
compare_mac→eq x y h = ground arith

compare_mac_trans :
    (x y z : Mac) → compare_mac x y ≡ true → compare_mac y z ≡ true → compare_mac x z ≡ true
compare_mac_trans x y z p q = rw (compare_mac→eq x y p) q

same_under_symm : (m a b : ℕ) → same_under m a b ≡ same_under m b a
unfolding same_under
same_under_symm m a b = ground (arith, xor_masked a b m, xor_masked b a m)

pub same_under_refl : (m a : ℕ) → same_under m a a ≡ true
unfolding same_under
same_under_refl m a = ground (arith, xor_masked a a m)

same_under_trans :
    (m a b c : ℕ) → same_under m a b ≡ true → same_under m b c ≡ true → same_under m a c ≡ true
unfolding same_under
same_under_trans m a b c p q = ground (arith, xor_masked a b m, xor_masked b c m, xor_masked a c m)

wild_or-true : (w flag : ℕ) (e : Bool) → e ≡ true → wild_or w flag e ≡ true
unfolding wild_or
wild_or-true w flag e h = ground arith

wild_or_trans :
    (w flag : ℕ) (e f g : Bool)
    → (e ≡ true → f ≡ true → g ≡ true)
    → wild_or w flag e ≡ true
    → wild_or w flag f ≡ true
    → wild_or w flag g ≡ true
unfolding wild_or
wild_or_trans w flag e f g h p q = ground arith

pub canon_refl : (x : Match) → canon x x ≡ true
unfolding compare_fields
canon_refl x =
    let w = λ (flag : ℕ) (e : Bool) (h : e ≡ true). wild_or-true x.wildcards flag e h in
    cc (
      w ofpfw_in_port (x.in_port == x.in_port) (==_refl x.in_port),
      w ofpfw_dl_vlan (x.dl_vlan == x.dl_vlan) (==_refl x.dl_vlan),
      w ofpfw_dl_vlan_pcp (x.dl_vlan_pcp == x.dl_vlan_pcp) (==_refl x.dl_vlan_pcp),
      w ofpfw_dl_src (compare_mac x.dl_src x.dl_src) (compare_mac_refl x.dl_src),
      w ofpfw_dl_dst (compare_mac x.dl_dst x.dl_dst) (compare_mac_refl x.dl_dst),
      w ofpfw_dl_type (x.dl_type == x.dl_type) (==_refl x.dl_type),
      w ofpfw_nw_tos (x.nw_tos == x.nw_tos) (==_refl x.nw_tos),
      w ofpfw_nw_proto (x.nw_proto == x.nw_proto) (==_refl x.nw_proto),
      w ofpfw_tp_src (x.tp_src == x.tp_src) (==_refl x.tp_src),
      w ofpfw_tp_dst (x.tp_dst == x.tp_dst) (==_refl x.tp_dst),
      same_under_refl (bit_and (create_nw_src_mask x.wildcards) (create_nw_src_mask x.wildcards))
          x.nw_src,
      same_under_refl (bit_and (create_nw_dst_mask x.wildcards) (create_nw_dst_mask x.wildcards))
          x.nw_dst,
    )

pub canon_symm : (x y : Match) → SameWild x y → canon x y ≡ canon y x
unfolding compare_fields
canon_symm x y same =
    let w = wild_or-other x y same in
    cc (
      w ofpfw_in_port (x.in_port == y.in_port) refl,
      w ofpfw_dl_vlan (x.dl_vlan == y.dl_vlan) refl,
      w ofpfw_dl_vlan_pcp (x.dl_vlan_pcp == y.dl_vlan_pcp) refl,
      w ofpfw_dl_src (compare_mac x.dl_src y.dl_src) refl,
      w ofpfw_dl_dst (compare_mac x.dl_dst y.dl_dst) refl,
      w ofpfw_dl_type (x.dl_type == y.dl_type) refl,
      w ofpfw_nw_tos (x.nw_tos == y.nw_tos) refl,
      w ofpfw_nw_proto (x.nw_proto == y.nw_proto) refl,
      w ofpfw_tp_src (x.tp_src == y.tp_src) refl,
      w ofpfw_tp_dst (x.tp_dst == y.tp_dst) refl,
      src_mask_same x y same,
      dst_mask_same x y same,
      ==_symm x.in_port y.in_port,
      ==_symm x.dl_vlan y.dl_vlan,
      ==_symm x.dl_vlan_pcp y.dl_vlan_pcp,
      compare_mac_symm x.dl_src y.dl_src,
      compare_mac_symm x.dl_dst y.dl_dst,
      ==_symm x.dl_type y.dl_type,
      ==_symm x.nw_tos y.nw_tos,
      ==_symm x.nw_proto y.nw_proto,
      ==_symm x.tp_src y.tp_src,
      ==_symm x.tp_dst y.tp_dst,
      same_under_symm (bit_and (create_nw_src_mask x.wildcards) (create_nw_src_mask x.wildcards))
          x.nw_src y.nw_src,
      same_under_symm (bit_and (create_nw_dst_mask x.wildcards) (create_nw_dst_mask x.wildcards))
          x.nw_dst y.nw_dst,
    )

-- truth of two conjunctions passes to a third, conjunct by conjunct
and_zip :
    {a b c a' b' c' : Bool}
    → (a ≡ true → b ≡ true → c ≡ true)
    → (a' ≡ true → b' ≡ true → c' ≡ true)
    → (a && a') ≡ true
    → (b && b') ≡ true
    → (c && c') ≡ true
and_zip {a} {b} {c} {a'} {b'} {c'} f g p q = ground arith

fields_trans :
    (w sm dm : ℕ) (x y z : Match)
    → compare_fields w sm dm x y ≡ true
    → compare_fields w sm dm y z ≡ true
    → compare_fields w sm dm x z ≡ true
unfolding compare_fields
fields_trans w sm dm x y z =
    let eq = λ (flag a b c : ℕ). wild_or_trans w flag (a == b) (b == c) (a == c) (==_trans a b c) in
    let mac = λ (flag : ℕ) (a b c : Mac).
      wild_or_trans w flag (compare_mac a b) (compare_mac b c) (compare_mac a c)
        (compare_mac_trans a b c) in
    and_zip
      (and_zip
        (and_zip
          (and_zip
            (and_zip
              (and_zip
                (and_zip
                  (and_zip
                    (and_zip
                      (and_zip
                        (and_zip (eq ofpfw_in_port x.in_port y.in_port z.in_port)
                          (eq ofpfw_dl_vlan x.dl_vlan y.dl_vlan z.dl_vlan))
                        (eq ofpfw_dl_vlan_pcp x.dl_vlan_pcp y.dl_vlan_pcp z.dl_vlan_pcp))
                      (mac ofpfw_dl_src x.dl_src y.dl_src z.dl_src))
                    (mac ofpfw_dl_dst x.dl_dst y.dl_dst z.dl_dst))
                  (eq ofpfw_dl_type x.dl_type y.dl_type z.dl_type))
                (same_under_trans sm x.nw_src y.nw_src z.nw_src))
              (same_under_trans dm x.nw_dst y.nw_dst z.nw_dst))
            (eq ofpfw_nw_tos x.nw_tos y.nw_tos z.nw_tos))
          (eq ofpfw_nw_proto x.nw_proto y.nw_proto z.nw_proto))
        (eq ofpfw_tp_src x.tp_src y.tp_src z.tp_src))
      (eq ofpfw_tp_dst x.tp_dst y.tp_dst z.tp_dst)

-- `canon` reads the wildcards only up to `SameWild`.
canon_other :
    (x y z : Match)
    → SameWild x y
    → canon y z
      ≡ compare_fields x.wildcards
          (bit_and (create_nw_src_mask x.wildcards) (create_nw_src_mask x.wildcards))
          (bit_and (create_nw_dst_mask x.wildcards) (create_nw_dst_mask x.wildcards))
          y
          z
unfolding compare_fields
canon_other x y z same =
    let w = wild_or-other x y same in
    cc (
      w ofpfw_in_port (y.in_port == z.in_port) refl,
      w ofpfw_dl_vlan (y.dl_vlan == z.dl_vlan) refl,
      w ofpfw_dl_vlan_pcp (y.dl_vlan_pcp == z.dl_vlan_pcp) refl,
      w ofpfw_dl_src (compare_mac y.dl_src z.dl_src) refl,
      w ofpfw_dl_dst (compare_mac y.dl_dst z.dl_dst) refl,
      w ofpfw_dl_type (y.dl_type == z.dl_type) refl,
      w ofpfw_nw_tos (y.nw_tos == z.nw_tos) refl,
      w ofpfw_nw_proto (y.nw_proto == z.nw_proto) refl,
      w ofpfw_tp_src (y.tp_src == z.tp_src) refl,
      w ofpfw_tp_dst (y.tp_dst == z.tp_dst) refl,
      src_mask_same x y same,
      dst_mask_same x y same,
    )

pub canon_trans :
    (x y z : Match) → SameWild x y → canon x y ≡ true → canon y z ≡ true → canon x z ≡ true
canon_trans x y z same p q =
    fields_trans x.wildcards
      (bit_and (create_nw_src_mask x.wildcards) (create_nw_src_mask x.wildcards))
      (bit_and (create_nw_dst_mask x.wildcards) (create_nw_dst_mask x.wildcards)) x y z p
      (sym (canon_other x y z same) ∙ q)
