-- ===== src/Match.antt =====
-- src/lib/match.h and the comparisons and the hash of src/lib/match_table.c. A `uint16_t` of two
-- address bytes is equal to another when both bytes are.
pub mod Fields
pub mod Strict
use trema.Base.{
  ℕ, ◌*◌, ◌/◌, ◌-◌, ◌%◌, ◌^◌, Bool, true, false, not, ◌&&◌, ◌||◌, ◌==◌, leb, ltb, bit_and, bit_or,
  bit_xor, if◌then◌else◌,
}
use trema.OpenFlow.{
  Mac, mac_bytes, Match, ofpfw_in_port, ofpfw_dl_vlan, ofpfw_dl_src, ofpfw_dl_dst, ofpfw_dl_type,
  ofpfw_nw_proto, ofpfw_tp_src, ofpfw_tp_dst, ofpfw_nw_src_mask, ofpfw_nw_dst_mask,
  ofpfw_dl_vlan_pcp, ofpfw_nw_tos, ofpfw_all,
}
use trema.Utility.{hash_mac}

unfoldable pub compare_mac : Mac → Mac → Bool
compare_mac x y =
    ((x.b₀ == y.b₀) && (x.b₁ == y.b₁))
    && ((x.b₂ == y.b₂) && (x.b₃ == y.b₃))
    && ((x.b₄ == y.b₄) && (x.b₅ == y.b₅))

-- `0xffffffff << m` in 32 bits, 0 from 32 on
unfoldable pub prefix_mask : ℕ → ℕ
prefix_mask m = if leb 32 m then 0 else 0xffffffff * 2 ^ m % 2 ^ 32

unfoldable pub create_nw_src_mask : ℕ → ℕ
create_nw_src_mask w = prefix_mask (bit_and w ofpfw_nw_src_mask / 2 ^ 8)

unfoldable pub create_nw_dst_mask : ℕ → ℕ
create_nw_dst_mask w = prefix_mask (bit_and w ofpfw_nw_dst_mask / 2 ^ 14)

-- `w & flag || e`
unfoldable pub wild_or : ℕ → ℕ → Bool → Bool
wild_or w flag e = not (bit_and w flag == 0) || e

-- `!( ( a ^ b ) & mask )`
unfoldable pub same_under : ℕ → ℕ → ℕ → Bool
same_under mask a b = bit_and (bit_xor a b) mask == 0

-- the conjunction that `compare_match` and `compare_filter_match` share
unfoldable pub compare_fields : (w sm dm : ℕ) → Match → Match → Bool
compare_fields w sm dm x y =
    wild_or w ofpfw_in_port (x.in_port == y.in_port)
    && wild_or w ofpfw_dl_vlan (x.dl_vlan == y.dl_vlan)
    && wild_or w ofpfw_dl_vlan_pcp (x.dl_vlan_pcp == y.dl_vlan_pcp)
    && wild_or w ofpfw_dl_src (compare_mac x.dl_src y.dl_src)
    && wild_or w ofpfw_dl_dst (compare_mac x.dl_dst y.dl_dst)
    && wild_or w ofpfw_dl_type (x.dl_type == y.dl_type)
    && same_under sm x.nw_src y.nw_src
    && same_under dm x.nw_dst y.nw_dst
    && wild_or w ofpfw_nw_tos (x.nw_tos == y.nw_tos)
    && wild_or w ofpfw_nw_proto (x.nw_proto == y.nw_proto)
    && wild_or w ofpfw_tp_src (x.tp_src == y.tp_src)
    && wild_or w ofpfw_tp_dst (x.tp_dst == y.tp_dst)

unfoldable pub compare_match : Match → Match → Bool
compare_match x y =
    compare_fields (bit_or x.wildcards y.wildcards)
      (bit_and (create_nw_src_mask x.wildcards) (create_nw_src_mask y.wildcards))
      (bit_and (create_nw_dst_mask x.wildcards) (create_nw_dst_mask y.wildcards)) x y

unfoldable pub compare_match_strict : Match → Match → Bool
compare_match_strict x y =
    bit_and (bit_xor x.wildcards y.wildcards) ofpfw_all == 0 && compare_match x y

unfoldable pub exact_match : Match → Bool
exact_match m = bit_and m.wildcards ofpfw_all == 0

-- `~w` on 32 bits
abbrev pub complement : ℕ → ℕ
complement w = 2 ^ 32 - 1 - w

-- without the two fields of address mask lengths
abbrev pub flags_of : ℕ → ℕ
flags_of w = bit_and (bit_and w ofpfw_all) (complement (bit_or ofpfw_nw_src_mask ofpfw_nw_dst_mask))

unfoldable pub compare_filter_match : Match → Match → Bool
compare_filter_match x y =
    let sm_x = create_nw_src_mask (bit_and x.wildcards ofpfw_all) in
    let dm_x = create_nw_dst_mask (bit_and x.wildcards ofpfw_all) in
    let sm_y = create_nw_src_mask (bit_and y.wildcards ofpfw_all) in
    let dm_y = create_nw_dst_mask (bit_and y.wildcards ofpfw_all) in
    let w_x = flags_of x.wildcards in
    let w_y = flags_of y.wildcards in
    if not (bit_and (complement w_x) w_y == 0)
    then false
    else if ltb sm_y sm_x
    then false
    else if ltb dm_y dm_x
    then false
    else compare_fields w_x sm_x dm_x x y

-- Each shift is made in an `int` and cast to 32 bits.
unfoldable pub hash_exact_match_entry : Match → ℕ
hash_exact_match_entry m =
    let dl_vlan = if m.dl_vlan == 0xffff then m.dl_vlan else bit_and m.dl_vlan 0x0fff in
    let dl_vlan_pcp = bit_and m.dl_vlan_pcp 0x07 in
    let nw_tos = bit_and m.nw_tos 0x3f in
    let hash = bit_xor 0 (m.in_port * 2 ^ 16 % 2 ^ 32) in
    let hash = bit_xor hash (hash_mac (mac_bytes m.dl_src)) in
    let hash = bit_xor hash (hash_mac (mac_bytes m.dl_dst)) in
    let hash = bit_xor hash dl_vlan in
    let hash = bit_xor hash (dl_vlan_pcp * 2 ^ 24 % 2 ^ 32) in
    let hash = bit_xor hash (m.dl_type * 2 ^ 8 % 2 ^ 32) in
    let hash = bit_xor hash nw_tos in
    let hash = bit_xor hash (m.nw_proto * 2 ^ 24 % 2 ^ 32) in
    let hash = bit_xor hash m.nw_src in
    let hash = bit_xor hash m.nw_dst in
    let hash = bit_xor hash (m.tp_src * 2 ^ 16 % 2 ^ 32) in bit_xor hash m.tp_dst
