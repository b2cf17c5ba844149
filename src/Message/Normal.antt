-- ===== src/Message/Normal.antt =====
-- src/lib/openflow_message.c: what a normalized match satisfies.
use trema.Base.{ℕ, ◌≡◌, ◌≢◌, ◌∙◌, refl, sym, ap, none, bit_and, arith}
use trema.OpenFlow.{Match, ofpfw_tp_src, ofpfw_tp_dst, ofpfw_dl_vlan_pcp, ofpfw_nw_tos}
use trema.Actions.{or_next, validate_vlan_pcp, validate_nw_tos}
use trema.Message.{has_other_bits}
use trema.Message.Flows.{validate_wildcards, validate_match}
use trema.Message.Clean.{Clean, masked_off, same-Clean, network, network-Clean}
use trema.Message.Normalize.{
  normalize_tp_src, normalize_tp_dst, normalize_dl_vlan_pcp, normalize_nw_tos, normalize_match,
}

-- What the last four parts keep and establish.
record Last (m n : Match) : Type 0 where
  wildcards : n.wildcards ≡ m.wildcards
  dl_vlan : n.dl_vlan ≡ m.dl_vlan
  tp_src : bit_and m.wildcards ofpfw_tp_src ≢ 0 → n.tp_src ≡ 0
  tp_dst : bit_and m.wildcards ofpfw_tp_dst ≢ 0 → n.tp_dst ≡ 0
  dl_vlan_pcp : bit_and m.wildcards ofpfw_dl_vlan_pcp ≢ 0 → n.dl_vlan_pcp ≡ 0
  nw_tos : bit_and m.wildcards ofpfw_nw_tos ≢ 0 → n.nw_tos ≡ 0
  valid_pcp : validate_vlan_pcp n.dl_vlan_pcp ≡ none
  valid_tos : validate_nw_tos n.nw_tos ≡ none

abbrev Same : Match → Match → Type 0
Same m n = (n.wildcards ≡ m.wildcards) × (n.dl_vlan ≡ m.dl_vlan)

tp_src-step :
    (m : Match)
    → let n = normalize_tp_src m in Same m n × (bit_and m.wildcards ofpfw_tp_src ≢ 0 → n.tp_src ≡ 0)
unfolding normalize_tp_src
tp_src-step m = ground arith

tp_dst-step :
    (m : Match)
    → let n = normalize_tp_dst m in
      Same m n × (n.tp_src ≡ m.tp_src) × (bit_and m.wildcards ofpfw_tp_dst ≢ 0 → n.tp_dst ≡ 0)
unfolding normalize_tp_dst
tp_dst-step m = ground arith

dl_vlan_pcp-step :
    (m : Match)
    → let n = normalize_dl_vlan_pcp m in
      Same m n
      × (n.tp_src ≡ m.tp_src)
      × (n.tp_dst ≡ m.tp_dst)
      × (bit_and m.wildcards ofpfw_dl_vlan_pcp ≢ 0 → n.dl_vlan_pcp ≡ 0)
      × (validate_vlan_pcp n.dl_vlan_pcp ≡ none)
unfolding normalize_dl_vlan_pcp validate_vlan_pcp
dl_vlan_pcp-step m = ground (arith, masked_off m.dl_vlan_pcp 0x07 0xf8 refl)

nw_tos-step :
    (m : Match)
    → let n = normalize_nw_tos m in
      Same m n
      × (n.tp_src ≡ m.tp_src)
      × (n.tp_dst ≡ m.tp_dst)
      × (n.dl_vlan_pcp ≡ m.dl_vlan_pcp)
      × (bit_and m.wildcards ofpfw_nw_tos ≢ 0 → n.nw_tos ≡ 0)
      × (validate_nw_tos n.nw_tos ≡ none)
unfolding normalize_nw_tos validate_nw_tos
nw_tos-step m = ground (arith, masked_off m.nw_tos 0xfc 0x03 refl)

moved_bits : (k : ℕ) {a b : ℕ} → b ≡ a → bit_and a k ≢ 0 → bit_and b k ≢ 0
moved_bits k e n z = n (ap (λ x. bit_and x k) (sym e) ∙ z)

final_parts-Last :
    (m : Match)
    → Last m (normalize_nw_tos (normalize_dl_vlan_pcp (normalize_tp_dst (normalize_tp_src m))))
final_parts-Last m =
    let m1 = normalize_tp_src m in
    let m2 = normalize_tp_dst m1 in
    let m3 = normalize_dl_vlan_pcp m2 in
    let (s1, src) = tp_src-step m in
    let (s2, src2, dst) = tp_dst-step m1 in
    let (s3, src3, dst3, pcp, valid3) = dl_vlan_pcp-step m2 in
    let (s4, src4, dst4, pcp4, tos, valid4) = nw_tos-step m3 in
    record {
      wildcards = s4.0 ∙ s3.0 ∙ s2.0 ∙ s1.0;
      dl_vlan = s4.1 ∙ s3.1 ∙ s2.1 ∙ s1.1;
      tp_src = λ n. src4 ∙ src3 ∙ src2 ∙ src n;
      tp_dst = λ n. dst4 ∙ dst3 ∙ dst (moved_bits ofpfw_tp_dst s1.0 n);
      dl_vlan_pcp = λ n. pcp4 ∙ pcp (moved_bits ofpfw_dl_vlan_pcp (s2.0 ∙ s1.0) n);
      nw_tos = λ n. tos (moved_bits ofpfw_nw_tos (s3.0 ∙ s2.0 ∙ s1.0) n);
      valid_pcp = ap validate_vlan_pcp pcp4 ∙ valid3;
      valid_tos = valid4;
    }

Clean-valid :
    (n : Match)
    → Clean n
    → validate_vlan_pcp n.dl_vlan_pcp ≡ none
    → validate_nw_tos n.nw_tos ≡ none
    → validate_match n ≡ none
unfolding validate_match validate_wildcards has_other_bits or_next
Clean-valid n c p t = rw (c.wildcards, c.dl_vlan, p, t)

-- `normalize_match` makes a match that `validate_match` accepts, and whose ports of the transport
-- layer, VLAN priority and type of service are 0 where its wildcards ignore them.
pub normalize_match-valid :
    (m : Match)
    → let n = normalize_match m in
      (validate_match n ≡ none)
      × (bit_and n.wildcards ofpfw_tp_src ≢ 0 → n.tp_src ≡ 0)
      × (bit_and n.wildcards ofpfw_tp_dst ≢ 0 → n.tp_dst ≡ 0)
      × (bit_and n.wildcards ofpfw_dl_vlan_pcp ≢ 0 → n.dl_vlan_pcp ≡ 0)
      × (bit_and n.wildcards ofpfw_nw_tos ≢ 0 → n.nw_tos ≡ 0)
unfolding normalize_match
normalize_match-valid m =
    let last = final_parts-Last (network m) in
    (
      Clean-valid (normalize_match m)
          (same-Clean (network m) _ last.wildcards last.dl_vlan (network-Clean m)) last.valid_pcp
          last.valid_tos,
      λ n. last.tp_src (moved_bits ofpfw_tp_src (sym last.wildcards) n),
      λ n. last.tp_dst (moved_bits ofpfw_tp_dst (sym last.wildcards) n),
      λ n. last.dl_vlan_pcp (moved_bits ofpfw_dl_vlan_pcp (sym last.wildcards) n),
      λ n. last.nw_tos (moved_bits ofpfw_nw_tos (sym last.wildcards) n),
    )
