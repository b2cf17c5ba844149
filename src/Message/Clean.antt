-- ===== src/Message/Clean.antt =====
-- src/lib/openflow_message.c: the wildcards and the VLAN id in the parts of `normalize_match`.
use trema.Base.{
  ℕ, ◌*◌, ◌-◌, ◌^◌, ◌≡◌, ◌∙◌, refl, ap, Bool, true, false, none, if◌then◌else◌, bit_and, bit_or,
  arith,
}
use trema.Bits.{and-zero, and_assoc, or_masked}
use trema.OpenFlow.{
  Match, ofpfw_nw_src_mask, ofpfw_nw_dst_mask, ofpfw_nw_proto, ofpfw_tp_src, ofpfw_tp_dst,
  ofpfw_dl_vlan_pcp, ofpfw_nw_tos, ofpfw_all,
}
use trema.Actions.{validate_vlan_vid}
use trema.Message.Normalize.{
  add_wildcards, normalize_wildcards, normalize_in_port, normalize_dl_vlan, normalize_dl_src,
  normalize_dl_dst, clear_ports, clear_network, normalize_dl_type, mask_arp_op, normalize_nw_proto,
  normalize_nw_src, normalize_nw_dst,
}

-- The wildcards have no bits but those of OFPFW_ALL, and the VLAN id is one.
pub record Clean (m : Match) : Type 0 where
  pub wildcards : bit_and m.wildcards (2 ^ 32 - 1 - ofpfw_all) ≡ 0
  pub dl_vlan : validate_vlan_vid m.dl_vlan ≡ none

pub masked_off : (x a b : ℕ) → bit_and a b ≡ 0 → bit_and (bit_and x a) b ≡ 0
masked_off x a b e = and_assoc x a b ∙ ap (bit_and x) e ∙ and-zero x

wildcards-bits :
    (m : Match) → bit_and (normalize_wildcards m).wildcards (2 ^ 32 - 1 - ofpfw_all) ≡ 0
unfolding normalize_wildcards
wildcards-bits m = masked_off m.wildcards ofpfw_all (2 ^ 32 - 1 - ofpfw_all) refl

in_port-bits :
    (m : Match)
    → bit_and m.wildcards (2 ^ 32 - 1 - ofpfw_all) ≡ 0
    → bit_and (normalize_in_port m).wildcards (2 ^ 32 - 1 - ofpfw_all) ≡ 0
unfolding normalize_in_port
in_port-bits m h = ground arith

or_clean :
    (a b : ℕ)
    → bit_and a (2 ^ 32 - 1 - ofpfw_all) ≡ 0
    → bit_and b (2 ^ 32 - 1 - ofpfw_all) ≡ 0
    → bit_and (bit_or a b) (2 ^ 32 - 1 - ofpfw_all) ≡ 0
or_clean a b p q = (or_masked a b (2 ^ 32 - 1 - ofpfw_all)).1 (p, q)

dl_vlan-Clean :
    (m : Match) → bit_and m.wildcards (2 ^ 32 - 1 - ofpfw_all) ≡ 0 → Clean (normalize_dl_vlan m)
unfolding normalize_dl_vlan validate_vlan_vid
dl_vlan-Clean m h =
    ground
      (arith, or_clean m.wildcards ofpfw_dl_vlan_pcp h refl, masked_off m.dl_vlan 0xfff 0xf000 refl)

dl_src-Clean : (m : Match) → Clean m → Clean (normalize_dl_src m)
unfolding normalize_dl_src
dl_src-Clean m c = ground arith

dl_dst-Clean : (m : Match) → Clean m → Clean (normalize_dl_dst m)
unfolding normalize_dl_dst
dl_dst-Clean m c = ground arith

-- More wildcards of OFPFW_ALL, with other fields than the VLAN id changed.
add-Clean :
    (m n : Match) (bits : ℕ)
    → bit_and bits (2 ^ 32 - 1 - ofpfw_all) ≡ 0
    → n.wildcards ≡ bit_or m.wildcards bits
    → n.dl_vlan ≡ m.dl_vlan
    → Clean m
    → Clean n
add-Clean m n bits e w v c = record {
  wildcards =
      ap (λ x. bit_and x (2 ^ 32 - 1 - ofpfw_all)) w ∙ or_clean m.wildcards bits c.wildcards e;
  dl_vlan = ap validate_vlan_vid v ∙ c.dl_vlan;
}

pub same-Clean :
    (m n : Match) → n.wildcards ≡ m.wildcards → n.dl_vlan ≡ m.dl_vlan → Clean m → Clean n
same-Clean m n w v c = record {
  wildcards = ap (λ x. bit_and x (2 ^ 32 - 1 - ofpfw_all)) w ∙ c.wildcards;
  dl_vlan = ap validate_vlan_vid v ∙ c.dl_vlan;
}

wild-Clean :
    (m : Match) (bits : ℕ)
    → bit_and bits (2 ^ 32 - 1 - ofpfw_all) ≡ 0
    → Clean m
    → Clean (add_wildcards m bits)
wild-Clean m bits e = add-Clean m (add_wildcards m bits) bits e refl refl

clear_ports-Clean : (m : Match) → Clean m → Clean (clear_ports m)
unfolding clear_ports
clear_ports-Clean m c =
    let n = add_wildcards (add_wildcards m ofpfw_tp_src) ofpfw_tp_dst in
    same-Clean n (clear_ports m) refl refl
      (wild-Clean _ ofpfw_tp_dst refl (wild-Clean m ofpfw_tp_src refl c))

clear_network-Clean : (m : Match) → Clean m → Clean (clear_network m)
unfolding clear_network
clear_network-Clean m c = same-Clean _ (clear_network m) refl refl (
    clear_ports-Clean _ (
      wild-Clean _ ofpfw_nw_dst_mask refl (
        wild-Clean _ ofpfw_nw_src_mask refl
          (wild-Clean _ ofpfw_nw_proto refl (wild-Clean m ofpfw_nw_tos refl c)))))

if-Clean : (b : Bool) (m n : Match) → Clean m → Clean n → Clean (if b then m else n)
if-Clean true m n c d = c
if-Clean false m n c d = d

dl_type-Clean : (m : Match) → Clean m → Clean (normalize_dl_type m)
unfolding normalize_dl_type
dl_type-Clean m c =
    if-Clean _ _ _ (same-Clean (clear_network m) _ refl refl (clear_network-Clean m c)) (
      if-Clean _ _ _
        (same-Clean (clear_ports (add_wildcards m ofpfw_nw_tos)) _ refl refl
          (clear_ports-Clean _ (wild-Clean m ofpfw_nw_tos refl c)))
        (if-Clean _ _ _ (clear_network-Clean m c) c))

mask_arp_op-Clean : (m : Match) → Clean m → Clean (mask_arp_op m)
unfolding mask_arp_op
mask_arp_op-Clean m c = if-Clean _ _ _ (same-Clean m _ refl refl c) c

nw_proto-Clean : (m : Match) → Clean m → Clean (normalize_nw_proto m)
unfolding normalize_nw_proto
nw_proto-Clean m c =
    let zeroed = same-Clean m (record m { nw_proto = 0 }) refl refl c in
    if-Clean _ _ _ (if-Clean _ _ _ (clear_ports-Clean _ zeroed) zeroed)
      (if-Clean _ _ _ (clear_ports-Clean _ (mask_arp_op-Clean m c)) (mask_arp_op-Clean m c))

masked-Clean :
    (m n : Match) (mask bits : ℕ)
    → bit_and mask (2 ^ 32 - 1 - ofpfw_all) ≡ 2 ^ 32 - 1 - ofpfw_all
    → bit_and bits (2 ^ 32 - 1 - ofpfw_all) ≡ 0
    → n.wildcards ≡ bit_or (bit_and m.wildcards mask) bits
    → n.dl_vlan ≡ m.dl_vlan
    → Clean m
    → Clean n
masked-Clean m n mask bits k e w v c = record {
  wildcards =
      ap (λ x. bit_and x (2 ^ 32 - 1 - ofpfw_all)) w
      ∙ or_clean (bit_and m.wildcards mask) bits
          (and_assoc m.wildcards mask (2 ^ 32 - 1 - ofpfw_all)
            ∙ ap (bit_and m.wildcards) k
            ∙ c.wildcards)
          e;
  dl_vlan = ap validate_vlan_vid v ∙ c.dl_vlan;
}

nw_src-Clean : (m : Match) → Clean m → Clean (normalize_nw_src m)
unfolding normalize_nw_src
nw_src-Clean m c =
    if-Clean _ _ _
      (masked-Clean m _ (2 ^ 32 - 1 - ofpfw_nw_src_mask) (32 * 2 ^ 8) refl refl refl refl c)
      (same-Clean m _ refl refl c)

nw_dst-Clean : (m : Match) → Clean m → Clean (normalize_nw_dst m)
unfolding normalize_nw_dst
nw_dst-Clean m c =
    if-Clean _ _ _
      (masked-Clean m _ (2 ^ 32 - 1 - ofpfw_nw_dst_mask) (32 * 2 ^ 14) refl refl refl refl c)
      (same-Clean m _ refl refl c)

abbrev pub network : Match → Match
network m = normalize_nw_dst (
    normalize_nw_src (
      normalize_nw_proto (
        normalize_dl_type (
          normalize_dl_dst
            (normalize_dl_src (normalize_dl_vlan (normalize_in_port (normalize_wildcards m))))))))

pub network-Clean : (m : Match) → Clean (network m)
network-Clean m =
    let link = normalize_in_port (normalize_wildcards m) in
    let vlan = normalize_dl_vlan link in
    let addresses = normalize_dl_dst (normalize_dl_src vlan) in
    let proto = normalize_nw_proto (normalize_dl_type addresses) in
    nw_dst-Clean (normalize_nw_src proto) (
      nw_src-Clean proto (
        nw_proto-Clean (normalize_dl_type addresses) (
          dl_type-Clean addresses (
            dl_dst-Clean (normalize_dl_src vlan) (
              dl_src-Clean vlan
                (dl_vlan-Clean link (in_port-bits (normalize_wildcards m) (wildcards-bits m))))))))
