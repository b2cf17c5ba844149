-- ===== src/Message/Normalize.antt =====
-- src/lib/openflow_message.c: `normalize_match`, one definition for each part of its body, in the
-- order of the body. The padding of the structure is left out.
use trema.Base.{
  ℕ, ◌*◌, ◌-◌, ◌/◌, ◌%◌, ◌^◌, Bool, not, ◌&&◌, ◌==◌, leb, if◌then◌else◌, bit_and, bit_or,
}
use trema.OpenFlow.{
  Mac, Match, ofpfw_in_port, ofpfw_dl_vlan, ofpfw_dl_src, ofpfw_dl_dst, ofpfw_dl_type,
  ofpfw_nw_proto, ofpfw_tp_src, ofpfw_tp_dst, ofpfw_nw_src_mask, ofpfw_nw_dst_mask,
  ofpfw_dl_vlan_pcp, ofpfw_nw_tos, ofpfw_all,
}

abbrev pub eth_ethtype_ipv4 : ℕ
eth_ethtype_ipv4 = 0x0800

abbrev pub eth_ethtype_arp : ℕ
eth_ethtype_arp = 0x0806

abbrev pub ipproto_icmp : ℕ
ipproto_icmp = 1

abbrev pub ipproto_tcp : ℕ
ipproto_tcp = 6

abbrev pub ipproto_udp : ℕ
ipproto_udp = 17

-- `match->wildcards & bit`, as a condition
abbrev pub has_wildcard : Match → ℕ → Bool
has_wildcard m bit = not (bit_and m.wildcards bit == 0)

-- `match->wildcards |= bits`
abbrev pub add_wildcards : Match → ℕ → Match
add_wildcards m bits = record m { wildcards = bit_or m.wildcards bits }

abbrev pub zero_mac : Mac
zero_mac = record { b₀ = 0; b₁ = 0; b₂ = 0; b₃ = 0; b₄ = 0; b₅ = 0 }

unfoldable pub normalize_wildcards : Match → Match
normalize_wildcards m = record m { wildcards = bit_and m.wildcards ofpfw_all }

unfoldable pub normalize_in_port : Match → Match
normalize_in_port m = if has_wildcard m ofpfw_in_port then record m { in_port = 0 } else m

unfoldable pub normalize_dl_vlan : Match → Match
normalize_dl_vlan m =
    if has_wildcard m ofpfw_dl_vlan
    then record m { dl_vlan = 0 }
    else if m.dl_vlan == 0xffff
    then record (add_wildcards m ofpfw_dl_vlan_pcp) { dl_vlan_pcp = 0 }
    else record m { dl_vlan = bit_and m.dl_vlan 0xfff }

unfoldable pub normalize_dl_src : Match → Match
normalize_dl_src m = if has_wildcard m ofpfw_dl_src then record m { dl_src = zero_mac } else m

unfoldable pub normalize_dl_dst : Match → Match
normalize_dl_dst m = if has_wildcard m ofpfw_dl_dst then record m { dl_dst = zero_mac } else m

-- the transport ports as wildcards
unfoldable pub clear_ports : Match → Match
clear_ports m = record (add_wildcards (add_wildcards m ofpfw_tp_src) ofpfw_tp_dst) {
  tp_src = 0;
  tp_dst = 0;
}

-- the fields of the network and transport layers as wildcards
unfoldable pub clear_network : Match → Match
unfolding clear_ports
clear_network m =
    let tos_and_proto = add_wildcards (add_wildcards m ofpfw_nw_tos) ofpfw_nw_proto in
    let addresses =
      add_wildcards (add_wildcards tos_and_proto ofpfw_nw_src_mask) ofpfw_nw_dst_mask in
    record (clear_ports addresses) { nw_tos = 0; nw_proto = 0; nw_src = 0; nw_dst = 0 }

unfoldable pub normalize_dl_type : Match → Match
unfolding clear_network
normalize_dl_type m =
    if has_wildcard m ofpfw_dl_type
    then record (clear_network m) { dl_type = 0 }
    else if m.dl_type == eth_ethtype_arp
    then record (clear_ports (add_wildcards m ofpfw_nw_tos)) { nw_tos = 0 }
    else if not (m.dl_type == eth_ethtype_ipv4)
    then clear_network m
    else m

-- `match->nw_proto &= ARP_OP_MASK`
unfoldable pub mask_arp_op : Match → Match
mask_arp_op m =
    if m.dl_type == eth_ethtype_arp then record m { nw_proto = bit_and m.nw_proto 0xff } else m

unfoldable pub normalize_nw_proto : Match → Match
unfolding mask_arp_op
normalize_nw_proto m =
    if has_wildcard m ofpfw_nw_proto
    then if not (m.dl_type == eth_ethtype_ipv4)
      then clear_ports (record m { nw_proto = 0 })
      else record m { nw_proto = 0 }
    else if m.dl_type == eth_ethtype_ipv4
        && not (m.nw_proto == ipproto_tcp)
        && not (m.nw_proto == ipproto_udp)
        && not (m.nw_proto == ipproto_icmp)
    then clear_ports (mask_arp_op m)
    else mask_arp_op m

-- `0xffffffff << len`, on 32 bits
abbrev pub address_mask : ℕ → ℕ
address_mask len = 0xffffffff * 2 ^ len % 2 ^ 32

unfoldable pub normalize_nw_src : Match → Match
normalize_nw_src m =
    let len = bit_and m.wildcards ofpfw_nw_src_mask / 2 ^ 8 in
    if leb 32 len
    then record m {
      wildcards = bit_or (bit_and m.wildcards (2 ^ 32 - 1 - ofpfw_nw_src_mask)) (32 * 2 ^ 8);
      nw_src = 0;
    }
    else record m { nw_src = bit_and m.nw_src (address_mask len) }

unfoldable pub normalize_nw_dst : Match → Match
normalize_nw_dst m =
    let len = bit_and m.wildcards ofpfw_nw_dst_mask / 2 ^ 14 in
    if leb 32 len
    then record m {
      wildcards = bit_or (bit_and m.wildcards (2 ^ 32 - 1 - ofpfw_nw_dst_mask)) (32 * 2 ^ 14);
      nw_dst = 0;
    }
    else record m { nw_dst = bit_and m.nw_dst (address_mask len) }

unfoldable pub normalize_tp_src : Match → Match
normalize_tp_src m =
    if has_wildcard m ofpfw_tp_src
    then record m { tp_src = 0 }
    else if m.nw_proto == ipproto_icmp
    then record m { tp_src = bit_and m.tp_src 0xff }
    else m

unfoldable pub normalize_tp_dst : Match → Match
normalize_tp_dst m =
    if has_wildcard m ofpfw_tp_dst
    then record m { tp_dst = 0 }
    else if m.nw_proto == ipproto_icmp
    then record m { tp_dst = bit_and m.tp_dst 0xff }
    else m

unfoldable pub normalize_dl_vlan_pcp : Match → Match
normalize_dl_vlan_pcp m =
    if has_wildcard m ofpfw_dl_vlan_pcp
    then record m { dl_vlan_pcp = 0 }
    else record m { dl_vlan_pcp = bit_and m.dl_vlan_pcp 0x07 }

unfoldable pub normalize_nw_tos : Match → Match
normalize_nw_tos m =
    if has_wildcard m ofpfw_nw_tos
    then record m { nw_tos = 0 }
    else record m { nw_tos = bit_and m.nw_tos 0xfc }

unfoldable pub normalize_match : Match → Match
normalize_match m =
    let link =
      normalize_dl_dst
        (normalize_dl_src (normalize_dl_vlan (normalize_in_port (normalize_wildcards m)))) in
    let network =
      normalize_nw_dst (normalize_nw_src (normalize_nw_proto (normalize_dl_type link))) in
    normalize_nw_tos (normalize_dl_vlan_pcp (normalize_tp_dst (normalize_tp_src network)))
