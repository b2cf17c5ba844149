-- ===== src/Message/Flows.antt =====
-- src/lib/openflow_message.c: the messages about flows and packets, and `ntoh_match` of
-- src/lib/byteorder.c.
use trema.Base.{
  ℕ, ◌+◌, ◌-◌, ◌%◌, ◌^◌, not, ◌&&◌, ◌||◌, Option, none, some, ◌==◌, ltb, if◌then◌else◌, bit_and,
}
use trema.OpenFlow.{Mac, Match, ofpfw_all}
use trema.Actions.{
  MessageError, invalid_wildcards, invalid_flow_priority, invalid_flow_removed_reason,
  invalid_flow_mod_flags, undefined_flow_mod_command, byte, ntohs_at, or_next, or_continue,
  return_error, validate_phy_port_no, validate_vlan_vid, validate_vlan_pcp, validate_nw_tos,
  validate_actions,
}
use trema.Message.{
  Message, ntohl_at, behind, uint16_max, has_other_bits, fail_if, header_length, validate_header,
}

unfoldable pub mac_at : (ℕ → ℕ) → ℕ → Mac
mac_at b o = record {
  b₀ = byte b o;
  b₁ = byte b (o + 1);
  b₂ = byte b (o + 2);
  b₃ = byte b (o + 3);
  b₄ = byte b (o + 4);
  b₅ = byte b (o + 5);
}

unfoldable pub ntoh_match : (ℕ → ℕ) → ℕ → Match
unfolding mac_at
ntoh_match b o = record {
  wildcards = ntohl_at b o;
  in_port = ntohs_at b (o + 4);
  dl_src = mac_at b (o + 6);
  dl_dst = mac_at b (o + 12);
  dl_vlan = ntohs_at b (o + 18);
  dl_vlan_pcp = byte b (o + 20);
  dl_type = ntohs_at b (o + 22);
  nw_tos = byte b (o + 24);
  nw_proto = byte b (o + 25);
  nw_src = ntohl_at b (o + 28);
  nw_dst = ntohl_at b (o + 32);
  tp_src = ntohs_at b (o + 36);
  tp_dst = ntohs_at b (o + 38);
}

unfoldable pub validate_wildcards : ℕ → Option MessageError
validate_wildcards wildcards = fail_if (has_other_bits wildcards ofpfw_all) invalid_wildcards

unfoldable pub validate_match : Match → Option MessageError
validate_match m = or_next (validate_wildcards m.wildcards) (
    or_next (validate_vlan_vid m.dl_vlan)
      (or_next (validate_vlan_pcp m.dl_vlan_pcp) (validate_nw_tos m.nw_tos)))

-- a match without wildcards that does not have the highest priority
unfoldable pub validate_priority : Match → ℕ → Option MessageError
validate_priority m priority =
    fail_if (bit_and m.wildcards ofpfw_all == 0 && not (priority == 0xffff)) invalid_flow_priority

unfoldable pub validate_flow_removed : Message → Option MessageError
validate_flow_removed m =
    let match = ntoh_match m.bytes 8 in
    or_next (validate_header m 11 88 88) (
      or_next (validate_match match) (
        or_next (validate_priority match (ntohs_at m.bytes 56))
          (fail_if (ltb 2 (byte m.bytes 58)) invalid_flow_removed_reason)))

-- `validate_actions` on the actions at an offset, when they have a length
unfoldable pub validate_actions_at :
    ℕ → (ℕ → ℕ) → (offset length : ℕ) → Option (Option MessageError)
validate_actions_at fuel b offset length =
    if ltb 0 length then validate_actions fuel (behind b offset) length else some none

unfoldable pub validate_packet_out : ℕ → Message → Option (Option MessageError)
validate_packet_out fuel m =
    or_continue
      (or_next (validate_header m 13 16 uint16_max) (validate_phy_port_no (ntohs_at m.bytes 12)))
      (validate_actions_at fuel m.bytes 16 (ntohs_at m.bytes 14))

-- the check of the output port of OFPFC_DELETE and OFPFC_DELETE_STRICT
unfoldable pub delete_port : Message → Option MessageError
delete_port m =
    let command = ntohs_at m.bytes 56 in
    let out_port = ntohs_at m.bytes 68 in
    if (command == 3 || command == 4) && not (out_port == 0xffff)
    then validate_phy_port_no out_port
    else none

-- the checks of a flow modification behind its command
unfoldable pub validate_flow_mod_rest : ℕ → Message → Option (Option MessageError)
unfolding delete_port
validate_flow_mod_rest fuel m =
    or_continue
      (or_next (validate_priority (ntoh_match m.bytes 8) (ntohs_at m.bytes 62)) (
        or_next (delete_port m)
          (fail_if (has_other_bits (ntohs_at m.bytes 70) 7) invalid_flow_mod_flags)))
      (validate_actions_at fuel m.bytes 72 ((header_length m + 2 ^ 16 - 72) % 2 ^ 16))

unfoldable pub validate_flow_mod : ℕ → Message → Option (Option MessageError)
unfolding validate_flow_mod_rest
validate_flow_mod fuel m =
    let rest = validate_flow_mod_rest fuel m in
    or_continue
      (or_next (validate_header m 14 72 uint16_max) (validate_match (ntoh_match m.bytes 8)))
      (if ltb 4 (ntohs_at m.bytes 56) then some (return_error undefined_flow_mod_command) else rest)
