-- ===== src/Message/StatsReply.antt =====
-- src/lib/openflow_message.c: the replies with statistics.
use trema.Base.{
  ℕ, zero, suc, ◌+◌, ◌-◌, ◌/◌, ◌%◌, ◌^◌, not, Option, none, some, ◌==◌, ltb, if◌then◌else◌,
}
use trema.Actions.{
  MessageError, invalid_length, unsupported_stats_type, invalid_stats_reply_flags, ntohs_at,
  or_next, or_continue, validate_phy_port_no,
}
use trema.Message.{
  Message, ntohl_at, uint16_max, has_other_bits, fail_if, or_rest, header_length, validate_header,
}
use trema.Message.Flows.{
  ntoh_match, validate_wildcards, validate_match, validate_priority, validate_actions_at,
}

unfoldable pub validate_desc_stats_reply : Message → Option MessageError
validate_desc_stats_reply m =
    or_next (validate_header m 17 12 1068)
      (fail_if (not (ntohs_at m.bytes 10 == 0)) invalid_stats_reply_flags)

-- the header and the flags, where OFPSF_REPLY_MORE may be set, and the length of the body
unfoldable pub check_stats_reply : Message → Option MessageError
check_stats_reply m =
    or_next (validate_header m 17 12 uint16_max)
      (fail_if (has_other_bits (ntohs_at m.bytes 10) 1) invalid_stats_reply_flags)

unfoldable pub body_length : Message → ℕ
body_length m = (header_length m + 2 ^ 16 - 12) % 2 ^ 16

-- one turn of the loop over flows, but for the step to the next
unfoldable pub validate_flow_stats : ℕ → (ℕ → ℕ) → ℕ → Option (Option MessageError)
validate_flow_stats fuel b o =
    let match = ntoh_match b (o + 4) in
    or_continue (or_next (validate_match match) (validate_priority match (ntohs_at b (o + 52))))
      (validate_actions_at fuel b (o + 88) ((ntohs_at b o + 2 ^ 16 - 88) % 2 ^ 16))

-- the loop; `none` when the fuel does not suffice
unfoldable pub validate_flows : ℕ → (ℕ → ℕ) → (o flow_length : ℕ) → Option (Option MessageError)
unfolding or_rest validate_flow_stats
validate_flows zero b o flow_length = none
validate_flows (suc fuel) b o flow_length =
    let length = ntohs_at b o in
    let rest = validate_flows fuel b (o + length) ((flow_length + 2 ^ 16 - length) % 2 ^ 16) in
    if ltb 0 flow_length then or_rest (validate_flow_stats fuel b o) rest else some none

unfoldable pub validate_flow_stats_reply : ℕ → Message → Option (Option MessageError)
unfolding check_stats_reply validate_flows
validate_flow_stats_reply fuel m =
    or_continue (check_stats_reply m) (validate_flows fuel m.bytes 12 (body_length m))

unfoldable pub validate_aggregate_stats_reply : Message → Option MessageError
validate_aggregate_stats_reply m =
    or_next (validate_header m 17 12 36)
      (fail_if (not (ntohs_at m.bytes 10 == 0)) invalid_stats_reply_flags)

unfoldable pub validate_tables : (ℕ → ℕ) → (table n_tables : ℕ) → Option MessageError
validate_tables b table zero = none
validate_tables b table (suc n) =
    or_next (validate_wildcards (ntohl_at b (table + 36))) (validate_tables b (table + 64) n)

unfoldable pub validate_table_stats_reply : Message → Option MessageError
validate_table_stats_reply m = or_next (check_stats_reply m) (
    if not (body_length m % 64 == 0)
    then some invalid_length
    else validate_tables m.bytes 12 (body_length m / 64))

-- the loops over ports and over queues: the number of the port that each item of a size starts with
unfoldable pub validate_port_items : (ℕ → ℕ) → (size item n : ℕ) → Option MessageError
validate_port_items b size item zero = none
validate_port_items b size item (suc n) =
    or_next (validate_phy_port_no (ntohs_at b item)) (validate_port_items b size (item + size) n)

unfoldable pub validate_port_stats_reply : Message → Option MessageError
validate_port_stats_reply m = or_next (check_stats_reply m) (
    if not (body_length m % 104 == 0)
    then some invalid_length
    else validate_port_items m.bytes 104 12 (body_length m / 104))

unfoldable pub validate_queue_stats_reply : Message → Option MessageError
validate_queue_stats_reply m = or_next (check_stats_reply m) (
    if not (body_length m % 32 == 0)
    then some invalid_length
    else validate_port_items m.bytes 32 12 (body_length m / 32))

unfoldable pub validate_vendor_stats_reply : Message → Option MessageError
validate_vendor_stats_reply m = check_stats_reply m

unfoldable pub validate_stats_reply : ℕ → Message → Option (Option MessageError)
validate_stats_reply fuel m =
    let type = ntohs_at m.bytes 8 in
    if type == 0
    then some (validate_desc_stats_reply m)
    else if type == 1
    then validate_flow_stats_reply fuel m
    else if type == 2
    then some (validate_aggregate_stats_reply m)
    else if type == 3
    then some (validate_table_stats_reply m)
    else if type == 4
    then some (validate_port_stats_reply m)
    else if type == 5
    then some (validate_queue_stats_reply m)
    else if type == 0xffff
    then some (validate_vendor_stats_reply m)
    else some (some unsupported_stats_type)
