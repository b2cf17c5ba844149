-- ===== src/Tests/Created.antt =====
-- Runs of the loops over queues, and of the creation of messages, of src/lib/openflow_message.c.
use trema.Base.{
  inl, All, ℕ, ◌+◌, ◌-◌, ◌/◌, ◌^◌, ◌<◌, ◌≡◌, ◌≢◌, ◌↔◌, refl, true, Option, none, some, List, [],
  ◌∷◌, length, bit_and, arith,
}
use trema.OpenFlow.{
  Mac, Match, ofpfw_all, ofpfw_tp_src, ofpfw_tp_dst, ofpfw_dl_vlan_pcp, ofpfw_nw_tos,
}
use trema.Actions.{MessageError, ntohs_at, validate_phy_port_no, or_continue}
use trema.Actions.Ranges.{is_port}
use trema.Message.{
  Message, behind, header_type, header_version, header_length, valid_message_version,
  validate_header,
}
use trema.Message.Flows.{ntoh_match, validate_match, validate_packet_out, validate_flow_mod}
use trema.Message.StatsRequest.{validate_stats_request}
use trema.Message.Queues.{
  property_len, queue_len, validate_queue_property, validate_properties_from,
  validate_queue_properties, validate_packet_queue, validate_queue_get_config_reply,
}
use trema.Message.Fields.{IsMatch}
use trema.Message.QueueLoop.{Properties, validate_queue_properties-decides}
use trema.Message.QueueReply.{
  Tiled, filled, queue, queue_get_config_reply-accepts, queue_get_config_reply-diverges,
}
use trema.Message.Normalize.{normalize_match}
use trema.Message.Normal.{normalize_match-valid}
use trema.Create.{put16, put32, zeros, at, message_of, create_header, hton_match}
use trema.Create.Requests.{
  create_desc_stats_request, create_flow_stats_request, create_aggregate_stats_request,
  create_table_stats_request, create_port_stats_request, create_queue_stats_request,
  create_vendor_stats_request,
}
use trema.Create.ActionList.{OpenflowActions, output, strip_vlan, len_of}
use trema.Create.Flows.{FlowMod, sum_lengths, create_packet_out, create_flow_mod}
use trema.Create.Read.{HasWidths, ntoh_match-hton_match}
use trema.Create.Valid.{created_stats_requests_valid}
use trema.Create.ValidActions.{IsHostAction}
use trema.Create.ValidFlows.{IsRequest, created_flow_mod_valid, created_packet_out_valid}
use trema.Create.Counters.{
  get_transaction_id, get_cookie, after_calls, transaction_ids_differ, cookies_differ,
}

-- a reply of 26 bytes whose first queue has the length 0
abbrev zero_queue : Message
unfolding create_header
zero_queue = message_of (create_header 7 21 26 (put16 1 (zeros 16 [])))

-- a reply with one queue, which has one property without a value
abbrev one_queue : Message
unfolding create_header
one_queue = message_of (
    create_header 7 21 32
      (put16 1 (zeros 6 (put32 5 (put16 16 (zeros 2 (put16 0 (put16 8 (zeros 4 [])))))))))

zero_queue_header : validate_header zero_queue 21 24 0xffff ≡ none
unfolding validate_header header_type header_version header_length valid_message_version
    create_header
zero_queue_header = refl

zero_queue_port : validate_phy_port_no (ntohs_at zero_queue.bytes 8) ≡ none
unfolding validate_phy_port_no create_header
zero_queue_port = refl

zero_queue_len : queue_len zero_queue.bytes 16 ≡ 0
unfolding queue_len create_header
zero_queue_len = refl

zero_queue_long : 24 < zero_queue.length
unfolding create_header
zero_queue_long = omega arith

queue_get_config_reply-diverges_example : validate_queue_get_config_reply 9 zero_queue ≡ none
queue_get_config_reply-diverges_example =
    queue_get_config_reply-diverges zero_queue zero_queue_header zero_queue_port zero_queue_long
      zero_queue_len 9

one_queue_header : validate_header one_queue 21 24 0xffff ≡ none
unfolding validate_header header_type header_version header_length valid_message_version
    create_header
one_queue_header = refl

one_queue_port : validate_phy_port_no (ntohs_at one_queue.bytes 8) ≡ none
unfolding validate_phy_port_no create_header
one_queue_port = refl

one_queue_Tiled : Tiled one_queue.bytes 2 1 16 (one_queue.length - 16)
unfolding queue_len validate_packet_queue validate_queue_properties validate_properties_from
    validate_queue_property property_len or_continue create_header
one_queue_Tiled = queue (omega arith) (omega arith) refl filled

queue_get_config_reply-accepts_example : validate_queue_get_config_reply 2 one_queue ≡ some none
queue_get_config_reply-accepts_example =
    queue_get_config_reply-accepts one_queue one_queue_header one_queue_port 2 1 (omega arith)
      one_queue_Tiled

validate_queue_properties-decides_example :
    ((r : Option MessageError) × (validate_queue_properties 2 (behind one_queue.bytes 24) 8
        ≡ some r))
    × ((validate_queue_properties 2 (behind one_queue.bytes 24) 8 ≡ some none)
        ↔ Properties (behind one_queue.bytes 24) 8 0)
validate_queue_properties-decides_example =
    validate_queue_properties-decides (behind one_queue.bytes 24) 8 (omega arith) 1 (omega arith)

abbrev no_mac : Mac
no_mac = record { b₀ = 0; b₁ = 0; b₂ = 0; b₃ = 0; b₄ = 0; b₅ = 1 }

-- every packet
abbrev any_packet : Match
any_packet = record {
  wildcards = ofpfw_all;
  in_port = 0;
  dl_src = no_mac;
  dl_dst = no_mac;
  dl_vlan = 0;
  dl_vlan_pcp = 0;
  dl_type = 0;
  nw_tos = 0;
  nw_proto = 0;
  nw_src = 0;
  nw_dst = 0;
  tp_src = 0;
  tp_dst = 0;
}

any_packet-HasWidths : HasWidths any_packet
any_packet-HasWidths = ground arith

any_packet-IsMatch : IsMatch any_packet
any_packet-IsMatch = ground arith

ntoh_match-hton_match_example : ntoh_match (at (hton_match any_packet (7 ∷ []))) 0 ≡ any_packet
ntoh_match-hton_match_example = ntoh_match-hton_match any_packet (7 ∷ []) any_packet-HasWidths

normalize_match-valid_example :
    (validate_match (normalize_match any_packet) ≡ none)
    × (bit_and (normalize_match any_packet).wildcards ofpfw_tp_src ≢ 0
        → (normalize_match any_packet).tp_src ≡ 0)
    × (bit_and (normalize_match any_packet).wildcards ofpfw_tp_dst ≢ 0
        → (normalize_match any_packet).tp_dst ≡ 0)
    × (bit_and (normalize_match any_packet).wildcards ofpfw_dl_vlan_pcp ≢ 0
        → (normalize_match any_packet).dl_vlan_pcp ≡ 0)
    × (bit_and (normalize_match any_packet).wildcards ofpfw_nw_tos ≢ 0
        → (normalize_match any_packet).nw_tos ≡ 0)
normalize_match-valid_example = normalize_match-valid any_packet

abbrev two_bytes : List ℕ
two_bytes = 1 ∷ 2 ∷ []

abbrev strip_and_output : OpenflowActions
strip_and_output = record { n_actions = 2; list = strip_vlan ∷ output 1 0 ∷ [] }

actions_valid : All IsHostAction strip_and_output.list
unfolding IsHostAction is_port
actions_valid = (tt, ((omega arith, refl), tt))

actions_short : 72 + sum_lengths strip_and_output.list < 2 ^ 16
unfolding sum_lengths len_of
actions_short = omega arith

frame_short : 16 + sum_lengths strip_and_output.list + length two_bytes < 2 ^ 16
unfolding sum_lengths len_of
frame_short = omega arith

abbrev add_flow : FlowMod
add_flow = record {
  transaction_id = 7;
  cookie = 1;
  command = 0;
  idle_timeout = 60;
  hard_timeout = 0;
  priority = 1000;
  buffer_id = 0xffffffff;
  out_port = 0xffff;
  flags = 1;
}

add_flow-IsRequest : IsRequest add_flow any_packet
unfolding is_port
add_flow-IsRequest = ground arith

created_flow_mod_valid_example :
    (bytes : List ℕ) × (create_flow_mod add_flow any_packet strip_and_output ≡ some bytes)
    × (fuel : ℕ) × (validate_flow_mod fuel (message_of bytes) ≡ some none)
created_flow_mod_valid_example =
    created_flow_mod_valid add_flow any_packet strip_and_output any_packet-HasWidths
      any_packet-IsMatch add_flow-IsRequest actions_valid actions_short

port_one : is_port 1 ≡ true
unfolding is_port
port_one = refl

created_packet_out_valid_example :
    (bytes : List ℕ) × (create_packet_out 7 3 1 strip_and_output two_bytes ≡ some bytes)
    × (fuel : ℕ) × (validate_packet_out fuel (message_of bytes) ≡ some none)
created_packet_out_valid_example =
    created_packet_out_valid 7 3 1 strip_and_output two_bytes (omega arith) port_one
      (λ e. absurd (omega arith)) actions_valid frame_short

created_stats_requests_valid_example :
    (validate_stats_request (message_of (create_desc_stats_request 7 0)) ≡ none)
    × (validate_stats_request (message_of (create_flow_stats_request 7 0 any_packet 0xff 1)) ≡ none)
    × (validate_stats_request (message_of (create_aggregate_stats_request 7 0 any_packet 0xff 1))
        ≡ none)
    × (validate_stats_request (message_of (create_table_stats_request 7 0)) ≡ none)
    × (validate_stats_request (message_of (create_port_stats_request 7 0 1)) ≡ none)
    × (validate_stats_request (message_of (create_queue_stats_request 7 0 1 9)) ≡ none)
    × ((bytes : List ℕ) × (create_vendor_stats_request 7 0 99 two_bytes ≡ some bytes)
        × (validate_stats_request (message_of bytes) ≡ none))
created_stats_requests_valid_example =
    created_stats_requests_valid 7 0xff 1 1 9 99 any_packet two_bytes any_packet-HasWidths
      any_packet-IsMatch (omega arith) port_one (omega arith) port_one (inl (omega arith))
      (omega arith)

transaction_ids_differ_example :
    (after_calls get_transaction_id 0 0x1ffff ≢ after_calls get_transaction_id 1 0x1ffff)
    × (after_calls get_transaction_id 0 0x1ffff / 2 ^ 16 ≡ 0x1ffff / 2 ^ 16)
transaction_ids_differ_example =
    transaction_ids_differ 0x1ffff 0 1 (omega arith) (omega arith) (omega arith)

cookies_differ_example :
    (after_calls get_cookie 0 5 ≢ after_calls get_cookie 2 5)
    × (after_calls get_cookie 0 5 / 2 ^ 48 ≡ 5 / 2 ^ 48)
cookies_differ_example = cookies_differ 5 0 2 (omega arith) (omega arith) (omega arith)
