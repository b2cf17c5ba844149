-- ===== src/Message/Validate.antt =====
-- src/lib/openflow_message.c: the check of any message, by its type.
use trema.Base.{ℕ, Bool, true, false, Option, none, some, ◌==◌, if◌then◌else◌}
use trema.Actions.{MessageError, undefined_type}
use trema.Message.{Message, header_type}
use trema.Message.Simple.{
  validate_hello, validate_error, validate_echo_request, validate_echo_reply, validate_vendor,
  validate_features_request, validate_get_config_request, validate_barrier_request,
  validate_barrier_reply,
}
use trema.Message.Ports.{
  validate_features_reply, validate_get_config_reply, validate_set_config, validate_packet_in,
  validate_port_status, validate_port_mod,
}
use trema.Message.Flows.{validate_flow_removed, validate_packet_out, validate_flow_mod}
use trema.Message.StatsRequest.{validate_stats_request}
use trema.Message.StatsReply.{validate_stats_reply}
use trema.Message.Queues.{validate_queue_get_config_request, validate_queue_get_config_reply}

-- the switch on the type; `none` when a loop does not end within the fuel
unfoldable pub validate_type : ℕ → Message → ℕ → Option (Option MessageError)
validate_type fuel m type =
    if type == 0
    then some (validate_hello m)
    else if type == 1
    then some (validate_error m)
    else if type == 2
    then some (validate_echo_request m)
    else if type == 3
    then some (validate_echo_reply m)
    else if type == 4
    then some (validate_vendor m)
    else if type == 5
    then some (validate_features_request m)
    else if type == 6
    then some (validate_features_reply m)
    else if type == 7
    then some (validate_get_config_request m)
    else if type == 8
    then some (validate_get_config_reply m)
    else if type == 9
    then some (validate_set_config m)
    else if type == 10
    then some (validate_packet_in m)
    else if type == 11
    then some (validate_flow_removed m)
    else if type == 12
    then some (validate_port_status m)
    else if type == 13
    then validate_packet_out fuel m
    else if type == 14
    then validate_flow_mod fuel m
    else if type == 15
    then some (validate_port_mod m)
    else if type == 16
    then some (validate_stats_request m)
    else if type == 17
    then validate_stats_reply fuel m
    else if type == 18
    then some (validate_barrier_request m)
    else if type == 19
    then some (validate_barrier_reply m)
    else if type == 20
    then some (validate_queue_get_config_request m)
    else if type == 21
    then validate_queue_get_config_reply fuel m
    else some (some undefined_type)

unfoldable pub validate_openflow_message : ℕ → Message → Option (Option MessageError)
unfolding validate_type
validate_openflow_message fuel m = validate_type fuel m (header_type m)

-- `validate_openflow_message ( message ) < 0`
unfoldable pub valid_openflow_message : ℕ → Message → Option Bool
unfolding validate_openflow_message
valid_openflow_message fuel m = elim (validate_openflow_message fuel m) [
  | none ↦ none
  | some none ↦ some true
  | some (some e) ↦ some false
]
