-- ===== src/Tests/Messages.antt =====
-- Runs of the checks and of the creation of messages of src/lib/openflow_message.c.
use trema.Base.{◌≤◌, ℕ, ◌-◌, ◌/◌, ◌%◌, ◌≡◌, ◌≢◌, ◌↔◌, refl, true, false, none, some, [], is_some}
use trema.Actions.{
  invalid_port_no, invalid_switch_config, ntohs_at, byte, validate_phy_port_no, or_next,
  or_continue,
}
use trema.Actions.Ranges.{is_port}
use trema.Actions.Loop.{Walk}
use trema.Message.{
  Message, behind, header_type, header_version, header_length, valid_message_version,
  validate_header,
}
use trema.Message.Simple.{validate_hello}
use trema.Message.Ports.{validate_switch_config, validate_set_config, validate_features_reply}
use trema.Message.Flows.{ntoh_match, validate_match, validate_packet_out, validate_flow_mod}
use trema.Message.Validate.{validate_type, validate_openflow_message}
use trema.Message.Framing.{Framed, least_length, greatest_length}
use trema.Message.Lengths.{validate_openflow_message-Framed}
use trema.Message.ErrorMaps.{get_error_type_and_code}
use trema.Message.Coverage.{has_full_map, validate_openflow_message-reported}
use trema.Message.PacketOut.{lacks_row, validate_packet_out-reported}
use trema.Message.Fields.{
  ArePhyPorts, IsMatch, validate_match-accepts, validate_features_reply-accepts,
}
use trema.Message.Commands.{IsCommand, validate_packet_out-accepts, validate_flow_mod-accepts}
use trema.Create.{put16, put32, message_of, create_header}
use trema.Create.Requests.{create_hello, create_set_config}

abbrev hello : Message
unfolding create_hello create_header
hello = message_of (create_hello 7)

hello_passes : validate_openflow_message 0 hello ≡ some none
unfolding validate_openflow_message validate_type validate_hello validate_header header_type
    header_version header_length valid_message_version create_header create_hello
hello_passes = refl

validate_openflow_message-Framed_example :
    (header_type hello ≤ 21)
    × Framed hello
        (header_type hello)
        (least_length (header_type hello))
        (greatest_length (header_type hello))
validate_openflow_message-Framed_example = validate_openflow_message-Framed 0 hello hello_passes

-- a configuration with undefined flags
abbrev bad_config : Message
unfolding create_set_config create_header
bad_config = message_of (create_set_config 7 5 128)

bad_config_fails : validate_openflow_message 0 bad_config ≡ some (some invalid_switch_config)
unfolding validate_openflow_message validate_type validate_set_config validate_switch_config or_next
    validate_header header_type header_version header_length valid_message_version create_header
    create_set_config
bad_config_fails = refl

bad_config_full : has_full_map (header_type bad_config) ≡ true
unfolding has_full_map header_type create_header create_set_config
bad_config_full = refl

validate_openflow_message-reported_example :
    is_some (get_error_type_and_code (header_type bad_config) invalid_switch_config) ≡ true
validate_openflow_message-reported_example =
    validate_openflow_message-reported 0 bad_config invalid_switch_config bad_config_full
      bad_config_fails

-- a packet out of port 0
abbrev port_zero : Message
unfolding create_header
port_zero = message_of (create_header 7 13 16 (put32 1 (put16 0 (put16 0 []))))

port_zero_fails : validate_packet_out 1 port_zero ≡ some (some invalid_port_no)
unfolding validate_packet_out validate_phy_port_no or_next or_continue validate_header header_type
    header_version header_length valid_message_version create_header
port_zero_fails = refl

no_port_known : lacks_row invalid_port_no ≡ false
unfolding lacks_row
no_port_known = refl

validate_packet_out-reported_example : is_some (get_error_type_and_code 13 invalid_port_no) ≡ true
validate_packet_out-reported_example =
    validate_packet_out-reported 1 port_zero invalid_port_no port_zero_fails no_port_known

validate_packet_out-accepts_example :
    ((fuel : ℕ) × (validate_packet_out fuel port_zero ≡ some none)) ↔ (
      Framed port_zero 13 16 0xffff
      × (is_port (ntohs_at port_zero.bytes 12) ≡ true)
      × Walk (behind port_zero.bytes 16) (ntohs_at port_zero.bytes 14) 0)
validate_packet_out-accepts_example = validate_packet_out-accepts port_zero

validate_flow_mod-accepts_example :
    ((fuel : ℕ) × (validate_flow_mod fuel port_zero ≡ some none))
    ↔ (Framed port_zero 14 72 0xffff × IsMatch (ntoh_match port_zero.bytes 8) × IsCommand port_zero)
validate_flow_mod-accepts_example = validate_flow_mod-accepts port_zero

validate_features_reply-accepts_example : (validate_features_reply hello ≡ none) ↔ (
    Framed hello 6 32 0xffff
    × (byte hello.bytes 20 ≢ 0)
    × ((hello.length - 32) % 48 ≡ 0)
    × ArePhyPorts hello.bytes 32 ((hello.length - 32) / 48))
validate_features_reply-accepts_example = validate_features_reply-accepts hello

validate_match-accepts_example :
    (validate_match (ntoh_match port_zero.bytes 0) ≡ none) ↔ IsMatch (ntoh_match port_zero.bytes 0)
validate_match-accepts_example = validate_match-accepts port_zero.bytes 0
