-- ===== src/Message/Ports.antt =====
-- src/lib/openflow_message.c: the messages about ports and the configuration of a switch, and
-- `ntoh_phy_port` of src/lib/byteorder.c. The name and the hardware address of a port are not
-- checked and left out.
use trema.Base.{
  ℕ, zero, suc, ◌+◌, ◌-◌, ◌/◌, ◌%◌, ◌^◌, not, ◌&&◌, ◌||◌, Option, none, some, ◌==◌, ltb,
  if◌then◌else◌,
}
use trema.Actions.{
  MessageError, invalid_length, no_table_available, invalid_port_no, invalid_port_config,
  invalid_port_state, invalid_port_features, invalid_switch_config, invalid_packet_in_reason,
  invalid_port_status_reason, invalid_port_mask, byte, ntohs_at, or_next, validate_phy_port_no,
}
use trema.Message.{
  Message, ntohl_at, uint16_max, has_other_bits, fail_if, header_length, validate_header,
}

-- PORT_CONFIG, PORT_STATE and PORT_FEATURES, the flags of openflow.h put together
abbrev pub port_config : ℕ
port_config = 0x7f

abbrev pub port_state : ℕ
port_state = 0x301

abbrev pub port_features : ℕ
port_features = 0xfff

-- the fields of `struct ofp_phy_port` that are checked
pub record PhyPort : Type 0 where
  pub port_no : ℕ
  pub config : ℕ
  pub state : ℕ
  pub curr : ℕ
  pub advertised : ℕ
  pub supported : ℕ
  pub peer : ℕ

unfoldable pub ntoh_phy_port : (ℕ → ℕ) → ℕ → PhyPort
ntoh_phy_port b o = record {
  port_no = ntohs_at b o;
  config = ntohl_at b (o + 24);
  state = ntohl_at b (o + 28);
  curr = ntohl_at b (o + 32);
  advertised = ntohl_at b (o + 36);
  supported = ntohl_at b (o + 40);
  peer = ntohl_at b (o + 44);
}

-- the checks on the port in host byte order
unfoldable pub validate_port_fields : PhyPort → Option MessageError
validate_port_fields p = or_next (validate_phy_port_no p.port_no) (
    if has_other_bits p.config port_config
    then some invalid_port_config
    else if has_other_bits p.state port_state
    then some invalid_port_state
    else if has_other_bits p.curr port_features
        || has_other_bits p.advertised port_features
        || has_other_bits p.supported port_features
        || has_other_bits p.peer port_features
    then some invalid_port_features
    else none)

unfoldable pub validate_phy_port : (ℕ → ℕ) → ℕ → Option MessageError
unfolding ntoh_phy_port validate_port_fields
validate_phy_port b o = validate_port_fields (ntoh_phy_port b o)

unfoldable pub validate_phy_ports : (ℕ → ℕ) → (port n_ports : ℕ) → Option MessageError
unfolding validate_phy_port
validate_phy_ports b port zero = none
validate_phy_ports b port (suc n) =
    or_next (validate_phy_port b port) (validate_phy_ports b (port + 48) n)

-- the checks of a features reply behind its header
unfoldable pub validate_features : (ℕ → ℕ) → (port_length : ℕ) → Option MessageError
unfolding validate_phy_ports
validate_features b port_length =
    if byte b 20 == 0
    then some no_table_available
    else if not (port_length % 48 == 0)
    then some invalid_length
    else if ltb 0 port_length
    then validate_phy_ports b 32 (port_length / 48)
    else none

unfoldable pub validate_features_reply : Message → Option MessageError
unfolding validate_features
validate_features_reply m =
    or_next (validate_header m 6 32 uint16_max)
      (validate_features m.bytes ((header_length m + 2 ^ 16 - 32) % 2 ^ 16))

unfoldable pub validate_switch_config : Message → ℕ → Option MessageError
validate_switch_config m type =
    or_next (validate_header m type 12 12)
      (fail_if (ltb 3 (ntohs_at m.bytes 8)) invalid_switch_config)

unfoldable pub validate_get_config_reply : Message → Option MessageError
validate_get_config_reply m = validate_switch_config m 8

unfoldable pub validate_set_config : Message → Option MessageError
validate_set_config m = validate_switch_config m 9

unfoldable pub validate_packet_in : Message → Option MessageError
validate_packet_in m = or_next (validate_header m 10 18 uint16_max) (
    or_next (validate_phy_port_no (ntohs_at m.bytes 14))
      (fail_if (ltb 1 (byte m.bytes 16)) invalid_packet_in_reason))

unfoldable pub validate_port_status : Message → Option MessageError
validate_port_status m = or_next (validate_header m 12 64 64) (
    or_next (fail_if (ltb 2 (byte m.bytes 8)) invalid_port_status_reason)
      (validate_phy_port m.bytes 16))

unfoldable pub validate_port_mod : Message → Option MessageError
validate_port_mod m =
    let port_no = ntohs_at m.bytes 8 in
    or_next (validate_header m 15 32 32) (
      or_next (validate_phy_port_no port_no) (
        if ltb 0xff00 port_no && not (port_no == 0xfffe)
        then some invalid_port_no
        else if has_other_bits (ntohl_at m.bytes 16) port_config
        then some invalid_port_config
        else if has_other_bits (ntohl_at m.bytes 20) port_config
        then some invalid_port_mask
        else if has_other_bits (ntohl_at m.bytes 24) port_features
        then some invalid_port_features
        else none))
