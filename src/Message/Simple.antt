-- ===== src/Message/Simple.antt =====
-- src/lib/openflow_message.c: the messages that have no fields to check behind the header.
use trema.Base.{not, Option, ◌==◌}
use trema.Actions.{MessageError, invalid_length, or_next}
use trema.Message.{Message, header_length, uint16_max, fail_if, validate_header}

unfoldable pub validate_hello : Message → Option MessageError
validate_hello m = validate_header m 0 8 8

unfoldable pub validate_error : Message → Option MessageError
validate_error m = validate_header m 1 12 uint16_max

unfoldable pub validate_echo_request : Message → Option MessageError
validate_echo_request m =
    or_next (validate_header m 2 8 uint16_max)
      (fail_if (not (m.length == header_length m)) invalid_length)

unfoldable pub validate_echo_reply : Message → Option MessageError
validate_echo_reply m =
    or_next (validate_header m 3 8 uint16_max)
      (fail_if (not (m.length == header_length m)) invalid_length)

unfoldable pub validate_vendor : Message → Option MessageError
validate_vendor m =
    or_next (validate_header m 4 12 uint16_max)
      (fail_if (not (m.length == header_length m)) invalid_length)

unfoldable pub validate_features_request : Message → Option MessageError
validate_features_request m = validate_header m 5 8 8

unfoldable pub validate_get_config_request : Message → Option MessageError
validate_get_config_request m = validate_header m 7 8 8

unfoldable pub validate_barrier_request : Message → Option MessageError
validate_barrier_request m = validate_header m 18 8 8

unfoldable pub validate_barrier_reply : Message → Option MessageError
validate_barrier_reply m = validate_header m 19 8 8
