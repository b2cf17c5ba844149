-- ===== src/Message/StatsRequest.antt =====
-- src/lib/openflow_message.c: the requests for statistics.
use trema.Base.{ℕ, not, ◌&&◌, Option, none, some, ◌==◌, ltb, if◌then◌else◌}
use trema.Actions.{
  MessageError, invalid_port_no, unsupported_stats_type, invalid_stats_type,
  invalid_stats_request_flags, ntohs_at, or_next, validate_phy_port_no,
}
use trema.Message.{Message, uint16_max, fail_if, validate_header}
use trema.Message.Flows.{ntoh_match, validate_match}

-- the two tests behind the header that the seven functions share
unfoldable pub check_stats_request : Message → ℕ → Option MessageError
check_stats_request m type =
    if not (ntohs_at m.bytes 8 == type)
    then some invalid_stats_type
    else if not (ntohs_at m.bytes 10 == 0)
    then some invalid_stats_request_flags
    else none

unfoldable pub validate_desc_stats_request : Message → Option MessageError
validate_desc_stats_request m = or_next (validate_header m 16 12 12) (check_stats_request m 0)

unfoldable pub validate_flow_stats_request : Message → Option MessageError
validate_flow_stats_request m = or_next (validate_header m 16 56 56) (
    or_next (check_stats_request m 1) (
      or_next (validate_match (ntoh_match m.bytes 12))
        (validate_phy_port_no (ntohs_at m.bytes 54))))

unfoldable pub validate_aggregate_stats_request : Message → Option MessageError
validate_aggregate_stats_request m = or_next (validate_header m 16 56 56) (
    or_next (check_stats_request m 2) (
      or_next (validate_match (ntoh_match m.bytes 12))
        (validate_phy_port_no (ntohs_at m.bytes 54))))

unfoldable pub validate_table_stats_request : Message → Option MessageError
validate_table_stats_request m = or_next (validate_header m 16 12 12) (check_stats_request m 3)

unfoldable pub validate_port_stats_request : Message → Option MessageError
validate_port_stats_request m =
    let port_no = ntohs_at m.bytes 12 in
    or_next (validate_header m 16 20 20) (
      or_next (check_stats_request m 4) (
        or_next (validate_phy_port_no port_no) (
          fail_if (ltb 0xff00 port_no && not (port_no == 0xffff) && not (port_no == 0xfffe))
            invalid_port_no)))

unfoldable pub validate_queue_stats_request : Message → Option MessageError
validate_queue_stats_request m =
    or_next (validate_header m 16 20 20)
      (or_next (check_stats_request m 5) (validate_phy_port_no (ntohs_at m.bytes 12)))

unfoldable pub validate_vendor_stats_request : Message → Option MessageError
validate_vendor_stats_request m =
    or_next (validate_header m 16 16 uint16_max) (check_stats_request m 0xffff)

unfoldable pub validate_stats_request : Message → Option MessageError
validate_stats_request m =
    let type = ntohs_at m.bytes 8 in
    if type == 0
    then validate_desc_stats_request m
    else if type == 1
    then validate_flow_stats_request m
    else if type == 2
    then validate_aggregate_stats_request m
    else if type == 3
    then validate_table_stats_request m
    else if type == 4
    then validate_port_stats_request m
    else if type == 5
    then validate_queue_stats_request m
    else if type == 0xffff
    then validate_vendor_stats_request m
    else some unsupported_stats_type
