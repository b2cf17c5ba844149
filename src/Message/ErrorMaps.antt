-- ===== src/Message/ErrorMaps.antt =====
-- src/lib/openflow_message.c: the OpenFlow errors that report the errors of the checks. The rows of
-- a map end where the list ends, or at an error number that is 0.
use trema.Base.{ℕ, Option, none, some, ◌==◌, ltb, if◌then◌else◌, List, [], ◌∷◌}
use trema.Message.ErrorTypes.{
  ofpet_hello_failed, ofpet_bad_request, ofpet_bad_action, ofpet_flow_mod_failed,
  ofpet_port_mod_failed, ofpet_queue_op_failed, ofphfc_incompatible, ofpbrc_bad_version,
  ofpbrc_bad_type, ofpbrc_bad_stat, ofpbrc_eperm, ofpbrc_bad_len, ofpbac_bad_type, ofpbac_bad_len,
  ofpbac_bad_out_port, ofpbac_bad_argument, ofpfmfc_eperm, ofpfmfc_bad_command, ofppmfc_bad_port,
  ofpqofc_bad_port,
}
use trema.Actions.{
  MessageError, error_no, invalid_action_type, invalid_flow_mod_flags, invalid_flow_priority,
  invalid_flow_removed_reason, invalid_length_action_vendor, invalid_nw_tos,
  invalid_packet_in_reason, invalid_port_config, invalid_port_features, invalid_port_mask,
  invalid_port_no, invalid_port_status_reason, invalid_stats_request_flags, invalid_stats_type,
  invalid_switch_config, invalid_type, invalid_vlan_pcp, invalid_vlan_vid, invalid_wildcards,
  too_long_action_dl_dst, too_long_action_dl_src, too_long_action_enqueue, too_long_action_nw_dst,
  too_long_action_nw_src, too_long_action_nw_tos, too_long_action_output,
  too_long_action_strip_vlan, too_long_action_tp_dst, too_long_action_tp_src,
  too_long_action_vlan_pcp, too_long_action_vlan_vid, too_long_message, too_short_action_dl_dst,
  too_short_action_dl_src, too_short_action_enqueue, too_short_action_nw_dst,
  too_short_action_nw_src, too_short_action_nw_tos, too_short_action_output,
  too_short_action_strip_vlan, too_short_action_tp_dst, too_short_action_tp_src,
  too_short_action_vendor, too_short_action_vlan_pcp, too_short_action_vlan_vid, too_short_message,
  undefined_action_type, undefined_flow_mod_command, undefined_type, unsupported_stats_type,
  unsupported_version,
}

-- `struct map`: the error, and the type and the code of the OpenFlow error
abbrev pub ErrorRow : Type 0
ErrorRow = MessageError × ℕ × ℕ

-- the rows that the maps start with, but for the one of OFPT_HELLO
unfoldable pub header_rows : List ErrorRow → List ErrorRow
header_rows rest =
    (unsupported_version, ofpet_bad_request, ofpbrc_bad_version)
    ∷ (too_short_message, ofpet_bad_request, ofpbrc_bad_len)
    ∷ (too_long_message, ofpet_bad_request, ofpbrc_bad_len)
    ∷ (undefined_type, ofpet_bad_request, ofpbrc_bad_type)
    ∷ (invalid_type, ofpet_bad_request, ofpbrc_bad_type)
    ∷ rest

-- the rows on actions, which two maps have
unfoldable pub action_rows : List ErrorRow → List ErrorRow
action_rows rest =
    (invalid_action_type, ofpet_bad_action, ofpbac_bad_type)
    ∷ (too_short_action_output, ofpet_bad_action, ofpbac_bad_len)
    ∷ (too_long_action_output, ofpet_bad_action, ofpbac_bad_len)
    ∷ (invalid_port_no, ofpet_bad_action, ofpbac_bad_out_port)
    ∷ (too_short_action_vlan_vid, ofpet_bad_action, ofpbac_bad_len)
    ∷ (too_long_action_vlan_vid, ofpet_bad_action, ofpbac_bad_len)
    ∷ (invalid_vlan_vid, ofpet_bad_action, ofpbac_bad_argument)
    ∷ (too_short_action_vlan_pcp, ofpet_bad_action, ofpbac_bad_len)
    ∷ (too_long_action_vlan_pcp, ofpet_bad_action, ofpbac_bad_len)
    ∷ (invalid_vlan_pcp, ofpet_bad_action, ofpbac_bad_argument)
    ∷ (too_short_action_strip_vlan, ofpet_bad_action, ofpbac_bad_len)
    ∷ (too_long_action_strip_vlan, ofpet_bad_action, ofpbac_bad_len)
    ∷ (too_short_action_dl_src, ofpet_bad_action, ofpbac_bad_len)
    ∷ (too_long_action_dl_src, ofpet_bad_action, ofpbac_bad_len)
    ∷ (too_short_action_dl_dst, ofpet_bad_action, ofpbac_bad_len)
    ∷ (too_long_action_dl_dst, ofpet_bad_action, ofpbac_bad_len)
    ∷ (too_short_action_nw_src, ofpet_bad_action, ofpbac_bad_len)
    ∷ (too_long_action_nw_src, ofpet_bad_action, ofpbac_bad_len)
    ∷ (too_short_action_nw_dst, ofpet_bad_action, ofpbac_bad_len)
    ∷ (too_long_action_nw_dst, ofpet_bad_action, ofpbac_bad_len)
    ∷ (too_short_action_nw_tos, ofpet_bad_action, ofpbac_bad_len)
    ∷ (too_long_action_nw_tos, ofpet_bad_action, ofpbac_bad_len)
    ∷ (too_short_action_tp_src, ofpet_bad_action, ofpbac_bad_len)
    ∷ (too_long_action_tp_src, ofpet_bad_action, ofpbac_bad_len)
    ∷ (too_short_action_tp_dst, ofpet_bad_action, ofpbac_bad_len)
    ∷ (too_long_action_tp_dst, ofpet_bad_action, ofpbac_bad_len)
    ∷ (too_short_action_enqueue, ofpet_bad_action, ofpbac_bad_len)
    ∷ (too_long_action_enqueue, ofpet_bad_action, ofpbac_bad_len)
    ∷ (invalid_port_no, ofpet_bad_action, ofpbac_bad_out_port)
    ∷ (too_short_action_vendor, ofpet_bad_action, ofpbac_bad_len)
    ∷ (invalid_length_action_vendor, ofpet_bad_action, ofpbac_bad_len)
    ∷ (undefined_action_type, ofpet_bad_action, ofpbac_bad_type)
    ∷ rest

unfoldable pub hello_map : List ErrorRow
hello_map =
    (unsupported_version, ofpet_hello_failed, ofphfc_incompatible)
    ∷ (too_short_message, ofpet_bad_request, ofpbrc_bad_len)
    ∷ (too_long_message, ofpet_bad_request, ofpbrc_bad_len)
    ∷ (undefined_type, ofpet_bad_request, ofpbrc_bad_type)
    ∷ (invalid_type, ofpet_bad_request, ofpbrc_bad_type)
    ∷ []

unfoldable pub error_map : List ErrorRow
unfolding header_rows
error_map = header_rows []

unfoldable pub echo_request_map : List ErrorRow
unfolding header_rows
echo_request_map = header_rows []

unfoldable pub echo_reply_map : List ErrorRow
unfolding header_rows
echo_reply_map = header_rows []

unfoldable pub vendor_map : List ErrorRow
unfolding header_rows
vendor_map = header_rows []

unfoldable pub features_request_map : List ErrorRow
unfolding header_rows
features_request_map = header_rows []

unfoldable pub features_reply_map : List ErrorRow
unfolding header_rows
features_reply_map = header_rows []

unfoldable pub get_config_request_map : List ErrorRow
unfolding header_rows
get_config_request_map = header_rows []

unfoldable pub get_config_reply_map : List ErrorRow
unfolding header_rows
get_config_reply_map = header_rows []

unfoldable pub set_config_map : List ErrorRow
unfolding header_rows
set_config_map = header_rows ((invalid_switch_config, ofpet_bad_request, ofpbrc_eperm) ∷ [])

unfoldable pub packet_in_map : List ErrorRow
unfolding header_rows
packet_in_map = header_rows ((invalid_packet_in_reason, ofpet_bad_request, ofpbrc_eperm) ∷ [])

unfoldable pub flow_removed_map : List ErrorRow
unfolding header_rows
flow_removed_map = header_rows (
    (invalid_flow_priority, ofpet_bad_request, ofpbrc_eperm)
    ∷ (invalid_flow_removed_reason, ofpet_bad_request, ofpbrc_eperm)
    ∷ [])

unfoldable pub port_status_map : List ErrorRow
unfolding header_rows
port_status_map = header_rows ((invalid_port_status_reason, ofpet_bad_request, ofpbrc_eperm) ∷ [])

unfoldable pub packet_out_map : List ErrorRow
unfolding header_rows action_rows
packet_out_map = header_rows (action_rows [])

unfoldable pub flow_mod_map : List ErrorRow
unfolding header_rows action_rows
flow_mod_map = header_rows (
    action_rows (
      (invalid_wildcards, ofpet_flow_mod_failed, ofpfmfc_eperm)
      ∷ (undefined_flow_mod_command, ofpet_flow_mod_failed, ofpfmfc_bad_command)
      ∷ (invalid_flow_priority, ofpet_flow_mod_failed, ofpfmfc_eperm)
      ∷ (invalid_flow_mod_flags, ofpet_flow_mod_failed, ofpfmfc_eperm)
      ∷ []))

unfoldable pub port_mod_map : List ErrorRow
unfolding header_rows
port_mod_map = header_rows (
    (invalid_port_no, ofpet_port_mod_failed, ofppmfc_bad_port)
    ∷ (invalid_port_config, ofpet_bad_request, ofpbrc_eperm)
    ∷ (invalid_port_mask, ofpet_bad_request, ofpbrc_eperm)
    ∷ (invalid_port_features, ofpet_bad_request, ofpbrc_eperm)
    ∷ [])

unfoldable pub stats_request_map : List ErrorRow
unfolding header_rows
stats_request_map = header_rows (
    (unsupported_stats_type, ofpet_bad_request, ofpbrc_bad_stat)
    ∷ (invalid_stats_type, ofpet_bad_request, ofpbrc_bad_stat)
    ∷ (invalid_stats_request_flags, ofpet_bad_request, ofpbrc_eperm)
    ∷ (invalid_port_no, ofpet_bad_request, ofpbrc_eperm)
    ∷ (invalid_wildcards, ofpet_bad_request, ofpbrc_eperm)
    ∷ (invalid_vlan_vid, ofpet_bad_request, ofpbrc_eperm)
    ∷ (invalid_vlan_pcp, ofpet_bad_request, ofpbrc_eperm)
    ∷ (invalid_nw_tos, ofpet_bad_request, ofpbrc_eperm)
    ∷ [])

unfoldable pub stats_reply_map : List ErrorRow
unfolding header_rows
stats_reply_map = header_rows []

unfoldable pub barrier_request_map : List ErrorRow
unfolding header_rows
barrier_request_map = header_rows []

unfoldable pub barrier_reply_map : List ErrorRow
unfolding header_rows
barrier_reply_map = header_rows []

unfoldable pub queue_get_config_request_map : List ErrorRow
unfolding header_rows
queue_get_config_request_map =
    header_rows ((invalid_port_no, ofpet_queue_op_failed, ofpqofc_bad_port) ∷ [])

unfoldable pub queue_get_config_reply_map : List ErrorRow
unfolding header_rows
queue_get_config_reply_map = header_rows []

-- `error_maps[ type ].maps`
unfoldable pub error_maps : ℕ → List ErrorRow
error_maps type =
    if type == 0
    then hello_map
    else if type == 1
    then error_map
    else if type == 2
    then echo_request_map
    else if type == 3
    then echo_reply_map
    else if type == 4
    then vendor_map
    else if type == 5
    then features_request_map
    else if type == 6
    then features_reply_map
    else if type == 7
    then get_config_request_map
    else if type == 8
    then get_config_reply_map
    else if type == 9
    then set_config_map
    else if type == 10
    then packet_in_map
    else if type == 11
    then flow_removed_map
    else if type == 12
    then port_status_map
    else if type == 13
    then packet_out_map
    else if type == 14
    then flow_mod_map
    else if type == 15
    then port_mod_map
    else if type == 16
    then stats_request_map
    else if type == 17
    then stats_reply_map
    else if type == 18
    then barrier_request_map
    else if type == 19
    then barrier_reply_map
    else if type == 20
    then queue_get_config_request_map
    else if type == 21
    then queue_get_config_reply_map
    else []

-- the loop over the rows, which ends at an error number that is 0
unfoldable pub find_error : List ErrorRow → MessageError → Option (ℕ × ℕ)
unfolding error_no
find_error [] e = none
find_error ((row_error, type, code) ∷ rows) e =
    let rest = find_error rows e in
    if error_no row_error == 0
    then none
    else if error_no e == error_no row_error
    then some (type, code)
    else rest

-- the type and the code of the OpenFlow error; none stands for false
unfoldable pub get_error_type_and_code : ℕ → MessageError → Option (ℕ × ℕ)
unfolding error_maps find_error
get_error_type_and_code type e =
    if ltb 21 type
    then some (ofpet_bad_request, ofpbrc_bad_type)
    else find_error (error_maps type) e
