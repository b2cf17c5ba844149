-- ===== src/Actions.antt =====
-- src/lib/openflow_message.c: the checks of the actions in a message. A message is read through a
-- function from the place of a byte, counted from the first action, in network byte order. An
-- error code is a value of `MessageError`, and none stands for 0.
pub mod Ranges
pub mod Checks
pub mod Loop
pub mod Layout
use trema.Base.{
  ℕ, zero, suc, ◌+◌, ◌*◌, ◌%◌, ◌^◌, Bool, true, false, not, ◌&&◌, ◌||◌, Option, none, some, ◌==◌,
  ltb, if◌then◌else◌, bit_and,
}

pub data MessageError : Type 0 where
  unsupported_version invalid_length too_short_message too_long_message invalid_type undefined_type
        unsupported_type no_table_available invalid_port_no invalid_port_config invalid_port_state
        invalid_port_features invalid_switch_config invalid_packet_in_reason
        invalid_flow_removed_reason invalid_wildcards invalid_vlan_vid invalid_vlan_pcp
        invalid_nw_tos invalid_port_status_reason too_short_queue_description
        too_short_queue_property too_long_queue_property undefined_queue_property too_short_action
        undefined_action_type invalid_action_type too_short_action_output too_long_action_output
        too_short_action_vlan_vid too_long_action_vlan_vid too_short_action_vlan_pcp
        too_long_action_vlan_pcp too_short_action_strip_vlan too_long_action_strip_vlan
        too_short_action_dl_src too_long_action_dl_src too_short_action_dl_dst
        too_long_action_dl_dst too_short_action_nw_src too_long_action_nw_src
        too_short_action_nw_dst too_long_action_nw_dst too_short_action_nw_tos
        too_long_action_nw_tos too_short_action_tp_src too_long_action_tp_src
        too_short_action_tp_dst too_long_action_tp_dst too_short_action_enqueue
        too_long_action_enqueue too_short_action_vendor invalid_length_action_vendor
        unsupported_stats_type invalid_stats_reply_flags invalid_flow_priority
        invalid_flow_mod_flags invalid_port_mask invalid_stats_type invalid_stats_request_flags
        undefined_flow_mod_command unexpected_error :
      MessageError

-- the distance of an error number below 0; the values count up from -60, and the last of them is 0
unfoldable pub error_no : MessageError → ℕ
error_no unsupported_version = 60
error_no invalid_length = 59
error_no too_short_message = 58
error_no too_long_message = 57
error_no invalid_type = 56
error_no undefined_type = 55
error_no unsupported_type = 54
error_no no_table_available = 53
error_no invalid_port_no = 52
error_no invalid_port_config = 51
error_no invalid_port_state = 50
error_no invalid_port_features = 49
error_no invalid_switch_config = 48
error_no invalid_packet_in_reason = 47
error_no invalid_flow_removed_reason = 46
error_no invalid_wildcards = 45
error_no invalid_vlan_vid = 44
error_no invalid_vlan_pcp = 43
error_no invalid_nw_tos = 42
error_no invalid_port_status_reason = 41
error_no too_short_queue_description = 40
error_no too_short_queue_property = 39
error_no too_long_queue_property = 38
error_no undefined_queue_property = 37
error_no too_short_action = 36
error_no undefined_action_type = 35
error_no invalid_action_type = 34
error_no too_short_action_output = 33
error_no too_long_action_output = 32
error_no too_short_action_vlan_vid = 31
error_no too_long_action_vlan_vid = 30
error_no too_short_action_vlan_pcp = 29
error_no too_long_action_vlan_pcp = 28
error_no too_short_action_strip_vlan = 27
error_no too_long_action_strip_vlan = 26
error_no too_short_action_dl_src = 25
error_no too_long_action_dl_src = 24
error_no too_short_action_dl_dst = 23
error_no too_long_action_dl_dst = 22
error_no too_short_action_nw_src = 21
error_no too_long_action_nw_src = 20
error_no too_short_action_nw_dst = 19
error_no too_long_action_nw_dst = 18
error_no too_short_action_nw_tos = 17
error_no too_long_action_nw_tos = 16
error_no too_short_action_tp_src = 15
error_no too_long_action_tp_src = 14
error_no too_short_action_tp_dst = 13
error_no too_long_action_tp_dst = 12
error_no too_short_action_enqueue = 11
error_no too_long_action_enqueue = 10
error_no too_short_action_vendor = 9
error_no invalid_length_action_vendor = 8
error_no unsupported_stats_type = 7
error_no invalid_stats_reply_flags = 6
error_no invalid_flow_priority = 5
error_no invalid_flow_mod_flags = 4
error_no invalid_port_mask = 3
error_no invalid_stats_type = 2
error_no invalid_stats_request_flags = 1
error_no undefined_flow_mod_command = 0
error_no unexpected_error = 255

-- `return` of an error number, where none stands for 0
unfoldable pub return_error : MessageError → Option MessageError
unfolding error_no
return_error e = if error_no e == 0 then none else some e

-- a byte, and a 16-bit number in network byte order
abbrev pub byte : (ℕ → ℕ) → ℕ → ℕ
byte b i = b i % 256

abbrev pub ntohs_at : (ℕ → ℕ) → ℕ → ℕ
ntohs_at b i = byte b i * 256 + byte b (i + 1)

-- the fields of `struct ofp_action_header`
unfoldable pub action_type : (ℕ → ℕ) → ℕ → ℕ
action_type b o = ntohs_at b o

unfoldable pub action_len : (ℕ → ℕ) → ℕ → ℕ
action_len b o = ntohs_at b (o + 2)

-- a 16-bit field and an 8-bit field behind the header
unfoldable pub action_arg16 : (ℕ → ℕ) → ℕ → ℕ
action_arg16 b o = ntohs_at b (o + 4)

unfoldable pub action_arg8 : (ℕ → ℕ) → ℕ → ℕ
action_arg8 b o = byte b (o + 4)

-- `if ( ret < 0 ) { return ret; }`
unfoldable pub or_next : Option MessageError → Option MessageError → Option MessageError
or_next (some e) next = some e
or_next none next = next

unfoldable pub validate_phy_port_no : ℕ → Option MessageError
validate_phy_port_no port_no =
    if port_no == 0 || (ltb 0xff00 port_no && ltb port_no 0xfff8)
    then some invalid_port_no
    else none

unfoldable pub validate_vlan_vid : ℕ → Option MessageError
validate_vlan_vid vid =
    if not (vid == 0xffff) && not (bit_and vid 0xf000 == 0) then some invalid_vlan_vid else none

unfoldable pub validate_vlan_pcp : ℕ → Option MessageError
validate_vlan_pcp pcp = if not (bit_and pcp 0xf8 == 0) then some invalid_vlan_pcp else none

unfoldable pub validate_nw_tos : ℕ → Option MessageError
validate_nw_tos tos = if not (bit_and tos 0x03 == 0) then some invalid_nw_tos else none

-- the test of the type and the two tests of the length that the functions for actions start with
unfoldable pub check_header :
    (type len expected size : ℕ) → MessageError → MessageError → Option MessageError
check_header type len expected size too_short too_long =
    if not (type == expected)
    then some invalid_action_type
    else if ltb len size
    then some too_short
    else if ltb size len
    then some too_long
    else none

unfoldable pub validate_action_output : (ℕ → ℕ) → ℕ → Option MessageError
validate_action_output b o =
    or_next
      (check_header (action_type b o) (action_len b o) 0 8 too_short_action_output
        too_long_action_output)
      (validate_phy_port_no (action_arg16 b o))

unfoldable pub validate_action_set_vlan_vid : (ℕ → ℕ) → ℕ → Option MessageError
validate_action_set_vlan_vid b o =
    or_next
      (check_header (action_type b o) (action_len b o) 1 8 too_short_action_vlan_vid
        too_long_action_vlan_vid)
      (validate_vlan_vid (action_arg16 b o))

unfoldable pub validate_action_set_vlan_pcp : (ℕ → ℕ) → ℕ → Option MessageError
validate_action_set_vlan_pcp b o =
    or_next
      (check_header (action_type b o) (action_len b o) 2 8 too_short_action_vlan_pcp
        too_long_action_vlan_pcp)
      (validate_vlan_pcp (action_arg8 b o))

unfoldable pub validate_action_strip_vlan : (ℕ → ℕ) → ℕ → Option MessageError
validate_action_strip_vlan b o =
    check_header (action_type b o) (action_len b o) 3 8 too_short_action_strip_vlan
      too_long_action_strip_vlan

unfoldable pub validate_action_set_dl_src : (ℕ → ℕ) → ℕ → Option MessageError
validate_action_set_dl_src b o =
    check_header (action_type b o) (action_len b o) 4 16 too_short_action_dl_src
      too_long_action_dl_src

unfoldable pub validate_action_set_dl_dst : (ℕ → ℕ) → ℕ → Option MessageError
validate_action_set_dl_dst b o =
    check_header (action_type b o) (action_len b o) 5 16 too_short_action_dl_dst
      too_long_action_dl_dst

unfoldable pub validate_action_set_nw_src : (ℕ → ℕ) → ℕ → Option MessageError
validate_action_set_nw_src b o =
    check_header (action_type b o) (action_len b o) 6 8 too_short_action_nw_src
      too_long_action_nw_src

unfoldable pub validate_action_set_nw_dst : (ℕ → ℕ) → ℕ → Option MessageError
validate_action_set_nw_dst b o =
    check_header (action_type b o) (action_len b o) 7 8 too_short_action_nw_dst
      too_long_action_nw_dst

unfoldable pub validate_action_set_nw_tos : (ℕ → ℕ) → ℕ → Option MessageError
validate_action_set_nw_tos b o =
    or_next
      (check_header (action_type b o) (action_len b o) 8 8 too_short_action_nw_tos
        too_long_action_nw_tos)
      (validate_nw_tos (action_arg8 b o))

unfoldable pub validate_action_set_tp_src : (ℕ → ℕ) → ℕ → Option MessageError
validate_action_set_tp_src b o =
    check_header (action_type b o) (action_len b o) 9 8 too_short_action_tp_src
      too_long_action_tp_src

unfoldable pub validate_action_set_tp_dst : (ℕ → ℕ) → ℕ → Option MessageError
validate_action_set_tp_dst b o =
    check_header (action_type b o) (action_len b o) 10 8 too_short_action_tp_dst
      too_long_action_tp_dst

unfoldable pub validate_action_enqueue : (ℕ → ℕ) → ℕ → Option MessageError
validate_action_enqueue b o =
    or_next
      (check_header (action_type b o) (action_len b o) 11 16 too_short_action_enqueue
        too_long_action_enqueue)
      (validate_phy_port_no (action_arg16 b o))

unfoldable pub validate_action_vendor : (ℕ → ℕ) → ℕ → Option MessageError
validate_action_vendor b o =
    let len = action_len b o in
    if not (action_type b o == 0xffff)
    then some invalid_action_type
    else if ltb len 8
    then some too_short_action_vendor
    else if not (len % 8 == 0)
    then some invalid_length_action_vendor
    else none

-- the switch on the type
unfoldable pub validate_by_type : (ℕ → ℕ) → ℕ → ℕ → Option MessageError
validate_by_type b o type =
    if type == 0
    then validate_action_output b o
    else if type == 1
    then validate_action_set_vlan_vid b o
    else if type == 2
    then validate_action_set_vlan_pcp b o
    else if type == 3
    then validate_action_strip_vlan b o
    else if type == 4
    then validate_action_set_dl_src b o
    else if type == 5
    then validate_action_set_dl_dst b o
    else if type == 6
    then validate_action_set_nw_src b o
    else if type == 7
    then validate_action_set_nw_dst b o
    else if type == 8
    then validate_action_set_nw_tos b o
    else if type == 9
    then validate_action_set_tp_src b o
    else if type == 10
    then validate_action_set_tp_dst b o
    else if type == 11
    then validate_action_enqueue b o
    else if type == 0xffff
    then validate_action_vendor b o
    else some undefined_action_type

unfoldable pub validate_action : (ℕ → ℕ) → ℕ → Option MessageError
unfolding validate_by_type
validate_action b o =
    if ltb (action_len b o) 8 then some too_short_action else validate_by_type b o (action_type b o)

unfoldable pub or_continue :
    Option MessageError → Option (Option MessageError) → Option (Option MessageError)
or_continue (some e) rest = some (some e)
or_continue none rest = rest

-- the loop of `validate_actions`, at an `offset` of 16 bits; `none` when the fuel does not suffice
unfoldable pub validate_from : ℕ → (ℕ → ℕ) → (length offset : ℕ) → Option (Option MessageError)
unfolding validate_action or_continue
validate_from zero b length offset = none
validate_from (suc fuel) b length offset =
    let rest = validate_from fuel b length ((offset + action_len b offset) % 2 ^ 16) in
    if ltb offset length then or_continue (validate_action b offset) rest else some none

unfoldable pub validate_actions : ℕ → (ℕ → ℕ) → ℕ → Option (Option MessageError)
unfolding validate_from
validate_actions fuel b length = validate_from fuel b length 0
