-- ===== src/Message/PacketOut.antt =====
-- src/lib/openflow_message.c: which errors of `validate_packet_out` its error map holds.
use trema.Base.{
  ℕ, zero, suc, ◌≡◌, refl, Bool, true, false, ◌||◌, Option, none, some, ltb, switch, arith, is_some,
}
use trema.Actions.{
  MessageError, error_no, invalid_action_type, too_short_action, undefined_action_type,
  invalid_vlan_vid, invalid_vlan_pcp, invalid_nw_tos, too_short_action_vendor,
  invalid_length_action_vendor, too_short_action_output, too_long_action_output,
  too_short_action_vlan_vid, too_long_action_vlan_vid, too_short_action_vlan_pcp,
  too_long_action_vlan_pcp, too_short_action_strip_vlan, too_long_action_strip_vlan,
  too_short_action_dl_src, too_long_action_dl_src, too_short_action_dl_dst, too_long_action_dl_dst,
  too_short_action_nw_src, too_long_action_nw_src, too_short_action_nw_dst, too_long_action_nw_dst,
  too_short_action_nw_tos, too_long_action_nw_tos, too_short_action_tp_src, too_long_action_tp_src,
  too_short_action_tp_dst, too_long_action_tp_dst, too_short_action_enqueue,
  too_long_action_enqueue, action_type, action_len, action_arg16, or_next, check_header,
  validate_phy_port_no, validate_vlan_vid, validate_vlan_pcp, validate_nw_tos,
  validate_action_output, validate_action_set_vlan_vid, validate_action_set_vlan_pcp,
  validate_action_strip_vlan, validate_action_set_dl_src, validate_action_set_dl_dst,
  validate_action_set_nw_src, validate_action_set_nw_dst, validate_action_set_nw_tos,
  validate_action_set_tp_src, validate_action_set_tp_dst, validate_action_enqueue,
  validate_action_vendor, validate_by_type, validate_action, validate_from, validate_actions,
}
use trema.Message.{Message}
use trema.Message.Flows.{validate_actions_at, validate_packet_out}
use trema.Message.ErrorMaps.{
  header_rows, action_rows, packet_out_map, error_maps, find_error, get_error_type_and_code,
}
use trema.Message.Errors.{
  Only, OnlyAny, none-Only, none-OnlyAny, if-OnlyAny, some-Only, if-Only, next-Only, fail_if-Only,
  some-OnlyAny, continue-OnlyAny, header-Only, phy_port_no-Only,
}

-- the two errors that the map lacks
unfoldable pub lacks_row : MessageError → Bool
lacks_row too_short_action = true
lacks_row invalid_nw_tos = true
lacks_row _ = false

-- An OpenFlow error reports the error for OFPT_PACKET_OUT, or it is one of the two.
abbrev Allowed : MessageError → Type 0
Allowed e = (is_some (find_error packet_out_map e) || lacks_row e) ≡ true

abbrev ActionErrors : Option MessageError → Type 0
ActionErrors = Only Allowed

next-errors :
    (a c : Option MessageError) → ActionErrors a → ActionErrors c → ActionErrors (or_next a c)
next-errors = next-Only Allowed

header-errors :
    (type len expected size : ℕ) (short long : MessageError)
    → Allowed short
    → Allowed long
    → ActionErrors (check_header type len expected size short long)
unfolding check_header find_error packet_out_map header_rows action_rows error_no lacks_row
header-errors type len expected size short long s l =
    if-Only _ _ _ _ (some-Only _ invalid_action_type refl)
      (if-Only _ _ _ _ (some-Only _ short s) (fail_if-Only _ _ long l))

port-errors : (port_no : ℕ) → ActionErrors (validate_phy_port_no port_no)
unfolding find_error packet_out_map header_rows action_rows error_no lacks_row
port-errors port_no = phy_port_no-Only _ port_no refl

module _ (b : ℕ → ℕ) (o : ℕ) where
  output-errors : ActionErrors (validate_action_output b o)
  unfolding validate_action_output find_error packet_out_map header_rows action_rows error_no
      lacks_row
  output-errors =
      next-errors _ _
        (header-errors (action_type b o) (action_len b o) 0 8 too_short_action_output
          too_long_action_output refl refl)
        (port-errors (action_arg16 b o))

  set_vlan_vid-errors : ActionErrors (validate_action_set_vlan_vid b o)
  unfolding validate_action_set_vlan_vid validate_vlan_vid find_error packet_out_map header_rows
      action_rows error_no lacks_row
  set_vlan_vid-errors =
      next-errors _ _
        (header-errors (action_type b o) (action_len b o) 1 8 too_short_action_vlan_vid
          too_long_action_vlan_vid refl refl)
        (fail_if-Only _ _ invalid_vlan_vid refl)

  set_vlan_pcp-errors : ActionErrors (validate_action_set_vlan_pcp b o)
  unfolding validate_action_set_vlan_pcp validate_vlan_pcp find_error packet_out_map header_rows
      action_rows error_no lacks_row
  set_vlan_pcp-errors =
      next-errors _ _
        (header-errors (action_type b o) (action_len b o) 2 8 too_short_action_vlan_pcp
          too_long_action_vlan_pcp refl refl)
        (fail_if-Only _ _ invalid_vlan_pcp refl)

  strip_vlan-errors : ActionErrors (validate_action_strip_vlan b o)
  unfolding validate_action_strip_vlan find_error packet_out_map header_rows action_rows error_no
      lacks_row
  strip_vlan-errors =
      header-errors (action_type b o) (action_len b o) 3 8 too_short_action_strip_vlan
        too_long_action_strip_vlan refl refl

  set_dl_src-errors : ActionErrors (validate_action_set_dl_src b o)
  unfolding validate_action_set_dl_src find_error packet_out_map header_rows action_rows error_no
      lacks_row
  set_dl_src-errors =
      header-errors (action_type b o) (action_len b o) 4 16 too_short_action_dl_src
        too_long_action_dl_src refl refl

  set_dl_dst-errors : ActionErrors (validate_action_set_dl_dst b o)
  unfolding validate_action_set_dl_dst find_error packet_out_map header_rows action_rows error_no
      lacks_row
  set_dl_dst-errors =
      header-errors (action_type b o) (action_len b o) 5 16 too_short_action_dl_dst
        too_long_action_dl_dst refl refl

  set_nw_src-errors : ActionErrors (validate_action_set_nw_src b o)
  unfolding validate_action_set_nw_src find_error packet_out_map header_rows action_rows error_no
      lacks_row
  set_nw_src-errors =
      header-errors (action_type b o) (action_len b o) 6 8 too_short_action_nw_src
        too_long_action_nw_src refl refl

  set_nw_dst-errors : ActionErrors (validate_action_set_nw_dst b o)
  unfolding validate_action_set_nw_dst find_error packet_out_map header_rows action_rows error_no
      lacks_row
  set_nw_dst-errors =
      header-errors (action_type b o) (action_len b o) 7 8 too_short_action_nw_dst
        too_long_action_nw_dst refl refl

  set_nw_tos-errors : ActionErrors (validate_action_set_nw_tos b o)
  unfolding validate_action_set_nw_tos validate_nw_tos find_error packet_out_map header_rows
      action_rows error_no lacks_row
  set_nw_tos-errors =
      next-errors _ _
        (header-errors (action_type b o) (action_len b o) 8 8 too_short_action_nw_tos
          too_long_action_nw_tos refl refl)
        (fail_if-Only _ _ invalid_nw_tos refl)

  set_tp_src-errors : ActionErrors (validate_action_set_tp_src b o)
  unfolding validate_action_set_tp_src find_error packet_out_map header_rows action_rows error_no
      lacks_row
  set_tp_src-errors =
      header-errors (action_type b o) (action_len b o) 9 8 too_short_action_tp_src
        too_long_action_tp_src refl refl

  set_tp_dst-errors : ActionErrors (validate_action_set_tp_dst b o)
  unfolding validate_action_set_tp_dst find_error packet_out_map header_rows action_rows error_no
      lacks_row
  set_tp_dst-errors =
      header-errors (action_type b o) (action_len b o) 10 8 too_short_action_tp_dst
        too_long_action_tp_dst refl refl

  enqueue-errors : ActionErrors (validate_action_enqueue b o)
  unfolding validate_action_enqueue find_error packet_out_map header_rows action_rows error_no
      lacks_row
  enqueue-errors =
      next-errors _ _
        (header-errors (action_type b o) (action_len b o) 11 16 too_short_action_enqueue
          too_long_action_enqueue refl refl)
        (port-errors (action_arg16 b o))

  vendor-errors : ActionErrors (validate_action_vendor b o)
  unfolding validate_action_vendor find_error packet_out_map header_rows action_rows error_no
      lacks_row
  vendor-errors = if-Only _ _ _ _ (some-Only _ invalid_action_type refl) (
      if-Only _ _ _ _ (some-Only _ too_short_action_vendor refl)
        (fail_if-Only _ _ invalid_length_action_vendor refl))

  by_type-errors : (t : ℕ) → ActionErrors (validate_by_type b o t)
  unfolding validate_by_type find_error packet_out_map header_rows action_rows error_no lacks_row
  by_type-errors t =
      (switch ActionErrors t 0 (λ _. output-errors)
        (switch ActionErrors t 1 (λ _. set_vlan_vid-errors)
          (switch ActionErrors t 2 (λ _. set_vlan_pcp-errors)
            (switch ActionErrors t 3 (λ _. strip_vlan-errors)
              (switch ActionErrors t 4 (λ _. set_dl_src-errors)
                (switch ActionErrors t 5 (λ _. set_dl_dst-errors)
                  (switch ActionErrors t 6 (λ _. set_nw_src-errors)
                    (switch ActionErrors t 7 (λ _. set_nw_dst-errors)
                      (switch ActionErrors t 8 (λ _. set_nw_tos-errors)
                        (switch ActionErrors t 9 (λ _. set_tp_src-errors)
                          (switch ActionErrors t 10 (λ _. set_tp_dst-errors)
                            (switch ActionErrors t 11 (λ _. enqueue-errors)
                              (switch ActionErrors t 0xffff (λ _. vendor-errors)
                                (some-Only _ undefined_action_type refl))))))))))))))

  action-errors : ActionErrors (validate_action b o)
  unfolding validate_action find_error packet_out_map header_rows action_rows error_no lacks_row
  action-errors =
      if-Only _ _ _ _ (some-Only _ too_short_action refl) (by_type-errors (action_type b o))

module _ (b : ℕ → ℕ) (length : ℕ) where
  from-errors : (fuel o : ℕ) → OnlyAny Allowed (validate_from fuel b length o)
  unfolding validate_from
  from-errors zero o = none-OnlyAny Allowed
  from-errors (suc fuel) o =
      if-OnlyAny Allowed (ltb o length) _ _
        (continue-OnlyAny Allowed (validate_action b o) _ (action-errors b o) (from-errors fuel _))
        (some-OnlyAny Allowed none (none-Only Allowed))

packet_out-errors : (fuel : ℕ) (m : Message) → OnlyAny Allowed (validate_packet_out fuel m)
unfolding validate_packet_out validate_actions_at validate_actions find_error packet_out_map
    header_rows action_rows error_no lacks_row
packet_out-errors fuel m =
    continue-OnlyAny Allowed _ _
      (next-errors _ _ (header-Only Allowed m 13 16 0xffff (refl, refl, refl, refl, refl))
        (port-errors _))
      (if-OnlyAny Allowed _ _ _ (from-errors _ _ fuel 0)
        (some-OnlyAny Allowed none (none-Only Allowed)))

-- For OFPT_PACKET_OUT, `get_error_type_and_code` finds an OpenFlow error for each error that
-- `validate_packet_out` returns but ERROR_TOO_SHORT_ACTION and ERROR_INVALID_NW_TOS.
pub validate_packet_out-reported :
    (fuel : ℕ) (m : Message) (e : MessageError)
    → validate_packet_out fuel m ≡ some (some e)
    → lacks_row e ≡ false
    → is_some (get_error_type_and_code 13 e) ≡ true
unfolding get_error_type_and_code error_maps
validate_packet_out-reported fuel m e h k = ground (arith, packet_out-errors fuel m e h)
