-- ===== src/Actions/Checks.antt =====
-- src/lib/openflow_message.c: which actions `validate_action` accepts.
use trema.Base.{
  ℕ, zero, suc, ◌%◌, ◌^◌, ◌≤◌, ◌<◌, ◌≡◌, ◌↔◌, refl, Bool, true, false, ◌&&◌, ◌||◌, Option, none,
  some, ◌==◌, ltb, leb, if◌then◌else◌, arith, Bool-cases, inl, inr,
}
use trema.Actions.Ranges.{is_port, phy_port-is_port, vlan_vid-range, vlan_pcp-range, nw_tos-range}
use trema.Actions.{
  MessageError, undefined_action_type, too_short_action_output, too_long_action_output,
  too_short_action_vlan_vid, too_long_action_vlan_vid, too_short_action_vlan_pcp,
  too_long_action_vlan_pcp, too_short_action_strip_vlan, too_long_action_strip_vlan,
  too_short_action_dl_src, too_long_action_dl_src, too_short_action_dl_dst, too_long_action_dl_dst,
  too_short_action_nw_src, too_long_action_nw_src, too_short_action_nw_dst, too_long_action_nw_dst,
  too_short_action_nw_tos, too_long_action_nw_tos, too_short_action_tp_src, too_long_action_tp_src,
  too_short_action_tp_dst, too_long_action_tp_dst, too_short_action_enqueue,
  too_long_action_enqueue, action_type, action_len, action_arg16, action_arg8, or_next,
  validate_phy_port_no, validate_vlan_vid, validate_vlan_pcp, validate_nw_tos, check_header,
  validate_action_output, validate_action_set_vlan_vid, validate_action_set_vlan_pcp,
  validate_action_strip_vlan, validate_action_set_dl_src, validate_action_set_dl_dst,
  validate_action_set_nw_src, validate_action_set_nw_dst, validate_action_set_nw_tos,
  validate_action_set_tp_src, validate_action_set_tp_dst, validate_action_enqueue,
  validate_action_vendor, validate_by_type, validate_action,
}

-- OpenFlow 1.0: the size of each action, and the values of its field
unfoldable pub size_of_action : ℕ → ℕ
size_of_action type = if type == 4 || type == 5 || type == 11 then 16 else 8

unfoldable pub is_argument : (type arg16 arg8 : ℕ) → Bool
is_argument type arg16 arg8 =
    if type == 0 || type == 11
    then is_port arg16
    else if type == 1
    then arg16 == 0xffff || ltb arg16 4096
    else if type == 2
    then ltb arg8 8
    else if type == 8
    then arg8 % 4 == 0
    else true

unfoldable pub is_action : (type len arg16 arg8 : ℕ) → Bool
unfolding size_of_action is_argument
is_action type len arg16 arg8 =
    if type == 0xffff
    then leb 8 len && len % 8 == 0
    else ltb type 12 && len == size_of_action type && is_argument type arg16 arg8

-- Every action has a length that is a multiple of 8, and not 0.
pub is_action-length :
    (type len arg16 arg8 : ℕ) → is_action type len arg16 arg8 ≡ true → (8 ≤ len) × (len % 8 ≡ 0)
unfolding is_action size_of_action
is_action-length type len arg16 arg8 h = ground arith

pub or_next-none : (a c : Option MessageError) → (or_next a c ≡ none) ↔ ((a ≡ none) × (c ≡ none))
unfolding or_next
or_next-none none c = ((λ h. (refl, h)), λ h. h.1)
or_next-none (some e) c = ((λ h. absurd (ground arith)), λ h. h.0)

check_header-size :
    (type len expected size : ℕ) (short long : MessageError)
    → (check_header type len expected size short long ≡ none) ↔ ((type ≡ expected) × (len ≡ size))
unfolding check_header
check_header-size type len expected size short long = ground arith

arg16-range : (b : ℕ → ℕ) (o : ℕ) → action_arg16 b o < 2 ^ 16
unfolding action_arg16
arg16-range b o = omega arith

arg8-range : (b : ℕ → ℕ) (o : ℕ) → action_arg8 b o < 2 ^ 8
unfolding action_arg8
arg8-range b o = omega arith

module _ (b : ℕ → ℕ) (o : ℕ) where
  -- What the switch runs for a type accepts the actions of that type.
  abbrev Decides : ℕ → Option MessageError → Type 0
  Decides type result =
      action_type b o ≡ type
      → (result ≡ none)
        ↔ (is_action type (action_len b o) (action_arg16 b o) (action_arg8 b o) ≡ true)

  output-Decides : Decides 0 (validate_action_output b o)
  unfolding validate_action_output is_action size_of_action is_argument
  output-Decides e = ground (
    arith,
    or_next-none
        (check_header (action_type b o) (action_len b o) 0 8 too_short_action_output
          too_long_action_output)
        (validate_phy_port_no (action_arg16 b o)),
    check_header-size (action_type b o) (action_len b o) 0 8 too_short_action_output
        too_long_action_output,
    phy_port-is_port (action_arg16 b o),
  )

  set_vlan_vid-Decides : Decides 1 (validate_action_set_vlan_vid b o)
  unfolding validate_action_set_vlan_vid is_action size_of_action is_argument
  set_vlan_vid-Decides e = ground (
    arith,
    or_next-none
        (check_header (action_type b o) (action_len b o) 1 8 too_short_action_vlan_vid
          too_long_action_vlan_vid)
        (validate_vlan_vid (action_arg16 b o)),
    check_header-size (action_type b o) (action_len b o) 1 8 too_short_action_vlan_vid
        too_long_action_vlan_vid,
    vlan_vid-range (action_arg16 b o) (arg16-range b o),
  )

  set_vlan_pcp-Decides : Decides 2 (validate_action_set_vlan_pcp b o)
  unfolding validate_action_set_vlan_pcp is_action size_of_action is_argument
  set_vlan_pcp-Decides e = ground (
    arith,
    or_next-none
        (check_header (action_type b o) (action_len b o) 2 8 too_short_action_vlan_pcp
          too_long_action_vlan_pcp)
        (validate_vlan_pcp (action_arg8 b o)),
    check_header-size (action_type b o) (action_len b o) 2 8 too_short_action_vlan_pcp
        too_long_action_vlan_pcp,
    vlan_pcp-range (action_arg8 b o) (arg8-range b o),
  )

  strip_vlan-Decides : Decides 3 (validate_action_strip_vlan b o)
  unfolding validate_action_strip_vlan is_action size_of_action is_argument
  strip_vlan-Decides e = ground (
    arith,
    check_header-size (action_type b o) (action_len b o) 3 8 too_short_action_strip_vlan
        too_long_action_strip_vlan,
  )

  set_dl_src-Decides : Decides 4 (validate_action_set_dl_src b o)
  unfolding validate_action_set_dl_src is_action size_of_action is_argument
  set_dl_src-Decides e = ground (
    arith,
    check_header-size (action_type b o) (action_len b o) 4 16 too_short_action_dl_src
        too_long_action_dl_src,
  )

  set_dl_dst-Decides : Decides 5 (validate_action_set_dl_dst b o)
  unfolding validate_action_set_dl_dst is_action size_of_action is_argument
  set_dl_dst-Decides e = ground (
    arith,
    check_header-size (action_type b o) (action_len b o) 5 16 too_short_action_dl_dst
        too_long_action_dl_dst,
  )

  set_nw_src-Decides : Decides 6 (validate_action_set_nw_src b o)
  unfolding validate_action_set_nw_src is_action size_of_action is_argument
  set_nw_src-Decides e = ground (
    arith,
    check_header-size (action_type b o) (action_len b o) 6 8 too_short_action_nw_src
        too_long_action_nw_src,
  )

  set_nw_dst-Decides : Decides 7 (validate_action_set_nw_dst b o)
  unfolding validate_action_set_nw_dst is_action size_of_action is_argument
  set_nw_dst-Decides e = ground (
    arith,
    check_header-size (action_type b o) (action_len b o) 7 8 too_short_action_nw_dst
        too_long_action_nw_dst,
  )

  set_nw_tos-Decides : Decides 8 (validate_action_set_nw_tos b o)
  unfolding validate_action_set_nw_tos is_action size_of_action is_argument
  set_nw_tos-Decides e = ground (
    arith,
    or_next-none
        (check_header (action_type b o) (action_len b o) 8 8 too_short_action_nw_tos
          too_long_action_nw_tos)
        (validate_nw_tos (action_arg8 b o)),
    check_header-size (action_type b o) (action_len b o) 8 8 too_short_action_nw_tos
        too_long_action_nw_tos,
    nw_tos-range (action_arg8 b o),
  )

  set_tp_src-Decides : Decides 9 (validate_action_set_tp_src b o)
  unfolding validate_action_set_tp_src is_action size_of_action is_argument
  set_tp_src-Decides e = ground (
    arith,
    check_header-size (action_type b o) (action_len b o) 9 8 too_short_action_tp_src
        too_long_action_tp_src,
  )

  set_tp_dst-Decides : Decides 10 (validate_action_set_tp_dst b o)
  unfolding validate_action_set_tp_dst is_action size_of_action is_argument
  set_tp_dst-Decides e = ground (
    arith,
    check_header-size (action_type b o) (action_len b o) 10 8 too_short_action_tp_dst
        too_long_action_tp_dst,
  )

  enqueue-Decides : Decides 11 (validate_action_enqueue b o)
  unfolding validate_action_enqueue is_action size_of_action is_argument
  enqueue-Decides e = ground (
    arith,
    or_next-none
        (check_header (action_type b o) (action_len b o) 11 16 too_short_action_enqueue
          too_long_action_enqueue)
        (validate_phy_port_no (action_arg16 b o)),
    check_header-size (action_type b o) (action_len b o) 11 16 too_short_action_enqueue
        too_long_action_enqueue,
    phy_port-is_port (action_arg16 b o),
  )

  vendor-Decides : Decides 0xffff (validate_action_vendor b o)
  unfolding validate_action_vendor is_action
  vendor-Decides e = ground arith

  by_type-other :
      (type : ℕ)
      → ltb type 12 ≡ false
      → (type == 0xffff) ≡ false
      → validate_by_type b o type ≡ some undefined_action_type
  unfolding validate_by_type
  by_type-other type h k = ground arith

  other-Decides : (type : ℕ) → ltb type 12 ≡ false → Decides type (validate_by_type b o type)
  unfolding validate_by_type is_action
  other-Decides type h e = elim (Bool-cases (type == 0xffff)) [
    | inl y ↦ ground (arith, vendor-Decides, y)
    | inr y ↦ rw (by_type-other type h y) ground arith
  ]

  by_type-Decides : (type : ℕ) → Decides type (validate_by_type b o type)
  unfolding validate_by_type
  by_type-Decides zero = output-Decides
  by_type-Decides (suc zero) = set_vlan_vid-Decides
  by_type-Decides (suc (suc zero)) = set_vlan_pcp-Decides
  by_type-Decides (suc (suc (suc zero))) = strip_vlan-Decides
  by_type-Decides (suc (suc (suc (suc zero)))) = set_dl_src-Decides
  by_type-Decides (suc (suc (suc (suc (suc zero))))) = set_dl_dst-Decides
  by_type-Decides (suc (suc (suc (suc (suc (suc zero)))))) = set_nw_src-Decides
  by_type-Decides (suc (suc (suc (suc (suc (suc (suc zero))))))) = set_nw_dst-Decides
  by_type-Decides (suc (suc (suc (suc (suc (suc (suc (suc zero)))))))) = set_nw_tos-Decides
  by_type-Decides (suc (suc (suc (suc (suc (suc (suc (suc (suc zero))))))))) = set_tp_src-Decides
  by_type-Decides (suc (suc (suc (suc (suc (suc (suc (suc (suc (suc zero)))))))))) =
      set_tp_dst-Decides
  by_type-Decides (suc (suc (suc (suc (suc (suc (suc (suc (suc (suc (suc zero))))))))))) =
      enqueue-Decides
  by_type-Decides (suc (suc (suc (suc (suc (suc (suc (suc (suc (suc (suc (suc n)))))))))))) =
      other-Decides (suc (suc (suc (suc (suc (suc (suc (suc (suc (suc (suc (suc n))))))))))))
        (ground arith)

  -- `validate_action` accepts an action just when its type is one of OpenFlow 1.0, its length is
  -- the one of the type (for a vendor action, a multiple of 8 that is not 0) and its field has a
  -- value that the type allows.
  pub validate_action-accepts :
      (validate_action b o ≡ none)
      ↔ (is_action (action_type b o) (action_len b o) (action_arg16 b o) (action_arg8 b o) ≡ true)
  unfolding validate_action
  validate_action-accepts = ground (
    arith,
    by_type-Decides (action_type b o) refl,
    is_action-length (action_type b o) (action_len b o) (action_arg16 b o) (action_arg8 b o),
  )
