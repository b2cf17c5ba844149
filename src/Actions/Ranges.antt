-- ===== src/Actions/Ranges.antt =====
-- src/lib/openflow_message.c: which values the checks of one field accept.
use trema.Base.{
  ℕ, ◌*◌, ◌/◌, ◌%◌, ◌^◌, ◌<◌, ◌≡◌, ◌↔◌, ap, Bool, true, not, ◌&&◌, ◌||◌, none, ◌==◌, ltb, leb,
  bit_and, arith,
}
use trema.Bits.{and_ones, and-zero}
use trema.Bits.Digits.{and-digit}
use trema.Actions.{validate_phy_port_no, validate_vlan_vid, validate_vlan_pcp, validate_nw_tos}

and_f8 : (x : ℕ) → x < 2 ^ 8 → bit_and x 0xf8 ≡ x / 8 * 8
and_f8 x h = omega (
  arith,
  and-digit x 0xf8,
  and-digit (x / 2) 0x7c,
  and-digit (x / 2 / 2) 0x3e,
  and_ones 5 (x / 2 / 2 / 2) (omega arith),
)

and_03 : (x : ℕ) → bit_and x 0x03 ≡ x % 4
and_03 x = omega (arith, and-digit x 3, and-digit (x / 2) 1, and-zero (x / 2 / 2))

and_double : (x m : ℕ) → bit_and x (m * 2) ≡ bit_and (x / 2) m * 2
and_double x m =
    let half : m * 2 / 2 ≡ m = omega arith in
    omega (arith, and-digit x (m * 2), ap (bit_and (x / 2)) half)

and_f000 : (x : ℕ) → x < 2 ^ 16 → bit_and x 0xf000 ≡ x / 4096 * 4096
and_f000 x h = omega (
  arith,
  and_double x 0x7800,
  and_double (x / 2) 0x3c00,
  and_double (x / 2 / 2) 0x1e00,
  and_double (x / 2 / 2 / 2) 0xf00,
  and_double (x / 2 / 2 / 2 / 2) 0x780,
  and_double (x / 2 / 2 / 2 / 2 / 2) 0x3c0,
  and_double (x / 2 / 2 / 2 / 2 / 2 / 2) 0x1e0,
  and_double (x / 2 / 2 / 2 / 2 / 2 / 2 / 2) 0xf0,
  and_double (x / 2 / 2 / 2 / 2 / 2 / 2 / 2 / 2) 0x78,
  and_double (x / 2 / 2 / 2 / 2 / 2 / 2 / 2 / 2 / 2) 0x3c,
  and_double (x / 2 / 2 / 2 / 2 / 2 / 2 / 2 / 2 / 2 / 2) 0x1e,
  and_double (x / 2 / 2 / 2 / 2 / 2 / 2 / 2 / 2 / 2 / 2 / 2) 0xf,
  and_ones 4 (x / 2 / 2 / 2 / 2 / 2 / 2 / 2 / 2 / 2 / 2 / 2 / 2) (omega arith),
)

-- the ports that an action may name
unfoldable pub is_port : ℕ → Bool
is_port p = not (p == 0) && (leb p 0xff00 || leb 0xfff8 p)

pub phy_port-is_port : (p : ℕ) → (validate_phy_port_no p ≡ none) ↔ (is_port p ≡ true)
unfolding validate_phy_port_no is_port
phy_port-is_port p = ground arith

pub vlan_vid-range :
    (v : ℕ) → v < 2 ^ 16 → (validate_vlan_vid v ≡ none) ↔ ((v == 0xffff || ltb v 4096) ≡ true)
unfolding validate_vlan_vid
vlan_vid-range v h = ground (arith, and_f000 v h)

pub vlan_pcp-range : (v : ℕ) → v < 2 ^ 8 → (validate_vlan_pcp v ≡ none) ↔ (ltb v 8 ≡ true)
unfolding validate_vlan_pcp
vlan_pcp-range v h = ground (arith, and_f8 v h)

pub nw_tos-range : (v : ℕ) → (validate_nw_tos v ≡ none) ↔ ((v % 4 == 0) ≡ true)
unfolding validate_nw_tos
nw_tos-range v = ground (arith, and_03 v)
