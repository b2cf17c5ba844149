-- ===== src/Message/Fields.antt =====
-- src/lib/openflow_message.c: which ports and which matches the checks accept.
use trema.Base.{
  ℕ, zero, suc, ◌+◌, ◌*◌, ◌/◌, ◌%◌, ◌^◌, ◌<◌, ◌≡◌, ◌≢◌, ◌-◌, ◌↔◌, refl, true, false, ◌||◌, none,
  ◌==◌, ltb, if◌then◌else◌, arith,
}
use trema.Bits.Masks.{and-high_mask, and_fffffcfe}
use trema.OpenFlow.{Match}
use trema.Actions.{or_next, ntohs_at, byte}
use trema.Actions.Ranges.{is_port, phy_port-is_port, vlan_vid-range, vlan_pcp-range, nw_tos-range}
use trema.Actions.Checks.{or_next-none}
use trema.Message.{Message, ntohl_at, has_other_bits, header_length, validate_header, uint16_max}
use trema.Message.Framing.{Framed, validate_header-Framed}
use trema.Message.Ports.{
  PhyPort, port_config, port_state, port_features, ntoh_phy_port, validate_port_fields,
  validate_phy_port, validate_phy_ports, validate_features, validate_features_reply,
}
use trema.Message.Flows.{ntoh_match, validate_wildcards, validate_match}

config-range : (a : ℕ) → a < 2 ^ 32 → (has_other_bits a port_config ≡ false) ↔ (a < 2 ^ 7)
unfolding has_other_bits
config-range a h = ground (arith, and-high_mask 7 25 a h)

features-range : (a : ℕ) → a < 2 ^ 32 → (has_other_bits a port_features ≡ false) ↔ (a < 2 ^ 12)
unfolding has_other_bits
features-range a h = ground (arith, and-high_mask 12 20 a h)

state-range :
    (a : ℕ) → a < 2 ^ 32 → (has_other_bits a port_state ≡ false) ↔ ((a % 256 < 2) × (a < 1024))
unfolding has_other_bits
state-range a h = ground (arith, and_fffffcfe a h)

wildcards-range : (a : ℕ) → a < 2 ^ 32 → (validate_wildcards a ≡ none) ↔ (a < 2 ^ 22)
unfolding validate_wildcards has_other_bits
wildcards-range a h = ground (arith, and-high_mask 22 10 a h)

-- OpenFlow 1.0: a port number that is not reserved, and the flags that are defined
pub record IsPhyPort (p : PhyPort) : Type 0 where
  pub number : is_port p.port_no ≡ true
  pub config : p.config < 2 ^ 7
  pub link : p.state % 256 < 2
  pub stp : p.state < 1024
  pub curr : p.curr < 2 ^ 12
  pub advertised : p.advertised < 2 ^ 12
  pub supported : p.supported < 2 ^ 12
  pub peer : p.peer < 2 ^ 12

ntohl-range : (b : ℕ → ℕ) (o : ℕ) → ntohl_at b o < 2 ^ 32
ntohl-range b o = omega arith

-- `validate_phy_port` accepts a port just when its number is not 0 and not reserved, and its
-- configuration, state and features have only the bits that OpenFlow 1.0 defines.
pub validate_phy_port-accepts :
    (b : ℕ → ℕ) (o : ℕ) → (validate_phy_port b o ≡ none) ↔ IsPhyPort (ntoh_phy_port b o)
unfolding validate_phy_port validate_port_fields ntoh_phy_port or_next
validate_phy_port-accepts b o = ground (
  arith,
  phy_port-is_port (ntohs_at b o),
  config-range (ntohl_at b (o + 24)) (ntohl-range b (o + 24)),
  state-range (ntohl_at b (o + 28)) (ntohl-range b (o + 28)),
  features-range (ntohl_at b (o + 32)) (ntohl-range b (o + 32)),
  features-range (ntohl_at b (o + 36)) (ntohl-range b (o + 36)),
  features-range (ntohl_at b (o + 40)) (ntohl-range b (o + 40)),
  features-range (ntohl_at b (o + 44)) (ntohl-range b (o + 44)),
)

-- OpenFlow 1.0: the values that the fields of a match may have
pub record IsMatch (m : Match) : Type 0 where
  pub wildcards : m.wildcards < 2 ^ 22
  pub dl_vlan : (m.dl_vlan == 0xffff || ltb m.dl_vlan 4096) ≡ true
  pub dl_vlan_pcp : m.dl_vlan_pcp < 8
  pub nw_tos : m.nw_tos % 4 ≡ 0

-- `validate_match` accepts a match that was read from a message just when its wildcards are below
-- 2 ^ 22, its VLAN id is 65535 or has 12 bits, its VLAN priority 3 bits, and the two low bits of its
-- type of service are 0.
pub validate_match-accepts :
    (b : ℕ → ℕ) (o : ℕ) → (validate_match (ntoh_match b o) ≡ none) ↔ IsMatch (ntoh_match b o)
unfolding validate_match ntoh_match or_next
validate_match-accepts b o = ground (
  arith,
  wildcards-range (ntohl_at b o) (ntohl-range b o),
  vlan_vid-range (ntohs_at b (o + 18)) (omega arith),
  vlan_pcp-range (byte b (o + 20)) (omega arith),
  nw_tos-range (byte b (o + 24)),
)

module _ (b : ℕ → ℕ) where
  -- The ports at the places 48 bytes apart, a number of them from one on.
  abbrev pub ArePhyPorts : (o n : ℕ) → Type 0
  ArePhyPorts o n = (i : ℕ) → i < n → IsPhyPort (ntoh_phy_port b (o + 48 * i))

  first_port : (o n : ℕ) → ArePhyPorts o (suc n) → IsPhyPort (ntoh_phy_port b o)
  first_port o n f = let place : o + 48 * 0 ≡ o = omega arith in rw (← place) (f 0 (omega arith))

  later_ports : (o n : ℕ) → ArePhyPorts o (suc n) → ArePhyPorts (o + 48) n
  later_ports o n f i l =
      let place : o + 48 + 48 * i ≡ o + 48 * suc i = omega arith in
      rw place (f (suc i) (omega arith))

  add_port :
      (o n : ℕ) → IsPhyPort (ntoh_phy_port b o) → ArePhyPorts (o + 48) n → ArePhyPorts o (suc n)
  add_port o n p f zero l = let place : o + 48 * 0 ≡ o = omega arith in rw place p
  add_port o n p f (suc i) l =
      let place : o + 48 * suc i ≡ o + 48 + 48 * i = omega arith in rw place (f i (omega arith))

  pub phy_ports-accepts : (o n : ℕ) → (validate_phy_ports b o n ≡ none) ↔ ArePhyPorts o n
  unfolding validate_phy_ports
  phy_ports-accepts o zero = ((λ e i l. absurd (omega arith)), λ f. refl)
  phy_ports-accepts o (suc n) =
      let next = or_next-none (validate_phy_port b o) (validate_phy_ports b (o + 48) n) in
      let first = validate_phy_port-accepts b o in
      let later = phy_ports-accepts (o + 48) n in
      (
        λ e. add_port o n (first.0 (next.0 e).0) (later.0 (next.0 e).1),
        λ f. next.1 (first.1 (first_port o n f), later.1 (later_ports o n f)),
      )

  all_ports :
      (left : ℕ)
      → (if ltb 0 left then validate_phy_ports b 32 (left / 48) else none)
        ≡ validate_phy_ports b 32 (left / 48)
  unfolding validate_phy_ports
  all_ports zero = refl
  all_ports (suc left) = ground arith

  features-accepts :
      (left : ℕ)
      → (validate_features b left ≡ none)
        ↔ ((byte b 20 ≢ 0) × (left % 48 ≡ 0) × ArePhyPorts 32 (left / 48))
  unfolding validate_features
  features-accepts left =
      let same = all_ports left in
      let ports = phy_ports-accepts 32 (left / 48) in rw same (ground (arith, ports))

-- `validate_features_reply` accepts a message just when its header is one of a features reply of 32
-- bytes at least, it has a table, and the bytes behind offset 32 are whole ports of 48 bytes, each of
-- which `validate_phy_port` accepts.
pub validate_features_reply-accepts :
    (m : Message)
    → (validate_features_reply m ≡ none) ↔ (
        Framed m 6 32 0xffff
        × (byte m.bytes 20 ≢ 0)
        × ((m.length - 32) % 48 ≡ 0)
        × ArePhyPorts m.bytes 32 ((m.length - 32) / 48))
unfolding validate_features_reply
validate_features_reply-accepts m =
    let left = (header_length m + 2 ^ 16 - 32) % 2 ^ 16 in
    let next = or_next-none (validate_header m 6 32 uint16_max) (validate_features m.bytes left) in
    let header = validate_header-Framed m 6 32 uint16_max (ground arith) (ground arith) in
    let body = features-accepts m.bytes left in
    let length : Framed m 6 32 0xffff → left ≡ m.length - 32 =
      λ f. omega (arith, f.same_length, f.above, f.below) in
    (
      λ e.
          let framed = header.0 (next.0 e).0 in
          let ports = body.0 (next.0 e).1 in
          (framed, ports.0, rw (← length framed) (ports.1), rw (← length framed) (ports.2)),
      λ (framed, tables, whole, ports).
          next.1
            (header.1 framed, body.1 (tables, rw (length framed) whole, rw (length framed) ports)),
    )
