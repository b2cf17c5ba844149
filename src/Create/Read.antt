-- ===== src/Create/Read.antt =====
-- src/lib/byteorder.c: what is read from the bytes that were written.
use trema.Base.{ℕ, ◌%◌, ◌^◌, ◌<◌, ◌≡◌, List, [], arith}
use trema.OpenFlow.{Mac, Match}
use trema.Message.{ntohl_at}
use trema.Actions.{ntohs_at}
use trema.Message.Ports.{PhyPort, ntoh_phy_port}
use trema.Message.Flows.{mac_at, ntoh_match}
use trema.Create.{put16, put32, put_mac, at, hton_match}
use trema.Create.Switch.{NamedPort, hton_phy_port}

pub record IsMac (m : Mac) : Type 0 where
  pub b₀ : m.b₀ < 2 ^ 8
  pub b₁ : m.b₁ < 2 ^ 8
  pub b₂ : m.b₂ < 2 ^ 8
  pub b₃ : m.b₃ < 2 ^ 8
  pub b₄ : m.b₄ < 2 ^ 8
  pub b₅ : m.b₅ < 2 ^ 8

-- The fields have the widths of `struct ofp_match`.
pub record HasWidths (m : Match) : Type 0 where
  pub wildcards : m.wildcards < 2 ^ 32
  pub in_port : m.in_port < 2 ^ 16
  pub dl_src : IsMac m.dl_src
  pub dl_dst : IsMac m.dl_dst
  pub dl_vlan : m.dl_vlan < 2 ^ 16
  pub dl_vlan_pcp : m.dl_vlan_pcp < 2 ^ 8
  pub dl_type : m.dl_type < 2 ^ 16
  pub nw_tos : m.nw_tos < 2 ^ 8
  pub nw_proto : m.nw_proto < 2 ^ 8
  pub nw_src : m.nw_src < 2 ^ 32
  pub nw_dst : m.nw_dst < 2 ^ 32
  pub tp_src : m.tp_src < 2 ^ 16
  pub tp_dst : m.tp_dst < 2 ^ 16

read8 : (x : ℕ) → x < 2 ^ 8 → x % 256 % 256 ≡ x
read8 x h = omega arith

pub read16 : (x : ℕ) (rest : List ℕ) → x < 2 ^ 16 → ntohs_at (at (put16 x rest)) 0 ≡ x
read16 x rest h = omega arith

pub read32 : (x : ℕ) (rest : List ℕ) → x < 2 ^ 32 → ntohl_at (at (put32 x rest)) 0 ≡ x
read32 x rest h = omega arith

pub read_mac : (m : Mac) (rest : List ℕ) → IsMac m → mac_at (at (put_mac m rest)) 0 ≡ m
unfolding mac_at
read_mac m rest r = rw (
  read8 m.b₀ r.b₀,
  read8 m.b₁ r.b₁,
  read8 m.b₂ r.b₂,
  read8 m.b₃ r.b₃,
  read8 m.b₄ r.b₄,
  read8 m.b₅ r.b₅,
)

-- `ntoh_match` reads the match that `hton_match` wrote, when its fields have the widths of
-- `struct ofp_match`.
pub ntoh_match-hton_match :
    (m : Match) (rest : List ℕ) → HasWidths m → ntoh_match (at (hton_match m rest)) 0 ≡ m
unfolding ntoh_match hton_match
ntoh_match-hton_match m rest r = rw (
  read32 m.wildcards [] r.wildcards,
  read16 m.in_port [] r.in_port,
  read16 m.dl_vlan [] r.dl_vlan,
  read8 m.dl_vlan_pcp r.dl_vlan_pcp,
  read16 m.dl_type [] r.dl_type,
  read8 m.nw_tos r.nw_tos,
  read8 m.nw_proto r.nw_proto,
  read32 m.nw_src [] r.nw_src,
  read32 m.nw_dst [] r.nw_dst,
  read16 m.tp_src [] r.tp_src,
  read16 m.tp_dst [] r.tp_dst,
  read_mac m.dl_src [] r.dl_src,
  read_mac m.dl_dst [] r.dl_dst,
)

-- The checked fields have the widths of `struct ofp_phy_port`.
pub record PortWidths (p : PhyPort) : Type 0 where
  pub port_no : p.port_no < 2 ^ 16
  pub config : p.config < 2 ^ 32
  pub state : p.state < 2 ^ 32
  pub curr : p.curr < 2 ^ 32
  pub advertised : p.advertised < 2 ^ 32
  pub supported : p.supported < 2 ^ 32
  pub peer : p.peer < 2 ^ 32

pub ntoh_phy_port-hton_phy_port :
    (p : NamedPort) (rest : List ℕ)
    → PortWidths p.fields
    → ntoh_phy_port (at (hton_phy_port p rest)) 0 ≡ p.fields
unfolding ntoh_phy_port hton_phy_port
ntoh_phy_port-hton_phy_port p rest r = rw (
  read16 p.fields.port_no [] r.port_no,
  read32 p.fields.config [] r.config,
  read32 p.fields.state [] r.state,
  read32 p.fields.curr [] r.curr,
  read32 p.fields.advertised [] r.advertised,
  read32 p.fields.supported [] r.supported,
  read32 p.fields.peer [] r.peer,
)
