-- ===== src/OpenFlow.antt =====
-- Constants of openflow.h, which the build takes from vendor/openflow-1.0.0.tar.gz, and the
-- structures of lib/ that hold a flow match.
use trema.Base.{ℕ, ◌*◌, ◌-◌, ◌^◌, List, [], ◌∷◌}

abbrev pub ofpfw_in_port : ℕ
ofpfw_in_port = 2 ^ 0

abbrev pub ofpfw_dl_vlan : ℕ
ofpfw_dl_vlan = 2 ^ 1

abbrev pub ofpfw_dl_src : ℕ
ofpfw_dl_src = 2 ^ 2

abbrev pub ofpfw_dl_dst : ℕ
ofpfw_dl_dst = 2 ^ 3

abbrev pub ofpfw_dl_type : ℕ
ofpfw_dl_type = 2 ^ 4

abbrev pub ofpfw_nw_proto : ℕ
ofpfw_nw_proto = 2 ^ 5

abbrev pub ofpfw_tp_src : ℕ
ofpfw_tp_src = 2 ^ 6

abbrev pub ofpfw_tp_dst : ℕ
ofpfw_tp_dst = 2 ^ 7

abbrev pub ofpfw_nw_src_mask : ℕ
ofpfw_nw_src_mask = 63 * 2 ^ 8

abbrev pub ofpfw_nw_dst_mask : ℕ
ofpfw_nw_dst_mask = 63 * 2 ^ 14

abbrev pub ofpfw_dl_vlan_pcp : ℕ
ofpfw_dl_vlan_pcp = 2 ^ 20

abbrev pub ofpfw_nw_tos : ℕ
ofpfw_nw_tos = 2 ^ 21

abbrev pub ofpfw_all : ℕ
ofpfw_all = 2 ^ 22 - 1

-- the six bytes of an Ethernet address
pub record Mac : Type 0 where
  pub b₀ : ℕ
  pub b₁ : ℕ
  pub b₂ : ℕ
  pub b₃ : ℕ
  pub b₄ : ℕ
  pub b₅ : ℕ

abbrev pub mac_bytes : Mac → List ℕ
mac_bytes m = m.b₀ ∷ m.b₁ ∷ m.b₂ ∷ m.b₃ ∷ m.b₄ ∷ m.b₅ ∷ []

-- `struct ofp_match` in host byte order
pub record Match : Type 0 where
  pub wildcards : ℕ
  pub in_port : ℕ
  pub dl_src : Mac
  pub dl_dst : Mac
  pub dl_vlan : ℕ
  pub dl_vlan_pcp : ℕ
  pub dl_type : ℕ
  pub nw_tos : ℕ
  pub nw_proto : ℕ
  pub nw_src : ℕ
  pub nw_dst : ℕ
  pub tp_src : ℕ
  pub tp_dst : ℕ
