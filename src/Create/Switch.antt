-- ===== src/Create/Switch.antt =====
-- src/lib/openflow_message.c: the messages with a list of ports, and `hton_phy_port` of
-- src/lib/byteorder.c.
use trema.Base.{
  ℕ, ◌+◌, ◌*◌, ◌%◌, ◌^◌, Option, none, some, List, [], ◌∷◌, length, ◌==◌, ltb, if◌then◌else◌,
}
use trema.OpenFlow.{Mac}
use trema.Message.Ports.{PhyPort}
use trema.Create.{put8, put16, put32, put64, zeros, put_mac, create_header}

-- `struct ofp_phy_port`: the checked fields, the hardware address and the name
pub record NamedPort : Type 0 where
  pub fields : PhyPort
  pub hw_addr : Mac
  pub name : ℕ → ℕ

abbrev pub put_name : (ℕ → ℕ) → List ℕ → List ℕ
put_name n rest = put8 (n 0) (
    put8 (n 1) (
      put8 (n 2) (
        put8 (n 3) (
          put8 (n 4) (
            put8 (n 5) (
              put8 (n 6) (
                put8 (n 7) (
                  put8 (n 8) (
                    put8 (n 9) (
                      put8 (n 10) (
                        put8 (n 11)
                          (put8 (n 12) (put8 (n 13) (put8 (n 14) (put8 (n 15) rest)))))))))))))))

-- `hton_phy_port`, which is `ntoh_phy_port`
unfoldable pub hton_phy_port : NamedPort → List ℕ → List ℕ
hton_phy_port p rest = put16 p.fields.port_no (
    put_mac p.hw_addr (
      put_name p.name (
        put32 p.fields.config (
          put32 p.fields.state (
            put32 p.fields.curr
              (put32 p.fields.advertised (put32 p.fields.supported (put32 p.fields.peer rest))))))))

-- the loop that writes the ports
unfoldable pub write_ports : List NamedPort → List ℕ
unfolding hton_phy_port
write_ports [] = []
write_ports (p ∷ ps) = hton_phy_port p (write_ports ps)

unfoldable pub write_features_reply :
    (transaction_id datapath_id n_buffers n_tables capabilities actions size : ℕ) → List ℕ → List ℕ
write_features_reply transaction_id datapath_id n_buffers n_tables capabilities actions size rest =
    create_header transaction_id 6 size (
      put64 datapath_id
        (put32 n_buffers (put8 n_tables (zeros 3 (put32 capabilities (put32 actions rest))))))

-- The number of ports has 16 bits. `none` when the length does not fit into 16 bits, so that the block
-- is too small for the ports.
unfoldable pub create_features_reply :
    (transaction_id datapath_id n_buffers n_tables capabilities actions : ℕ)
    → List NamedPort
    → Option (List ℕ)
unfolding write_ports write_features_reply
create_features_reply transaction_id datapath_id n_buffers n_tables capabilities actions ports =
    let write =
      write_features_reply transaction_id datapath_id n_buffers n_tables capabilities actions in
    if length ports % 2 ^ 16 == 0
    then some (write 32 [])
    else if ltb (32 + 48 * length ports) (2 ^ 16)
    then some (write (32 + 48 * length ports) (write_ports ports))
    else none

unfoldable pub create_port_status : (transaction_id reason : ℕ) → NamedPort → List ℕ
unfolding hton_phy_port
create_port_status transaction_id reason desc =
    create_header transaction_id 12 64 (put8 reason (zeros 7 (hton_phy_port desc [])))
