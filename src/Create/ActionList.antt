-- ===== src/Create/ActionList.antt =====
-- src/lib/openflow_message.c: lists of actions, and `hton_action` of src/lib/byteorder.c with the
-- functions that it calls. An action is the structure that `append_action_...` fills in: its
-- constructor stands for its type, and its length follows from it.
use trema.Base.{
  ℕ, ◌+◌, ◌%◌, ◌^◌, Option, none, some, List, [], ◌∷◌, ◌++◌, length, take, ◌==◌, if◌then◌else◌,
  bit_and,
}
use trema.OpenFlow.{Mac}
use trema.Create.{put8, put16, put32, zeros, put_mac}

pub data Action : Type 0 where
  output : (port max_len : ℕ) → Action
  set_vlan_vid : (vlan_vid : ℕ) → Action
  set_vlan_pcp : (vlan_pcp : ℕ) → Action
  strip_vlan : Action
  set_dl_src : Mac → Action
  set_dl_dst : Mac → Action
  set_nw_src : (nw_addr : ℕ) → Action
  set_nw_dst : (nw_addr : ℕ) → Action
  set_nw_tos : (nw_tos : ℕ) → Action
  set_tp_src : (tp_port : ℕ) → Action
  set_tp_dst : (tp_port : ℕ) → Action
  enqueue : (port queue_id : ℕ) → Action
  vendor : (vendor_id : ℕ) → List ℕ → Action

-- `len` of an action
unfoldable pub len_of : Action → ℕ
len_of (set_dl_src a) = 16
len_of (set_dl_dst a) = 16
len_of (enqueue p q) = 16
len_of (vendor v body) = (8 + length body) % 2 ^ 16
len_of _ = 8

unfoldable pub hton_action_output : (port max_len : ℕ) → List ℕ → List ℕ
hton_action_output port max_len rest = put16 0 (put16 8 (put16 port (put16 max_len rest)))

unfoldable pub hton_action_vlan_vid : ℕ → List ℕ → List ℕ
hton_action_vlan_vid vlan_vid rest = put16 1 (put16 8 (put16 vlan_vid (zeros 2 rest)))

unfoldable pub hton_action_vlan_pcp : ℕ → List ℕ → List ℕ
hton_action_vlan_pcp vlan_pcp rest = put16 2 (put16 8 (put8 vlan_pcp (zeros 3 rest)))

unfoldable pub hton_action_strip_vlan : List ℕ → List ℕ
hton_action_strip_vlan rest = put16 3 (put16 8 (zeros 4 rest))

unfoldable pub hton_action_dl_addr : (type : ℕ) → Mac → List ℕ → List ℕ
hton_action_dl_addr type dl_addr rest = put16 type (put16 16 (put_mac dl_addr (zeros 6 rest)))

unfoldable pub hton_action_nw_addr : (type nw_addr : ℕ) → List ℕ → List ℕ
hton_action_nw_addr type nw_addr rest = put16 type (put16 8 (put32 nw_addr rest))

unfoldable pub hton_action_nw_tos : ℕ → List ℕ → List ℕ
hton_action_nw_tos nw_tos rest = put16 8 (put16 8 (put8 nw_tos (zeros 3 rest)))

unfoldable pub hton_action_tp_port : (type tp_port : ℕ) → List ℕ → List ℕ
hton_action_tp_port type tp_port rest = put16 type (put16 8 (put16 tp_port (zeros 2 rest)))

unfoldable pub hton_action_enqueue : (port queue_id : ℕ) → List ℕ → List ℕ
hton_action_enqueue port queue_id rest =
    put16 11 (put16 16 (put16 port (zeros 6 (put32 queue_id rest))))

unfoldable pub hton_action_vendor : (vendor_id : ℕ) → List ℕ → List ℕ → List ℕ
hton_action_vendor vendor_id body rest =
    put16 0xffff (put16 (8 + length body) (put32 vendor_id (body ++ rest)))

unfoldable pub hton_action : Action → List ℕ → List ℕ
hton_action (output port max_len) rest = hton_action_output port max_len rest
hton_action (set_vlan_vid vlan_vid) rest = hton_action_vlan_vid vlan_vid rest
hton_action (set_vlan_pcp vlan_pcp) rest = hton_action_vlan_pcp vlan_pcp rest
hton_action strip_vlan rest = hton_action_strip_vlan rest
hton_action (set_dl_src a) rest = hton_action_dl_addr 4 a rest
hton_action (set_dl_dst a) rest = hton_action_dl_addr 5 a rest
hton_action (set_nw_src a) rest = hton_action_nw_addr 6 a rest
hton_action (set_nw_dst a) rest = hton_action_nw_addr 7 a rest
hton_action (set_nw_tos t) rest = hton_action_nw_tos t rest
hton_action (set_tp_src p) rest = hton_action_tp_port 9 p rest
hton_action (set_tp_dst p) rest = hton_action_tp_port 10 p rest
hton_action (enqueue port queue_id) rest = hton_action_enqueue port queue_id rest
hton_action (vendor v body) rest = hton_action_vendor v body rest

-- `openflow_actions`
pub record OpenflowActions : Type 0 where
  pub n_actions : ℕ
  pub list : List Action

unfoldable pub create_actions : OpenflowActions
create_actions = record { n_actions = 0; list = [] }

-- the end of each function that appends an action
unfoldable pub append_action : OpenflowActions → Action → OpenflowActions
append_action actions a = record {
  n_actions = actions.n_actions + 1;
  list = actions.list ++ (a ∷ []);
}

unfoldable pub append_action_output : OpenflowActions → (port max_len : ℕ) → Option OpenflowActions
append_action_output actions port max_len = some (append_action actions (output port max_len))

-- an assertion on the argument that fails gives none
unfoldable pub append_action_set_vlan_vid : OpenflowActions → ℕ → Option OpenflowActions
append_action_set_vlan_vid actions vlan_vid =
    if bit_and vlan_vid 0xf000 == 0
    then some (append_action actions (set_vlan_vid vlan_vid))
    else none

unfoldable pub append_action_set_vlan_pcp : OpenflowActions → ℕ → Option OpenflowActions
append_action_set_vlan_pcp actions vlan_pcp =
    if bit_and vlan_pcp 0xf8 == 0
    then some (append_action actions (set_vlan_pcp vlan_pcp))
    else none

unfoldable pub append_action_strip_vlan : OpenflowActions → Option OpenflowActions
append_action_strip_vlan actions = some (append_action actions strip_vlan)

unfoldable pub append_action_set_dl_src : OpenflowActions → Mac → Option OpenflowActions
append_action_set_dl_src actions a = some (append_action actions (set_dl_src a))

unfoldable pub append_action_set_dl_dst : OpenflowActions → Mac → Option OpenflowActions
append_action_set_dl_dst actions a = some (append_action actions (set_dl_dst a))

unfoldable pub append_action_set_nw_src : OpenflowActions → ℕ → Option OpenflowActions
append_action_set_nw_src actions a = some (append_action actions (set_nw_src a))

unfoldable pub append_action_set_nw_dst : OpenflowActions → ℕ → Option OpenflowActions
append_action_set_nw_dst actions a = some (append_action actions (set_nw_dst a))

unfoldable pub append_action_set_nw_tos : OpenflowActions → ℕ → Option OpenflowActions
append_action_set_nw_tos actions nw_tos =
    if bit_and nw_tos 0x03 == 0 then some (append_action actions (set_nw_tos nw_tos)) else none

unfoldable pub append_action_set_tp_src : OpenflowActions → ℕ → Option OpenflowActions
append_action_set_tp_src actions p = some (append_action actions (set_tp_src p))

unfoldable pub append_action_set_tp_dst : OpenflowActions → ℕ → Option OpenflowActions
append_action_set_tp_dst actions p = some (append_action actions (set_tp_dst p))

unfoldable pub append_action_enqueue :
    OpenflowActions → (port queue_id : ℕ) → Option OpenflowActions
append_action_enqueue actions port queue_id = some (append_action actions (enqueue port queue_id))

unfoldable pub append_action_vendor : OpenflowActions → ℕ → List ℕ → Option OpenflowActions
append_action_vendor actions v body =
    let body_length = length body % 2 ^ 16 in
    if body_length % 8 == 0
    then some (append_action actions (vendor v (take body_length body)))
    else none
