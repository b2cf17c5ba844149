-- ===== src/Create/Flows.antt =====
-- src/lib/openflow_message.c: the messages with a list of actions.
use trema.Base.{
  ℕ, ◌+◌, ◌%◌, ◌^◌, Option, none, some, List, [], ◌∷◌, length, take, ltb, ◌==◌, ◌&&◌, if◌then◌else◌,
}
use trema.OpenFlow.{Match}
use trema.Create.{◌>>=◌, put16, put32, put64, create_header, hton_match}
use trema.Create.ActionList.{Action, OpenflowActions, len_of, hton_action}

-- the loop of `get_actions_length`
unfoldable pub sum_lengths : List Action → ℕ
unfolding len_of
sum_lengths [] = 0
sum_lengths (a ∷ as') = len_of a + sum_lengths as'

-- `none` when the assertion on the sum fails
unfoldable pub get_actions_length : OpenflowActions → Option ℕ
unfolding sum_lengths
get_actions_length actions =
    let actions_length = sum_lengths actions.list in
    if ltb 0xffff actions_length then none else some actions_length

-- the loop that writes the actions
unfoldable pub write_actions : List Action → List ℕ → List ℕ
unfolding hton_action
write_actions [] rest = rest
write_actions (a ∷ as') rest = hton_action a (write_actions as' rest)

-- The bytes are written to a block of `size`, cut to 16 bits; `none` when they do not fill just it.
unfoldable pub in_block : (size : ℕ) → List ℕ → Option (List ℕ)
in_block size bytes = if length bytes == size % 2 ^ 16 then some bytes else none

-- the bytes in front of the actions
unfoldable pub packet_out_fields :
    (transaction_id buffer_id in_port actions_length data_length : ℕ) → List ℕ → List ℕ
packet_out_fields transaction_id buffer_id in_port actions_length data_length rest =
    create_header transaction_id 13 (16 + actions_length + data_length)
      (put32 buffer_id (put16 in_port (put16 actions_length rest)))

-- The process ends for a frame that is missing or short.
unfoldable pub create_packet_out :
    (transaction_id buffer_id in_port : ℕ) → OpenflowActions → List ℕ → Option (List ℕ)
unfolding get_actions_length in_block packet_out_fields write_actions
create_packet_out transaction_id buffer_id in_port actions bytes =
    if buffer_id == 0xffffffff && ltb (length bytes + 4) 64 then none else do
      actions_length ← get_actions_length actions
      let frame = take (length bytes % 2 ^ 16) bytes
      in_block (16 + actions_length + length frame) (
          packet_out_fields transaction_id buffer_id in_port actions_length (length frame)
            (write_actions actions.list frame))

-- the arguments of `create_flow_mod` but for the match and the actions
pub record FlowMod : Type 0 where
  pub transaction_id : ℕ
  pub cookie : ℕ
  pub command : ℕ
  pub idle_timeout : ℕ
  pub hard_timeout : ℕ
  pub priority : ℕ
  pub buffer_id : ℕ
  pub out_port : ℕ
  pub flags : ℕ

-- the bytes in front of the actions
unfoldable pub flow_mod_fields : FlowMod → Match → (actions_length : ℕ) → List ℕ → List ℕ
flow_mod_fields f match actions_length rest =
    create_header f.transaction_id 14 (72 + actions_length) (
      hton_match match (
        put64 f.cookie (
          put16 f.command (
            put16 f.idle_timeout (
              put16 f.hard_timeout
                (put16 f.priority (put32 f.buffer_id (put16 f.out_port (put16 f.flags rest)))))))))

unfoldable pub create_flow_mod : FlowMod → Match → OpenflowActions → Option (List ℕ)
unfolding get_actions_length in_block flow_mod_fields write_actions
create_flow_mod f match actions = do
  actions_length ← get_actions_length actions
  in_block (72 + actions_length)
      (flow_mod_fields f match actions_length (write_actions actions.list []))
