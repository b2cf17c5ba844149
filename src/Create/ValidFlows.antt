-- ===== src/Create/ValidFlows.antt =====
-- src/lib/openflow_message.c: the created flow modifications and packets out are accepted.
use trema.Base.{
  ◌&&◌, ℕ, ◌+◌, ◌-◌, ◌%◌, ◌^◌, ◌≤◌, ◌<◌, ◌≡◌, ◌⊎◌, inl, inr, ◌∙◌, refl, sym, ap, true, false, none,
  some, List, [], ◌∷◌, length, length-append, All, ltb, ◌==◌, arith,
}
use trema.OpenFlow.{Match}
use trema.Actions.{ntohs_at}
use trema.Actions.Ranges.{is_port}
use trema.Actions.Loop.{Walk}
use trema.Message.{behind, header_type, header_version, header_length, valid_message_version}
use trema.Message.Framing.{Framed}
use trema.Message.Fields.{IsMatch}
use trema.Message.Flows.{mac_at, ntoh_match, validate_packet_out, validate_flow_mod}
use trema.Message.Commands.{IsFlowMod, validate_packet_out-accepts, validate_flow_mod-accepts}
use trema.Create.Valid.{take_all}
use trema.Create.{message_of, at, create_header, hton_match}
use trema.Create.ActionList.{Action, OpenflowActions, hton_action}
use trema.Create.Flows.{
  sum_lengths, get_actions_length, write_actions, in_block, packet_out_fields, create_packet_out,
  FlowMod, flow_mod_fields, create_flow_mod,
}
use trema.Create.Read.{HasWidths, ntoh_match-hton_match, read16}
use trema.Create.ValidActions.{
  Holds, at_behind, IsHostAction, bytes_and_rest, length-hton_action, written_actions-Walk,
}

length-write_actions :
    (list : List Action) (rest : List ℕ)
    → All IsHostAction list
    → length (write_actions list rest) ≡ sum_lengths list + length rest
unfolding write_actions sum_lengths
length-write_actions [] rest all = omega arith
length-write_actions (a ∷ list) rest (valid, all) =
    let own = ap length (bytes_and_rest a (write_actions list rest)) in
    let two = length-append (hton_action a []) (write_actions list rest) in
    omega (arith, own, two, length-hton_action a valid, length-write_actions list rest all)

counted_length :
    (actions : OpenflowActions)
    → sum_lengths actions.list < 2 ^ 16
    → get_actions_length actions ≡ some (sum_lengths actions.list)
unfolding get_actions_length
counted_length actions h = ground arith

fits-in_block :
    (size : ℕ) (xs : List ℕ) → length xs ≡ size → size < 2 ^ 16 → in_block size xs ≡ some xs
unfolding in_block
fits-in_block size xs e h = ground arith

-- the arguments of `create_flow_mod` that make a valid message
pub record IsRequest (f : FlowMod) (match : Match) : Type 0 where
  pub command : f.command ≤ 4
  pub priority : f.priority < 2 ^ 16
  pub exact : match.wildcards ≡ 0 → f.priority ≡ 0xffff
  pub out_port : f.out_port < 2 ^ 16
  pub delete : (f.command ≡ 3) ⊎ (f.command ≡ 4) → is_port f.out_port ≡ true
  pub flags : f.flags < 8

module _ (f : FlowMod) (match : Match) (n : ℕ) (rest : List ℕ) where
  flow_mod_bytes : List ℕ
  flow_mod_bytes = flow_mod_fields f match n rest

  flow_mod-length : length flow_mod_bytes ≡ 72 + length rest
  unfolding flow_mod_bytes flow_mod_fields create_header hton_match
  flow_mod-length = omega arith

  flow_mod-Framed :
      n ≡ length rest → 72 + n < 2 ^ 16 → Framed (message_of flow_mod_bytes) 14 72 0xffff
  unfolding flow_mod_bytes flow_mod_fields create_header hton_match header_type header_version
      header_length valid_message_version
  flow_mod-Framed e h = record {
    of_type = refl;
    version = refl;
    same_length = omega arith;
    above = omega arith;
    below = omega arith;
  }

  flow_mod-match : HasWidths match → ntoh_match (at flow_mod_bytes) 8 ≡ match
  unfolding flow_mod_bytes flow_mod_fields create_header hton_match ntoh_match mac_at
  flow_mod-match w = ntoh_match-hton_match match [] w

  flow_mod-IsFlowMod : HasWidths match → IsRequest f match → IsFlowMod (message_of flow_mod_bytes)
  unfolding flow_mod_bytes flow_mod_fields create_header hton_match
  flow_mod-IsFlowMod w r =
      let command : ntohs_at (at flow_mod_bytes) 56 ≡ f.command =
        read16 f.command [] (omega (arith, r.command)) in
      let wildcards = ap (λ m. m.wildcards) (flow_mod-match w) in
      record {
        priority = λ e. read16 f.priority [] r.priority ∙ r.exact (sym wildcards ∙ e);
        out_port = λ c.
            rw (read16 f.out_port [] r.out_port)
              (r.delete (elim c [ inl e ↦ inl (sym command ∙ e) | inr e ↦ inr (sym command ∙ e) ]));
        flags = rw (read16 f.flags [] (omega (arith, r.flags))) r.flags;
      }

  flow_mod-command : IsRequest f match → ntohs_at (at flow_mod_bytes) 56 ≤ 4
  unfolding flow_mod_bytes flow_mod_fields create_header hton_match
  flow_mod-command r = rw (read16 f.command [] (omega (arith, r.command))) r.command

  flow_mod-Holds : Holds (behind (at flow_mod_bytes) 72) 0 rest
  unfolding flow_mod_bytes flow_mod_fields create_header hton_match
  flow_mod-Holds i =
      let place : 72 + (0 + i) ≡ 72 + i = omega arith in
      ap (at flow_mod_bytes) place ∙ at_behind (flow_mod_fields f match n []) rest i

-- With valid arguments, a valid match and valid actions that fit into a message, `create_flow_mod`
-- creates a message, and `validate_flow_mod` accepts it within some fuel.
pub created_flow_mod_valid :
    (f : FlowMod) (match : Match) (actions : OpenflowActions)
    → HasWidths match
    → IsMatch match
    → IsRequest f match
    → All IsHostAction actions.list
    → 72 + sum_lengths actions.list < 2 ^ 16
    → (bytes : List ℕ) × (create_flow_mod f match actions ≡ some bytes)
      × (fuel : ℕ) × (validate_flow_mod fuel (message_of bytes) ≡ some none)
unfolding create_flow_mod flow_mod_bytes
created_flow_mod_valid f match actions w i r all h =
    let n = sum_lengths actions.list in
    let rest = write_actions actions.list [] in
    let size : n ≡ length rest = omega (arith, length-write_actions actions.list [] all) in
    let block =
      fits-in_block (72 + n) (flow_mod_bytes f match n rest)
        (omega (arith, flow_mod-length f match n rest, size)) h in
    let written = flow_mod-match f match n rest w in
    let walk : Walk (behind (at (flow_mod_bytes f match n rest)) 72) n 0 =
      written_actions-Walk (behind (at (flow_mod_bytes f match n rest)) 72) n (omega arith)
        actions.list [] 0 all (flow_mod-Holds f match n rest) (omega arith) in
    let left : length (flow_mod_bytes f match n rest) - 72 ≡ n =
      omega (arith, flow_mod-length f match n rest, size) in
    let accepted = (validate_flow_mod-accepts (message_of (flow_mod_bytes f match n rest))).1 (
      flow_mod-Framed f match n rest size h,
      rw written i,
      inr (flow_mod-command f match n rest r, flow_mod-IsFlowMod f match n rest w r, rw left walk),
    ) in
    (
      flow_mod_bytes f match n rest,
      rw (counted_length actions (omega arith)) block,
      accepted.0,
      accepted.1,
    )

module _ (transaction_id buffer_id in_port n k : ℕ) (rest : List ℕ) where
  packet_out_bytes : List ℕ
  packet_out_bytes = packet_out_fields transaction_id buffer_id in_port n k rest

  packet_out-length : length packet_out_bytes ≡ 16 + length rest
  unfolding packet_out_bytes packet_out_fields create_header
  packet_out-length = omega arith

  packet_out-Framed :
      n + k ≡ length rest → 16 + n + k < 2 ^ 16 → Framed (message_of packet_out_bytes) 13 16 0xffff
  unfolding packet_out_bytes packet_out_fields create_header header_type header_version
      header_length valid_message_version
  packet_out-Framed e h = record {
    of_type = refl;
    version = refl;
    same_length = omega arith;
    above = omega arith;
    below = omega arith;
  }

  packet_out-port : in_port < 2 ^ 16 → ntohs_at (at packet_out_bytes) 12 ≡ in_port
  unfolding packet_out_bytes packet_out_fields create_header
  packet_out-port h = read16 in_port [] h

  packet_out-actions_len : n < 2 ^ 16 → ntohs_at (at packet_out_bytes) 14 ≡ n
  unfolding packet_out_bytes packet_out_fields create_header
  packet_out-actions_len h = read16 n [] h

  packet_out-Holds : Holds (behind (at packet_out_bytes) 16) 0 rest
  unfolding packet_out_bytes packet_out_fields create_header
  packet_out-Holds i =
      let place : 16 + (0 + i) ≡ 16 + i = omega arith in
      ap (at packet_out_bytes) place
      ∙ at_behind (packet_out_fields transaction_id buffer_id in_port n k []) rest i

-- With a port that is not reserved, valid actions, a frame of 60 bytes at least when there is no
-- buffer id, and a length that fits into a message, `create_packet_out` creates a message, and
-- `validate_packet_out` accepts it within some fuel.
pub created_packet_out_valid :
    (transaction_id buffer_id in_port : ℕ) (actions : OpenflowActions) (frame : List ℕ)
    → in_port < 2 ^ 16
    → is_port in_port ≡ true
    → (buffer_id ≡ 0xffffffff → 60 ≤ length frame)
    → All IsHostAction actions.list
    → 16 + sum_lengths actions.list + length frame < 2 ^ 16
    → (bytes : List ℕ) × (create_packet_out transaction_id buffer_id in_port actions frame
        ≡ some bytes)
      × (fuel : ℕ) × (validate_packet_out fuel (message_of bytes) ≡ some none)
unfolding create_packet_out packet_out_bytes
created_packet_out_valid transaction_id buffer_id in_port actions frame w port full all h =
    let n = sum_lengths actions.list in
    let k = length frame in
    let rest = write_actions actions.list frame in
    let size : n + k ≡ length rest = omega (arith, length-write_actions actions.list frame all) in
    let bytes = packet_out_bytes transaction_id buffer_id in_port n k rest in
    let block =
      fits-in_block (16 + n + k) bytes
        (omega (arith, packet_out-length transaction_id buffer_id in_port n k rest, size)) h in
    let walk : Walk (behind (at bytes) 16) n 0 =
      written_actions-Walk (behind (at bytes) 16) n (omega arith) actions.list frame 0 all
        (packet_out-Holds transaction_id buffer_id in_port n k rest) (omega arith) in
    let accepted = (validate_packet_out-accepts (message_of bytes)).1 (
      packet_out-Framed transaction_id buffer_id in_port n k rest size h,
      rw (packet_out-port transaction_id buffer_id in_port n k rest w) port,
      rw (packet_out-actions_len transaction_id buffer_id in_port n k rest (omega arith)) walk,
    ) in
    let has_frame : (buffer_id == 0xffffffff && ltb (length frame + 4) 64) ≡ false = ground arith in
    let whole : length frame % 2 ^ 16 ≡ length frame = omega arith in
    (
      bytes,
      rw (has_frame, counted_length actions (omega arith), whole, take_all frame) block,
      accepted.0,
      accepted.1,
    )
