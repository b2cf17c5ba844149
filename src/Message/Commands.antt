-- ===== src/Message/Commands.antt =====
-- src/lib/openflow_message.c: which flow modifications and which packets out are accepted.
use trema.Base.{
  ℕ, zero, suc, ◌+◌, ◌-◌, ◌%◌, ◌^◌, ◌≤◌, ◌<◌, ◌≡◌, ◌↔◌, ◌⊎◌, refl, true, false, Option, none, some,
  ltb, if◌then◌else◌, Bool-cases, inl, inr, arith,
}
use trema.Bits.{and_ones}
use trema.Bits.Masks.{and-high_mask}
use trema.OpenFlow.{Match}
use trema.Actions.{
  MessageError, undefined_flow_mod_command, invalid_flow_mod_flags, or_next, or_continue,
  return_error, error_no, ntohs_at, validate_phy_port_no,
}
use trema.Actions.Ranges.{is_port, phy_port-is_port}
use trema.Actions.Checks.{or_next-none}
use trema.Actions.Loop.{Walk, done, validate_actions-Walk}
use trema.Message.{
  Message, fail_if, behind, uint16_max, has_other_bits, header_length, validate_header,
}
use trema.Message.Framing.{Framed, validate_header-Framed}
use trema.Message.Fields.{IsMatch, validate_match-accepts}
use trema.Message.Flows.{
  ntoh_match, validate_match, validate_priority, validate_actions_at, validate_packet_out,
  delete_port, validate_flow_mod_rest, validate_flow_mod,
}

-- A check returns 0 within some fuel.
abbrev pub Passes : (ℕ → Option (Option MessageError)) → Type 0
Passes check = (fuel : ℕ) × (check fuel ≡ some none)

continue-Passes :
    (a : Option MessageError) (check : ℕ → Option (Option MessageError))
    → Passes (λ fuel. or_continue a (check fuel)) ↔ ((a ≡ none) × Passes check)
unfolding or_continue
continue-Passes none check = ((λ p. (refl, p)), λ p. p.1)
continue-Passes (some e) check =
    ((λ p. absurd (ground (arith, p.1))), λ p. absurd (ground (arith, p.0)))

actions-Passes :
    (b : ℕ → ℕ) (o length : ℕ)
    → Passes (λ fuel. validate_actions_at fuel b o length) ↔ Walk (behind b o) length 0
unfolding validate_actions_at
actions-Passes b o zero = ((λ p. done (omega arith)), λ w. (0, refl))
actions-Passes b o (suc length) =
    let positive : ltb 0 (suc length) ≡ true = ground arith in
    rw positive (validate_actions-Walk (behind b o) (suc length))

-- `validate_packet_out` accepts a message, within some fuel, just when its header is one of a packet
-- out of 16 bytes at least, its port is not 0 and not reserved, and there is a walk over valid actions
-- from the first one, by offsets modulo 2 ^ 16, to the length of the actions that the message tells
-- or beyond it. Nothing relates that length to the one of the message.
pub validate_packet_out-accepts :
    (m : Message)
    → ((fuel : ℕ) × (validate_packet_out fuel m ≡ some none)) ↔ (
        Framed m 13 16 0xffff
        × (is_port (ntohs_at m.bytes 12) ≡ true)
        × Walk (behind m.bytes 16) (ntohs_at m.bytes 14) 0)
unfolding validate_packet_out
validate_packet_out-accepts m =
    let port = validate_phy_port_no (ntohs_at m.bytes 12) in
    let next = or_next-none (validate_header m 13 16 uint16_max) port in
    let header = validate_header-Framed m 13 16 uint16_max (ground arith) (ground arith) in
    let actions = actions-Passes m.bytes 16 (ntohs_at m.bytes 14) in
    let all =
      continue-Passes (or_next (validate_header m 13 16 uint16_max) port)
        (λ fuel. validate_actions_at fuel m.bytes 16 (ntohs_at m.bytes 14)) in
    let is_port = phy_port-is_port (ntohs_at m.bytes 12) in
    (
      λ p.
          let (checks, walk) = all.0 p in
          (header.0 (next.0 checks).0, is_port.0 (next.0 checks).1, actions.0 walk),
      λ (framed, valid, walk). all.1 (next.1 (header.1 framed, is_port.1 valid), actions.1 walk),
    )

module _ (m : Message) where
  -- the fields of a flow modification behind its command
  pub record IsFlowMod : Type 0 where
    pub priority : (ntoh_match m.bytes 8).wildcards ≡ 0 → ntohs_at m.bytes 62 ≡ 0xffff
    pub out_port :
        (ntohs_at m.bytes 56 ≡ 3) ⊎ (ntohs_at m.bytes 56 ≡ 4) → is_port (ntohs_at m.bytes 68) ≡ true
    pub flags : ntohs_at m.bytes 70 < 8

  flags-range : (has_other_bits (ntohs_at m.bytes 70) 7 ≡ false) ↔ (ntohs_at m.bytes 70 < 8)
  unfolding has_other_bits
  flags-range = ground (arith, and-high_mask 3 29 (ntohs_at m.bytes 70) (omega arith))

  priority-range :
      (match : Match) (priority : ℕ)
      → match.wildcards < 2 ^ 22
      → (validate_priority match priority ≡ none) ↔ (match.wildcards ≡ 0 → priority ≡ 0xffff)
  unfolding validate_priority
  priority-range match priority h = ground (arith, and_ones 22 match.wildcards h)

  delete_port-range : (delete_port m ≡ none) ↔ (
      (ntohs_at m.bytes 56 ≡ 3) ⊎ (ntohs_at m.bytes 56 ≡ 4) → is_port (ntohs_at m.bytes 68) ≡ true)
  unfolding delete_port is_port
  delete_port-range = ground (arith, phy_port-is_port (ntohs_at m.bytes 68))

  check_flags : Option MessageError
  check_flags = fail_if (has_other_bits (ntohs_at m.bytes 70) 7) invalid_flow_mod_flags

  fields-IsFlowMod :
      IsMatch (ntoh_match m.bytes 8)
      → (or_next
            (validate_priority (ntoh_match m.bytes 8) (ntohs_at m.bytes 62))
            (or_next (delete_port m) check_flags)
          ≡ none)
        ↔ IsFlowMod
  unfolding check_flags
  fields-IsFlowMod match =
      let priority = validate_priority (ntoh_match m.bytes 8) (ntohs_at m.bytes 62) in
      let three = or_next-none priority (or_next (delete_port m) check_flags) in
      let two = or_next-none (delete_port m) check_flags in
      let p = priority-range (ntoh_match m.bytes 8) (ntohs_at m.bytes 62) match.wildcards in
      let d = delete_port-range in
      let f : (check_flags ≡ none) ↔ (ntohs_at m.bytes 70 < 8) = ground (arith, flags-range) in
      (
        λ e.
            let (e1, e2) = three.0 e in
            let (e3, e4) = two.0 e2 in
            record { priority = p.0 e1; out_port = d.0 e3; flags = f.0 e4 },
        λ v. three.1 (p.1 v.priority, two.1 (d.1 v.out_port, f.1 v.flags)),
      )

  rest-Passes :
      IsMatch (ntoh_match m.bytes 8)
      → Framed m 14 72 0xffff
      → Passes (λ fuel. validate_flow_mod_rest fuel m)
        ↔ (IsFlowMod × Walk (behind m.bytes 72) (m.length - 72) 0)
  unfolding validate_flow_mod_rest check_flags
  rest-Passes match framed =
      let left = (header_length m + 2 ^ 16 - 72) % 2 ^ 16 in
      let length : left ≡ m.length - 72 =
        omega (arith, framed.same_length, framed.above, framed.below) in
      let all = continue-Passes _ (λ fuel. validate_actions_at fuel m.bytes 72 left) in
      let fields = fields-IsFlowMod match in
      let actions = actions-Passes m.bytes 72 left in
      (
        λ p. let (checks, walk) = all.0 p in (fields.0 checks, rw (← length) (actions.0 walk)),
        λ (valid, walk). all.1 (fields.1 valid, actions.1 (rw length walk)),
      )

  -- What an accepted flow modification is, behind its header: any command above the last one, or
  -- valid fields and actions.
  abbrev pub IsCommand : Type 0
  IsCommand =
      (4 < ntohs_at m.bytes 56)
      ⊎ ((ntohs_at m.bytes 56 ≤ 4) × IsFlowMod × Walk (behind m.bytes 72) (m.length - 72) 0)

  command-Passes :
      IsMatch (ntoh_match m.bytes 8)
      → Framed m 14 72 0xffff
      → Passes (λ fuel.
        if ltb 4 (ntohs_at m.bytes 56)
        then some (return_error undefined_flow_mod_command)
        else validate_flow_mod_rest fuel m)
        ↔ IsCommand
  unfolding return_error error_no
  command-Passes match framed = elim (Bool-cases (ltb 4 (ntohs_at m.bytes 56))) [
    | inl y ↦ rw y ((λ p. inl (ground arith)), λ c. (0, refl))
    | inr y ↦ rw y (
        let rest = rest-Passes match framed in
        ((λ p. inr (ground arith, (rest.0 p).0, (rest.0 p).1)), λ c. rest.1 (ground arith)))
  ]

  -- `validate_flow_mod` accepts a message, within some fuel, just when its header is one of a flow
  -- modification of 72 bytes at least, its match is valid, and either its command is above
  -- OFPFC_DELETE_STRICT, whatever else it holds, or its priority, output port and flags are valid
  -- and there is a walk over valid actions from the first one, by offsets modulo 2 ^ 16, to its end or
  -- beyond it.
  pub validate_flow_mod-accepts :
      ((fuel : ℕ) × (validate_flow_mod fuel m ≡ some none))
      ↔ (Framed m 14 72 0xffff × IsMatch (ntoh_match m.bytes 8) × IsCommand)
  unfolding validate_flow_mod
  validate_flow_mod-accepts =
      let match = validate_match (ntoh_match m.bytes 8) in
      let next = or_next-none (validate_header m 14 72 uint16_max) match in
      let header = validate_header-Framed m 14 72 uint16_max (ground arith) (ground arith) in
      let valid = validate_match-accepts m.bytes 8 in
      let all = continue-Passes (or_next (validate_header m 14 72 uint16_max) match) _ in
      (
        λ p.
            let (checks, command) = all.0 p in
            let framed = header.0 (next.0 checks).0 in
            let is_match = valid.0 (next.0 checks).1 in
            (framed, is_match, (command-Passes is_match framed).0 command),
        λ (framed, is_match, command). all.1 (
          next.1 (header.1 framed, valid.1 is_match),
          (command-Passes is_match framed).1 command,
        ),
      )
