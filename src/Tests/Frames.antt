-- ===== src/Tests/Frames.antt =====
-- Runs of the action checks of src/lib/openflow_message.c.
use trema.Base.{
  ◌⊎◌, inl, inr, List, [], ◌∷◌, ℕ, ◌+◌, ◌^◌, ◌<◌, ◌≡◌, ◌↔◌, refl, true, Option, none, some, ◌==◌,
  if◌then◌else◌, arith,
}
use trema.Actions.{
  MessageError, action_type, action_len, action_arg16, action_arg8, validate_action,
  validate_actions,
}
use trema.Actions.Checks.{is_action, size_of_action, is_argument, validate_action-accepts}
use trema.Actions.Loop.{validate_actions-diverges}
use trema.Actions.Ranges.{is_port}
use trema.Actions.Layout.{
  IsActionAt, Reached, start, next, Tiles, validate_actions-returns, validate_actions-Tiles,
}

-- an action OFPAT_STRIP_VLAN of 8 bytes, and behind it a vendor action of 65528
abbrev strip_and_vendor : ℕ → ℕ
strip_and_vendor i =
    if i == 1
    then 3
    else if i == 3
    then 8
    else if i == 8
    then 0xff
    else if i == 9
    then 0xff
    else if i == 10
    then 0xff
    else if i == 11
    then 0xf8
    else 0

first_is_valid : validate_action strip_and_vendor 0 ≡ none
unfolding action_type action_len is_action size_of_action is_argument
first_is_valid = (validate_action-accepts strip_and_vendor 0).1 refl

second_is_valid : validate_action strip_and_vendor 8 ≡ none
unfolding action_type action_len is_action
second_is_valid = (validate_action-accepts strip_and_vendor 8).1 refl

second_wraps : 8 + action_len strip_and_vendor 8 ≡ 2 ^ 16
unfolding action_len
second_wraps = refl

first_length : action_len strip_and_vendor 0 ≡ 8
unfolding action_len
first_length = refl

validate_action-accepts_example : (validate_action strip_and_vendor 0 ≡ none) ↔ (
    is_action
      (action_type strip_and_vendor 0)
      (action_len strip_and_vendor 0)
      (action_arg16 strip_and_vendor 0)
      (action_arg8 strip_and_vendor 0)
    ≡ true)
validate_action-accepts_example = validate_action-accepts strip_and_vendor 0

validate_actions-diverges_example : validate_actions 3 strip_and_vendor 16 ≡ none
validate_actions-diverges_example =
    validate_actions-diverges strip_and_vendor 16 8 first_length (omega arith) second_wraps
      first_is_valid second_is_valid 3

-- two actions OFPAT_OUTPUT, to port 1 and to the controller
abbrev two_outputs : ℕ → ℕ
two_outputs i =
    if i == 3
    then 8
    else if i == 5
    then 1
    else if i == 11
    then 8
    else if i == 12
    then 0xff
    else if i == 13
    then 0xfd
    else 0

output_length : (o : ℕ) → (o ≡ 0) ⊎ (o ≡ 8) → action_len two_outputs o ≡ 8
unfolding action_len
output_length o (inl e) = rw e refl
output_length o (inr e) = rw e refl

outputs-Reached : (o : ℕ) → Reached two_outputs 16 o → ((o ≡ 0) ⊎ (o ≡ 8)) ⊎ (o ≡ 16)
outputs-Reached o (start e) = inl (inl e)
outputs-Reached p (next {o} r lt a e) = elim (outputs-Reached o r) [
  | inl (inl z) ↦ inl (inr (omega (arith, output_length o (inl z))))
  | inl (inr z) ↦ inr (omega (arith, output_length o (inr z)))
  | inr z ↦ absurd (omega arith)
]

outputs_stay_low :
    (o : ℕ)
    → Reached two_outputs 16 o
    → o < 16
    → IsActionAt two_outputs o
    → o + action_len two_outputs o < 2 ^ 16
outputs_stay_low o r lt a = elim (outputs-Reached o r) [
  | inl place ↦ omega (arith, output_length o place)
  | inr z ↦ absurd (omega arith)
]

validate_actions-returns_example :
    (r : Option MessageError) × (validate_actions 3 two_outputs 16 ≡ some r)
validate_actions-returns_example =
    validate_actions-returns two_outputs 16 outputs_stay_low 2 (omega arith)

validate_actions-Tiles_example :
    (validate_actions 3 two_outputs 16 ≡ some none)
    ↔ ((sizes : List ℕ) × Tiles two_outputs 16 0 sizes)
validate_actions-Tiles_example =
    validate_actions-Tiles two_outputs 16 outputs_stay_low 2 (omega arith)

outputs_tiled : Tiles two_outputs 16 0 (8 ∷ 8 ∷ [])
unfolding action_type action_len action_arg16 action_arg8 is_action size_of_action is_argument
    is_port
outputs_tiled = (omega arith, refl, refl, (omega arith, refl, refl, omega arith))

-- The length ends in the middle of the action.
first_reaches_out : 4 < action_len strip_and_vendor 0
unfolding action_len
first_reaches_out = omega arith

first_below : action_len strip_and_vendor 0 < 2 ^ 16
unfolding action_len
first_below = omega arith
