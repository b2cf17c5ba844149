-- ===== src/Actions/Layout.antt =====
-- src/lib/openflow_message.c: `validate_actions` where its 16-bit offset does not wrap round.
use trema.Base.{
  ℕ, zero, suc, ◌+◌, ◌*◌, ◌^◌, ◌≤◌, ◌<◌, ◌≡◌, ◌↔◌, ◌∙◌, refl, sym, ap, true, Option, none, some,
  List, [], ◌∷◌, ltb, arith, Bool-cases, inl, inr,
}
use trema.Actions.{
  MessageError, action_type, action_len, action_arg16, action_arg8, validate_action, or_continue,
  validate_from, validate_actions,
}
use trema.Actions.Checks.{is_action, is_action-length, validate_action-accepts}
use trema.Actions.Loop.{next_offset, or_continue-none, or_continue-returns, from-stop, from-step}

-- At an offset stands an action of OpenFlow 1.0.
abbrev pub IsActionAt : (ℕ → ℕ) → ℕ → Type 0
IsActionAt b o =
    is_action (action_type b o) (action_len b o) (action_arg16 b o) (action_arg8 b o) ≡ true

-- the places behind 0 and behind each action that starts at such a place inside the length
pub data Reached (b : ℕ → ℕ) (length : ℕ) : ℕ → Type 0 where
  start : {o : ℕ} → o ≡ 0 → Reached b length o
  next :
      {o p : ℕ}
      → Reached b length o
      → o < length
      → IsActionAt b o
      → p ≡ o + action_len b o
      → Reached b length p

-- From a place, actions of the given sizes stand one behind the other. Each starts inside the
-- length, and the last ends at the end of it or beyond.
abbrev pub Tiles : (ℕ → ℕ) → (length place : ℕ) → (sizes : List ℕ) → Type 0
Tiles b length o [] = length ≤ o
Tiles b length o (n ∷ sizes) =
    (o < length) × IsActionAt b o × (action_len b o ≡ n) × Tiles b length (o + n) sizes

module _ (b : ℕ → ℕ) (length : ℕ)
    (no_wrap : (o : ℕ)
      → Reached b length o
      → o < length
      → IsActionAt b o
      → o + action_len b o < 2 ^ 16) where
  next_place :
      (o : ℕ)
      → Reached b length o
      → o < length
      → IsActionAt b o
      → next_offset b o ≡ o + action_len b o
  next_place o r lt a = omega (arith, no_wrap o r lt a)

  step_inside :
      (fuel o : ℕ)
      → Reached b length o
      → o < length
      → IsActionAt b o
      → validate_from (suc fuel) b length o ≡ validate_from fuel b length (o + action_len b o)
  unfolding or_continue
  step_inside fuel o r lt a =
      from-step b length fuel o lt
      ∙ rw ((validate_action-accepts b o).1 a)
          (ap (validate_from fuel b length) (next_place o r lt a))

  longer : (o : ℕ) → IsActionAt b o → 8 ≤ action_len b o
  longer o a =
      (is_action-length (action_type b o) (action_len b o) (action_arg16 b o) (action_arg8 b o) a).0

  from-returns :
      (fuel o : ℕ)
      → Reached b length o
      → length ≤ o + 8 * fuel
      → (r : Option MessageError) × (validate_from (suc fuel) b length o ≡ some r)
  from-returns zero o reached h = (none, from-stop b length 0 o (omega arith))
  from-returns (suc fuel) o reached h = elim (Bool-cases (ltb o length)) [
    | inl y ↦
        let lt : o < length = ground arith in
        let (r, e) =
          or_continue-returns (validate_action b o)
            (validate_from (suc fuel) b length (next_offset b o))
            (λ v.
              let a = (validate_action-accepts b o).0 v in
              rw (next_place o reached lt a) (
                from-returns fuel (o + action_len b o) (next reached lt a refl)
                  (omega (arith, longer o a)))) in
        (r, from-step b length (suc fuel) o lt ∙ e)
    | inr y ↦ (none, from-stop b length (suc fuel) o (ground arith))
  ]

  -- When no action that starts inside the length, at 0 or behind another such action, ends at or
  -- beyond 65536, `validate_actions` returns: a call of the loop for each 8 bytes, and one more,
  -- suffice.
  pub validate_actions-returns :
      (fuel : ℕ)
      → length ≤ 8 * fuel
      → (r : Option MessageError) × (validate_actions (suc fuel) b length ≡ some r)
  unfolding validate_actions
  validate_actions-returns fuel h = from-returns fuel 0 (start refl) (omega arith)

  from-Tiles :
      (fuel o : ℕ)
      → Reached b length o
      → validate_from fuel b length o ≡ some none
      → (sizes : List ℕ) × Tiles b length o sizes
  unfolding validate_from
  from-Tiles zero o r h = absurd (ground arith)
  from-Tiles (suc fuel) o r h = elim (Bool-cases (ltb o length)) [
    | inl y ↦
        let lt : o < length = ground arith in
        let (v, rest) =
          or_continue-none (validate_action b o) (validate_from fuel b length (next_offset b o))
            (sym (from-step b length fuel o lt) ∙ h) in
        let a = (validate_action-accepts b o).0 v in
        let (sizes, tiles) =
          from-Tiles fuel (o + action_len b o) (next r lt a refl)
            (sym (ap (validate_from fuel b length) (next_place o r lt a)) ∙ rest) in
        (action_len b o ∷ sizes, (lt, a, refl, tiles))
    | inr y ↦ ([], ground arith)
  ]

  Tiles-from :
      (sizes : List ℕ) (fuel o : ℕ)
      → Reached b length o
      → length ≤ o + 8 * fuel
      → Tiles b length o sizes
      → validate_from (suc fuel) b length o ≡ some none
  Tiles-from [] fuel o r h tiles = from-stop b length fuel o tiles
  Tiles-from (n ∷ sizes) zero o r h tiles = absurd (omega (arith, tiles.0))
  Tiles-from (n ∷ sizes) (suc fuel) o r h (lt, a, e, tiles) =
      step_inside (suc fuel) o r lt a
      ∙ ap (λ k. validate_from (suc fuel) b length (o + k)) e
      ∙ Tiles-from sizes fuel (o + n) (next r lt a (ap (λ k. o + k) (sym e)))
          (omega (arith, longer o a)) tiles

  -- When no action that starts inside the length, at 0 or behind another such action, ends at or
  -- beyond 65536, `validate_actions`, with a call of the loop for each 8 bytes and one more, returns
  -- 0 just when actions of OpenFlow 1.0 stand one behind the other from the first place, each starts
  -- inside the length, and the last ends at the end of the length or beyond it.
  pub validate_actions-Tiles :
      (fuel : ℕ)
      → length ≤ 8 * fuel
      → (validate_actions (suc fuel) b length ≡ some none)
        ↔ ((sizes : List ℕ) × Tiles b length 0 sizes)
  unfolding validate_actions
  validate_actions-Tiles fuel h = (
    from-Tiles (suc fuel) 0 (start refl),
    λ (sizes, tiles). Tiles-from sizes fuel 0 (start refl) (omega arith) tiles,
  )
