-- ===== src/Actions/Loop.antt =====
-- src/lib/openflow_message.c: the loop of `validate_actions`, whose offset wraps round at 16 bits.
use trema.Base.{
  ℕ, zero, suc, ◌+◌, ◌%◌, ◌^◌, ◌≤◌, ◌<◌, ◌≡◌, ◌↔◌, ◌∙◌, refl, sym, ap, Option, none, some, ltb,
  arith, Bool-cases, inl, inr,
}
use trema.Actions.{
  MessageError, action_type, action_len, action_arg16, action_arg8, validate_action, or_continue,
  validate_from, validate_actions,
}
use trema.Actions.Checks.{validate_action-accepts, is_action-length}

-- the next offset
abbrev pub next_offset : (ℕ → ℕ) → ℕ → ℕ
next_offset b o = (o + action_len b o) % 2 ^ 16

pub valid-length :
    (b : ℕ → ℕ) (o : ℕ)
    → validate_action b o ≡ none
    → (8 ≤ action_len b o) × (action_len b o % 8 ≡ 0)
valid-length b o h =
    is_action-length (action_type b o) (action_len b o) (action_arg16 b o) (action_arg8 b o)
      ((validate_action-accepts b o).0 h)

-- A walk over valid actions, which goes from an offset inside the length to the sum of the offset and
-- the length of the action there, modulo 2 ^ 16, and ends at the length or beyond it.
pub data Walk (b : ℕ → ℕ) (length : ℕ) : ℕ → Type 0 where
  done : {o : ℕ} → length ≤ o → Walk b length o
  step :
      {o : ℕ}
      → o < length
      → validate_action b o ≡ none
      → Walk b length (next_offset b o)
      → Walk b length o

pub or_continue-none :
    (v : Option MessageError) (rest : Option (Option MessageError))
    → or_continue v rest ≡ some none
    → (v ≡ none) × (rest ≡ some none)
unfolding or_continue
or_continue-none none rest h = (refl, h)
or_continue-none (some e) rest h = absurd (ground arith)

pub or_continue-returns :
    (v : Option MessageError) (rest : Option (Option MessageError))
    → (v ≡ none → (r : Option MessageError) × (rest ≡ some r))
    → (r : Option MessageError) × (or_continue v rest ≡ some r)
unfolding or_continue
or_continue-returns none rest f = f refl
or_continue-returns (some e) rest f = (some e, refl)

module _ (b : ℕ → ℕ) (length : ℕ) where
  pub from-stop : (fuel o : ℕ) → length ≤ o → validate_from (suc fuel) b length o ≡ some none
  unfolding validate_from
  from-stop fuel o h = ground arith

  pub from-step :
      (fuel o : ℕ)
      → o < length
      → validate_from (suc fuel) b length o
        ≡ or_continue (validate_action b o) (validate_from fuel b length (next_offset b o))
  unfolding validate_from
  from-step fuel o h = ground arith

  from-Walk : (fuel o : ℕ) → validate_from fuel b length o ≡ some none → Walk b length o
  unfolding validate_from
  from-Walk zero o h = absurd (ground arith)
  from-Walk (suc fuel) o h = elim (Bool-cases (ltb o length)) [
    | inl y ↦
        let lt : o < length = ground arith in
        let (v, rest) =
          or_continue-none (validate_action b o) (validate_from fuel b length (next_offset b o))
            (sym (from-step fuel o lt) ∙ h) in
        step lt v (from-Walk fuel (next_offset b o) rest)
    | inr y ↦ done (ground arith)
  ]

  Walk-from : (o : ℕ) → Walk b length o → (fuel : ℕ) × (validate_from fuel b length o ≡ some none)
  unfolding or_continue
  Walk-from o (done h) = (1, from-stop 0 o h)
  Walk-from o (step lt v walk) =
      let (fuel, e) = Walk-from (next_offset b o) walk in
      (suc fuel, from-step fuel o lt ∙ rw (v, e))

  -- `validate_actions` returns 0, with some fuel, just when there is a walk from the first action.
  pub validate_actions-Walk :
      ((fuel : ℕ) × (validate_actions fuel b length ≡ some none)) ↔ Walk b length 0
  unfolding validate_actions
  validate_actions-Walk = ((λ r. from-Walk r.0 0 r.1), λ w. Walk-from 0 w)

  from-none :
      (fuel o : ℕ)
      → o < length
      → validate_from fuel b length (next_offset b o) ≡ none
      → validate_action b o ≡ none
      → validate_from (suc fuel) b length o ≡ none
  unfolding or_continue
  from-none fuel o lt rest v = from-step fuel o lt ∙ rw (v, rest)

  module _ (n : ℕ) (first : action_len b 0 ≡ n) (inside : n < length)
      (wraps : n + action_len b n ≡ 2 ^ 16) (v0 : validate_action b 0 ≡ none)
      (vn : validate_action b n ≡ none) where
    round :
        (fuel : ℕ) → (validate_from fuel b length 0 ≡ none) × (validate_from fuel b length n ≡ none)
    unfolding validate_from
    round zero = (refl, refl)
    round (suc fuel) =
        let small : n < 2 ^ 16 = omega (arith, (valid-length b n vn).0) in
        let to_n : next_offset b 0 ≡ n = omega arith in
        let to_0 : next_offset b n ≡ 0 = omega arith in
        (
          from-none fuel 0 (omega arith) (ap (validate_from fuel b length) to_n ∙ (round fuel).1)
              v0,
          from-none fuel n inside (ap (validate_from fuel b length) to_0 ∙ (round fuel).0) vn,
        )

    -- When the first action and the one behind it are valid, both inside the length, and the second
    -- ends at 65536, the offset returns to 0, and `validate_actions` does not return for any fuel.
    pub validate_actions-diverges : (fuel : ℕ) → validate_actions fuel b length ≡ none
    unfolding validate_actions
    validate_actions-diverges fuel = (round fuel).0

  -- A valid first action that reaches beyond the length, below 65536, is accepted.
  pub validate_actions-overrun :
      0 < length
      → validate_action b 0 ≡ none
      → length < action_len b 0
      → action_len b 0 < 2 ^ 16
      → validate_actions 2 b length ≡ some none
  unfolding validate_actions or_continue
  validate_actions-overrun pos v long small =
      from-step 1 0 pos ∙ rw (v, from-stop 0 (next_offset b 0) (omega arith))
