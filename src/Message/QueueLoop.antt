-- ===== src/Message/QueueLoop.antt =====
-- src/lib/openflow_message.c: the loops over queues and over their properties.
use trema.Base.{
  ℕ, zero, suc, ◌+◌, ◌*◌, ◌%◌, ◌^◌, ◌≤◌, ◌<◌, ◌≡◌, ◌↔◌, ◌⊎◌, ◌∙◌, sym, ap, Option, none, some, ltb,
  Bool-cases, inl, inr, arith,
}
use trema.Actions.{MessageError, ntohs_at, or_continue}
use trema.Actions.Loop.{or_continue-none, or_continue-returns}
use trema.Message.Queues.{
  property_len, validate_queue_property, validate_properties_from, validate_queue_properties,
}

-- A property without a value has 8 bytes, and one with a rate has 16.
pub queue_property-sizes :
    (b : ℕ → ℕ) (o : ℕ)
    → (validate_queue_property b o ≡ none) ↔ (
        ((ntohs_at b o ≡ 0) × (property_len b o ≡ 8))
        ⊎ ((ntohs_at b o ≡ 1) × (property_len b o ≡ 16)))
unfolding validate_queue_property
queue_property-sizes b o = ground arith

module _ (b : ℕ → ℕ) (length : ℕ) where
  -- From an offset, valid properties stand one behind the other up to the end or beyond it.
  pub data Properties : ℕ → Type 0 where
    done : {o : ℕ} → length ≤ o → Properties o
    step :
        {o : ℕ}
        → o < length
        → validate_queue_property b o ≡ none
        → Properties (o + property_len b o)
        → Properties o

  from-step :
      (fuel o : ℕ)
      → o < length
      → validate_properties_from (suc fuel) b length o
        ≡ or_continue
            (validate_queue_property b o)
            (validate_properties_from fuel b length ((o + property_len b o) % 2 ^ 16))
  unfolding validate_properties_from
  from-step fuel o h = ground arith

  from-stop : (fuel o : ℕ) → length ≤ o → validate_properties_from (suc fuel) b length o ≡ some none
  unfolding validate_properties_from
  from-stop fuel o h = ground arith

  module _ (small : length ≤ 65512) where
    next_offset :
        (o : ℕ)
        → o < length
        → validate_queue_property b o ≡ none
        → (o + 8 ≤ o + property_len b o) × ((o + property_len b o) % 2 ^ 16 ≡ o + property_len b o)
    next_offset o lt v = ground (arith, queue_property-sizes b o)

    from-returns :
        (fuel o : ℕ)
        → length ≤ o + 8 * fuel
        → (r : Option MessageError) × (validate_properties_from (suc fuel) b length o ≡ some r)
    from-returns zero o h = (none, from-stop 0 o (omega arith))
    from-returns (suc fuel) o h = elim (Bool-cases (ltb o length)) [
      | inl y ↦
          let lt : o < length = ground arith in
          let (r, e) =
            or_continue-returns (validate_queue_property b o)
              (validate_properties_from (suc fuel) b length ((o + property_len b o) % 2 ^ 16))
              (λ v.
                from-returns fuel ((o + property_len b o) % 2 ^ 16)
                  (omega (arith, (next_offset o lt v).0, (next_offset o lt v).1))) in
          (r, from-step (suc fuel) o lt ∙ e)
      | inr y ↦ (none, from-stop (suc fuel) o (ground arith))
    ]

    from-Properties :
        (fuel o : ℕ) → validate_properties_from fuel b length o ≡ some none → Properties o
    unfolding validate_properties_from
    from-Properties zero o h = absurd (ground arith)
    from-Properties (suc fuel) o h = elim (Bool-cases (ltb o length)) [
      | inl y ↦
          let lt : o < length = ground arith in
          let (v, rest) =
            or_continue-none (validate_queue_property b o)
              (validate_properties_from fuel b length ((o + property_len b o) % 2 ^ 16))
              (sym (from-step fuel o lt) ∙ h) in
          step lt v (
            from-Properties fuel (o + property_len b o)
              (ap (validate_properties_from fuel b length) (sym (next_offset o lt v).1) ∙ rest))
      | inr y ↦ done (ground arith)
    ]

    Properties-from :
        (fuel o : ℕ)
        → Properties o
        → length ≤ o + 8 * fuel
        → validate_properties_from (suc fuel) b length o ≡ some none
    unfolding or_continue
    Properties-from fuel o (done h) k = from-stop fuel o h
    Properties-from zero o (step lt v rest) k = absurd (omega arith)
    Properties-from (suc fuel) o (step lt v rest) k =
        let e =
          Properties-from fuel (o + property_len b o) rest
            (omega (arith, (next_offset o lt v).0)) in
        let e' = ap (validate_properties_from (suc fuel) b length) (next_offset o lt v).1 ∙ e in
        from-step (suc fuel) o lt ∙ rw (v, e')

    -- For properties of up to 65512 bytes, the loop of `validate_queue_properties` returns within a
    -- turn for each 8 bytes and one more, and it returns 0 just when valid properties stand one
    -- behind the other from the first up to the end or beyond it.
    pub validate_queue_properties-decides :
        (fuel : ℕ)
        → length ≤ 8 * fuel
        → ((r : Option MessageError) × (validate_queue_properties (suc fuel) b length ≡ some r))
          × ((validate_queue_properties (suc fuel) b length ≡ some none) ↔ Properties 0)
    unfolding validate_queue_properties
    validate_queue_properties-decides fuel h = (
      from-returns fuel 0 (omega arith),
      (from-Properties (suc fuel) 0, λ p. Properties-from fuel 0 p (omega arith)),
    )
