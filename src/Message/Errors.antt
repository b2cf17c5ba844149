-- ===== src/Message/Errors.antt =====
-- src/lib/openflow_message.c: which errors a check may return.
use trema.Base.{
  ℕ, ◌≤◌, ◌≡◌, refl, Bool, true, false, not, Option, none, some, ◌==◌, if◌then◌else◌, arith,
}
use trema.OpenFlow.{Match}
use trema.Actions.{
  MessageError, too_short_message, unsupported_version, undefined_type, invalid_type,
  too_long_message, invalid_port_no, invalid_wildcards, invalid_vlan_vid, invalid_vlan_pcp,
  invalid_nw_tos, invalid_length, or_next, or_continue, validate_phy_port_no, validate_vlan_vid,
  validate_vlan_pcp, validate_nw_tos,
}
use trema.Message.{Message, uint16_max, fail_if, header_length, validate_header}
use trema.Message.Framing.{validate_header-Framed}
use trema.Message.Simple.{validate_echo_request, validate_echo_reply, validate_vendor}
use trema.Message.Flows.{validate_wildcards, validate_match}

-- An error that the result is has the property.
abbrev pub Only : (MessageError → Type 0) → Option MessageError → Type 0
Only P result = (e : MessageError) → result ≡ some e → P e

abbrev pub OnlyAny : (MessageError → Type 0) → Option (Option MessageError) → Type 0
OnlyAny P result = (e : MessageError) → result ≡ some (some e) → P e

module _ (P : MessageError → Type 0) where
  pub none-Only : Only P none
  none-Only e h = absurd (ground arith)

  pub some-Only : (x : MessageError) → P x → Only P (some x)
  some-Only x p e h = let same : x ≡ e = ground arith in rw (← same) p

  pub if-Only :
      (c : Bool) (a b : Option MessageError) → Only P a → Only P b → Only P (if c then a else b)
  if-Only true a b f g = f
  if-Only false a b f g = g

  pub next-Only : (a b : Option MessageError) → Only P a → Only P b → Only P (or_next a b)
  unfolding or_next
  next-Only none b f g = g
  next-Only (some x) b f g = f

  pub fail_if-Only : (c : Bool) (x : MessageError) → P x → Only P (fail_if c x)
  fail_if-Only c x p = if-Only c (some x) none (some-Only x p) none-Only

  pub some-OnlyAny : (a : Option MessageError) → Only P a → OnlyAny P (some a)
  some-OnlyAny a f e h = f e (ground arith)

  pub continue-OnlyAny :
      (a : Option MessageError) (b : Option (Option MessageError))
      → Only P a
      → OnlyAny P b
      → OnlyAny P (or_continue a b)
  unfolding or_continue
  continue-OnlyAny none b f g = g
  continue-OnlyAny (some x) b f g = some-OnlyAny (some x) f

  pub none-OnlyAny : OnlyAny P none
  none-OnlyAny e h = absurd (ground arith)

  pub if-OnlyAny :
      (c : Bool) (a b : Option (Option MessageError))
      → OnlyAny P a
      → OnlyAny P b
      → OnlyAny P (if c then a else b)
  if-OnlyAny true a b f g = f
  if-OnlyAny false a b f g = g

  -- the errors of a header
  abbrev pub Header : Type 0
  Header =
      P too_short_message
      × P unsupported_version
      × P undefined_type
      × P invalid_type
      × P too_long_message

  pub header-Only :
      (m : Message) (type least greatest : ℕ)
      → Header
      → Only P (validate_header m type least greatest)
  unfolding validate_header
  header-Only m type least greatest h e = ground arith

  pub phy_port_no-Only : (port_no : ℕ) → P invalid_port_no → Only P (validate_phy_port_no port_no)
  unfolding validate_phy_port_no
  phy_port_no-Only port_no p = if-Only _ _ _ (some-Only invalid_port_no p) none-Only

  pub match-Only :
      (m : Match)
      → P invalid_wildcards
      → P invalid_vlan_vid
      → P invalid_vlan_pcp
      → P invalid_nw_tos
      → Only P (validate_match m)
  unfolding validate_match validate_wildcards validate_vlan_vid validate_vlan_pcp validate_nw_tos
  match-Only m w v p t = next-Only _ _ (fail_if-Only _ invalid_wildcards w) (
      next-Only _ _ (fail_if-Only _ invalid_vlan_vid v)
        (next-Only _ _ (fail_if-Only _ invalid_vlan_pcp p) (fail_if-Only _ invalid_nw_tos t)))

-- The second check changes nothing when it passes whatever the first one lets pass.
or_next-first : (a b : Option MessageError) → (a ≡ none → b ≡ none) → or_next a b ≡ a
unfolding or_next
or_next-first none b f = f refl
or_next-first (some x) b f = refl

length_check-passes :
    (m : Message) (type least : ℕ)
    → 8 ≤ least
    → type ≤ 21
    → validate_header m type least uint16_max ≡ none
    → fail_if (not (m.length == header_length m)) invalid_length ≡ none
length_check-passes m type least h k e =
    let framed = (validate_header-Framed m type least uint16_max h k).0 e in
    ground (arith, framed.same_length)

-- The checks of echo messages and of vendor messages are those of their header: a message with a
-- valid header has the length that the header tells.
pub echo-validate_header :
    (m : Message)
    → (validate_echo_request m ≡ validate_header m 2 8 uint16_max)
      × (validate_echo_reply m ≡ validate_header m 3 8 uint16_max)
      × (validate_vendor m ≡ validate_header m 4 12 uint16_max)
unfolding validate_echo_request validate_echo_reply validate_vendor
echo-validate_header m = (
  or_next-first _ _ (length_check-passes m 2 8 (ground arith) (ground arith)),
  or_next-first _ _ (length_check-passes m 3 8 (ground arith) (ground arith)),
  or_next-first _ _ (length_check-passes m 4 12 (ground arith) (ground arith)),
)
