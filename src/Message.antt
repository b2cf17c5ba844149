-- ===== src/Message.antt =====
-- src/lib/openflow_message.c: the check of a whole message. A message is its length and a function
-- from the place of a byte to the byte; the places behind its length are the memory that follows.
pub mod Simple
pub mod Ports
pub mod Flows
pub mod StatsRequest
pub mod StatsReply
pub mod Queues
pub mod Validate
pub mod ErrorTypes
pub mod ErrorMaps
pub mod Framing
pub mod Lengths
pub mod Errors
pub mod Reports
pub mod Normalize
pub mod Clean
pub mod Normal
pub mod Commands
pub mod Fields
pub mod QueueReply
pub mod QueueLoop
pub mod PacketOut
pub mod Coverage
use trema.Base.{
  ℕ, ◌+◌, ◌*◌, ◌-◌, ◌^◌, Bool, true, false, not, ◌&&◌, ◌||◌, Option, none, some, ◌==◌, ltb, leb,
  if◌then◌else◌, bit_and,
}
use trema.Actions.{
  MessageError, unsupported_version, too_short_message, too_long_message, invalid_type,
  undefined_type, byte, ntohs_at, or_next, or_continue,
}

-- the `length` and the bytes of the `buffer`
pub record Message : Type 0 where
  pub length : ℕ
  pub bytes : ℕ → ℕ

abbrev pub ntohl_at : (ℕ → ℕ) → ℕ → ℕ
ntohl_at b i = ntohs_at b i * 65536 + ntohs_at b (i + 2)

-- the bytes behind a place
abbrev pub behind : (ℕ → ℕ) → ℕ → ℕ → ℕ
behind b o i = b (o + i)

abbrev pub uint16_max : ℕ
uint16_max = 0xffff

-- `( a & ( uint32_t ) ~mask ) != 0`
unfoldable pub has_other_bits : ℕ → ℕ → Bool
has_other_bits a mask = not (bit_and a (2 ^ 32 - 1 - mask) == 0)

abbrev pub fail_if : Bool → MessageError → Option MessageError
fail_if test e = if test then some e else none

-- a check that may not return, and the one behind it
unfoldable pub or_rest :
    Option (Option MessageError) → Option (Option MessageError) → Option (Option MessageError)
unfolding or_continue
or_rest none rest = none
or_rest (some r) rest = or_continue r rest

-- the fields of `struct ofp_header`
unfoldable pub header_version : Message → ℕ
header_version m = byte m.bytes 0

unfoldable pub header_type : Message → ℕ
header_type m = byte m.bytes 1

unfoldable pub header_length : Message → ℕ
header_length m = ntohs_at m.bytes 2

unfoldable pub valid_message_version : ℕ → ℕ → Bool
valid_message_version type version =
    if not (type == 0) then version == 1 else leb 1 version && leb version 4

unfoldable pub validate_header : Message → (type min_length max_length : ℕ) → Option MessageError
unfolding valid_message_version header_version header_type header_length
validate_header m type min_length max_length =
    if ltb m.length 8
    then some too_short_message
    else if not (valid_message_version type (header_version m))
    then some unsupported_version
    else if ltb 21 (header_type m)
    then some undefined_type
    else if not (header_type m == type)
    then some invalid_type
    else if ltb max_length (header_length m)
    then some too_long_message
    else if ltb (header_length m) min_length
    then some too_short_message
    else if ltb (header_length m) m.length
    then some too_long_message
    else if ltb m.length (header_length m)
    then some too_short_message
    else if ltb max_length m.length
    then some too_long_message
    else none
