-- ===== src/Message/Queues.antt =====
-- src/lib/openflow_message.c: the messages about the queues of a port.
use trema.Base.{ℕ, zero, suc, ◌+◌, ◌-◌, ◌%◌, ◌^◌, not, Option, none, some, ◌==◌, ltb, if◌then◌else◌}
use trema.Actions.{
  MessageError, invalid_length, too_short_queue_description, too_short_queue_property,
  too_long_queue_property, undefined_queue_property, ntohs_at, or_next, or_continue,
  validate_phy_port_no,
}
use trema.Message.{Message, behind, uint16_max, or_rest, header_length, validate_header}

unfoldable pub validate_queue_get_config_request : Message → Option MessageError
validate_queue_get_config_request m =
    or_next (validate_header m 20 12 12) (validate_phy_port_no (ntohs_at m.bytes 8))

-- `property->len`
unfoldable pub property_len : (ℕ → ℕ) → ℕ → ℕ
property_len b o = ntohs_at b (o + 2)

unfoldable pub validate_queue_property : (ℕ → ℕ) → ℕ → Option MessageError
validate_queue_property b o =
    let property_length = property_len b o in
    let property = ntohs_at b o in
    if ltb property_length 8
    then some too_short_queue_property
    else if property == 0
    then if ltb property_length 8
      then some too_short_queue_property
      else if ltb 8 property_length
      then some too_long_queue_property
      else none
    else if property == 1
    then if ltb property_length 16
      then some too_short_queue_property
      else if ltb 16 property_length
      then some too_long_queue_property
      else none
    else some undefined_queue_property

-- the loop at an `offset` of 16 bits; `none` when the fuel does not suffice
unfoldable pub validate_properties_from :
    ℕ → (ℕ → ℕ) → (properties_length offset : ℕ) → Option (Option MessageError)
unfolding or_continue
validate_properties_from zero b properties_length offset = none
validate_properties_from (suc fuel) b properties_length offset =
    let rest =
      validate_properties_from fuel b properties_length
        ((offset + property_len b offset) % 2 ^ 16) in
    if ltb offset properties_length
    then or_continue (validate_queue_property b offset) rest
    else some none

unfoldable pub validate_queue_properties : ℕ → (ℕ → ℕ) → ℕ → Option (Option MessageError)
unfolding validate_properties_from
validate_queue_properties fuel b properties_length =
    validate_properties_from fuel b properties_length 0

-- `queue->len`
unfoldable pub queue_len : (ℕ → ℕ) → ℕ → ℕ
queue_len b o = ntohs_at b (o + 4)

unfoldable pub validate_packet_queue : ℕ → (ℕ → ℕ) → ℕ → Option (Option MessageError)
unfolding validate_queue_properties
validate_packet_queue fuel b o =
    if ltb (queue_len b o) 16
    then some (some too_short_queue_description)
    else validate_queue_properties fuel (behind b (o + 8)) ((queue_len b o + 2 ^ 16 - 8) % 2 ^ 16)

unfoldable pub validate_packet_queues :
    ℕ → (ℕ → ℕ) → (queue n_queues : ℕ) → Option (Option MessageError)
unfolding or_rest validate_packet_queue
validate_packet_queues fuel b queue zero = some none
validate_packet_queues fuel b queue (suc n) =
    or_rest (validate_packet_queue fuel b queue)
      (validate_packet_queues fuel b (queue + queue_len b queue) n)

abbrev pub count_one : Option (ℕ × ℕ) → Option (ℕ × ℕ)
count_one none = none
count_one (some (n, left)) = some (suc n, left)

-- the loop that counts the queues: their number and the length that is left
unfoldable pub count_queues : ℕ → (ℕ → ℕ) → (queue queues_length : ℕ) → Option (ℕ × ℕ)
count_queues zero b queue queues_length = none
count_queues (suc fuel) b queue queues_length =
    let len = queue_len b queue in
    let rest = count_queues fuel b (queue + len) ((queues_length + 2 ^ 16 - len) % 2 ^ 16) in
    if ltb 8 queues_length then count_one rest else some (0, queues_length)

-- the checks behind the loop
unfoldable pub validate_counted : ℕ → (ℕ → ℕ) → ℕ → Option (ℕ × ℕ) → Option (Option MessageError)
unfolding validate_packet_queues
validate_counted fuel b head none = none
validate_counted fuel b head (some (n, left)) =
    if not (left == 0)
    then some (some invalid_length)
    else if ltb 0 n
    then validate_packet_queues fuel b head n
    else some none

unfoldable pub validate_queue_get_config_reply : ℕ → Message → Option (Option MessageError)
unfolding count_queues validate_counted
validate_queue_get_config_reply fuel m =
    or_continue
      (or_next (validate_header m 21 24 uint16_max) (validate_phy_port_no (ntohs_at m.bytes 8)))
      (validate_counted fuel m.bytes 16
        (count_queues fuel m.bytes 16 ((header_length m + 2 ^ 16 - 16) % 2 ^ 16)))
