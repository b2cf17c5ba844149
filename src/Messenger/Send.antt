-- ===== src/Messenger/Send.antt =====
-- src/lib/messenger.c: get_send_data, how much of a send queue one call of `send` is given.
pub mod Whole
use trema.Base.{
  ℕ, zero, suc, ◌+◌, ◌-◌, ◌*◌, ◌%◌, ◌^◌, Option, none, some, ◌==◌, ◌||◌, ltb, leb, if◌then◌else◌,
}
use trema.Message.{ntohl_at}
use trema.Messenger.{MessageBuffer, messenger_recv_queue_length}

abbrev pub messenger_bucket_size : ℕ
messenger_bucket_size = 100000

-- the size of the bucket; `used` is what `ioctl` reports, none when it fails
unfoldable pub bucket_size : (socket_buffer_size : ℕ) → (used : Option ℕ) → ℕ
bucket_size socket_buffer_size none = messenger_bucket_size
bucket_size socket_buffer_size (some used) =
    let twice = (socket_buffer_size - used) * 2 % 2 ^ 32 in
    if socket_buffer_size == 0
    then messenger_bucket_size
    else if ltb used socket_buffer_size
    then (if ltb messenger_bucket_size twice then messenger_bucket_size else twice)
    else 1

-- The loop of `get_send_data`, on fuel: none when an assertion fails or the fuel ends.
unfoldable pub add_messages :
    (fuel : ℕ) → MessageBuffer → (bucket offset length_so_far : ℕ) → Option ℕ
add_messages zero b bucket offset length_so_far = none
add_messages (suc fuel) b bucket offset length_so_far =
    let message_length = ntohl_at b.buffer (b.head_offset + offset + 4) in
    let sum = (length_so_far + message_length) % 2 ^ 32 in
    let rest = add_messages fuel b bucket (offset + message_length) sum in
    if ltb ((b.data_length + (2 ^ 64 - offset)) % 2 ^ 64) 8
    then some length_so_far
    else if message_length == 0 || leb messenger_recv_queue_length message_length
    then none
    else if ltb bucket sum
    then some (if length_so_far == 0 then message_length else length_so_far)
    else rest

unfoldable pub get_send_data :
    (fuel : ℕ)
    → MessageBuffer
    → (socket_buffer_size : ℕ) → (used : Option ℕ) → (offset : ℕ) → Option ℕ
unfolding bucket_size add_messages
get_send_data fuel b socket_buffer_size used offset =
    add_messages fuel b (bucket_size socket_buffer_size used) offset 0
