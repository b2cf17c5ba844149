-- ===== src/Messenger.antt =====
-- src/lib/messenger.c: the buffers of the queues, what a client sends, and what a service takes out
-- of the bytes that it received. `buffer` is the memory of a buffer by the place of a byte, and
-- sizes are 64-bit numbers. What `xmalloc` returns holds bytes of its own choice, the parameter
-- `junk`.
pub mod Bytes
pub mod Contents
pub mod Frames
pub mod Deliver
pub mod Pulls
pub mod Receive
pub mod Send
use trema.Base.{
  ℕ, zero, suc, ◌+◌, ◌-◌, ◌%◌, ◌^◌, min, Bool, true, false, not, ◌||◌, Option, none, some, List, [],
  ◌∷◌, ◌==◌, ltb, leb, if◌then◌else◌,
}
use trema.Buffer.{copy_bytes}
use trema.Actions.{byte, ntohs_at}
use trema.Message.{ntohl_at}
use trema.Create.{at, put8, put16, put32}

pub record MessageBuffer : Type 0 where
  pub buffer : ℕ → ℕ
  pub data_length : ℕ
  pub size : ℕ
  pub head_offset : ℕ

-- the bytes from a place on
unfoldable pub bytes_from : (ℕ → ℕ) → ℕ → ℕ → List ℕ
bytes_from f start zero = []
bytes_from f start (suc n) = f start ∷ bytes_from f (start + 1) n

abbrev pub messenger_recv_buffer : ℕ
messenger_recv_buffer = 100000

abbrev pub messenger_recv_queue_length : ℕ
messenger_recv_queue_length = 200000

abbrev pub messenger_recv_queue_reserved : ℕ
messenger_recv_queue_reserved = 100000

abbrev pub messenger_send_length_for_flush : ℕ
messenger_send_length_for_flush = 100000

unfoldable pub create_message_buffer : (junk : ℕ → ℕ) → ℕ → MessageBuffer
create_message_buffer junk size = record {
  buffer = junk;
  data_length = 0;
  size = size;
  head_offset = 0;
}

abbrev pub message_buffer_remain_bytes : MessageBuffer → ℕ
message_buffer_remain_bytes b = (b.size + (2 ^ 64 - b.data_length)) % 2 ^ 64

-- `memcpy` behind the data, after `memmove` of the data to the start where they do not fit
unfoldable pub put_data : MessageBuffer → (ℕ → ℕ) → ℕ → MessageBuffer
unfolding copy_bytes
put_data b from len =
    if leb ((b.head_offset + b.data_length + len) % 2 ^ 64) b.size
    then record b { buffer = copy_bytes b.buffer (b.head_offset + b.data_length) from 0 len }
    else record b {
      buffer =
          copy_bytes (copy_bytes b.buffer 0 b.buffer b.head_offset b.data_length) b.data_length from
            0 len;
      head_offset = 0;
    }

unfoldable pub write_message_buffer : MessageBuffer → (ℕ → ℕ) → ℕ → Bool × MessageBuffer
unfolding put_data
write_message_buffer b from len =
    if ltb (message_buffer_remain_bytes b) len
    then (false, b)
    else (true, record (put_data b from len) { data_length = (b.data_length + len) % 2 ^ 64 })

-- the part of `truncate_message_buffer` behind its early return
unfoldable pub drop_data : MessageBuffer → ℕ → MessageBuffer
unfolding copy_bytes
drop_data b len =
    if leb ((b.head_offset + len) % 2 ^ 64) b.size
    then record b { head_offset = b.head_offset + len; data_length = b.data_length - len }
    else record b {
      buffer = copy_bytes b.buffer 0 b.buffer (b.head_offset + len) (b.data_length - len);
      head_offset = 0;
      data_length = b.data_length - len;
    }

unfoldable pub truncate_message_buffer : MessageBuffer → ℕ → MessageBuffer
unfolding drop_data
truncate_message_buffer b len =
    if len == 0 || b.data_length == 0
    then b
    else drop_data b (if ltb b.data_length len then b.data_length else len)

-- a send queue: its buffer, whether `server_socket` is open, and the overflow that it counted
pub record SendQueue : Type 0 where
  pub buffer : MessageBuffer
  pub connected : Bool
  pub overflow : ℕ
  pub overflow_total_length : ℕ

-- what follows a push: `send_queue_try_connect`, or `set_writable` without or with `on_send_write`
pub data Next : Type 0 where
  connect : Next
  writable : Next
  flush : Next

-- the header in network byte order
unfoldable pub header_bytes : (message_type tag message_length : ℕ) → List ℕ
header_bytes message_type tag message_length =
    put8 0 (put8 message_type (put16 tag (put32 message_length [])))

-- the two writes of `push_message_to_send_queue`, whose results it ignores
unfoldable pub write_message :
    MessageBuffer → (message_type tag message_length : ℕ) → (ℕ → ℕ) → ℕ → MessageBuffer
write_message b message_type tag message_length from len =
    let header = write_message_buffer b (at (header_bytes message_type tag message_length)) 8 in
    (write_message_buffer header.1 from len).1

-- `push_message_to_send_queue`, once the queue is found or created; none for `return false`
unfoldable pub push_message_to_send_queue :
    SendQueue → (message_type tag : ℕ) → (ℕ → ℕ) → ℕ → Option Next × SendQueue
push_message_to_send_queue sq message_type tag from len =
    let message_length = (8 + len) % 2 ^ 32 in
    let written = write_message sq.buffer message_type tag message_length from len in
    if ltb (message_buffer_remain_bytes sq.buffer) message_length
    then (
      none,
      record sq {
        overflow = (sq.overflow + 1) % 2 ^ 32;
        overflow_total_length = (sq.overflow_total_length + message_length) % 2 ^ 64;
      },
    )
    else (
      some (
          if not sq.connected
          then connect
          else if ltb messenger_send_length_for_flush written.data_length
          then flush
          else writable),
      record sq { buffer = written; overflow = 0; overflow_total_length = 0 },
    )

-- what `pull_from_recv_queue` does: it returns 0, fails an assertion, or returns 1, with the
-- message type, the tag, `*len`, the bytes that it copied, and the buffer that it leaves
pub data Pull : Type 0 where
  incomplete : Pull
  aborted : Pull
  pulled : (message_type tag len : ℕ) (value : List ℕ) (rest : MessageBuffer) → Pull

unfoldable pub pull_from_recv_queue : MessageBuffer → (maxlen : ℕ) → Pull
pull_from_recv_queue b maxlen =
    let message_length = ntohl_at b.buffer (b.head_offset + 4) in
    let len = (message_length + (2 ^ 64 - 8)) % 2 ^ 64 in
    if ltb b.data_length 8
    then incomplete
    else if message_length == 0 || leb messenger_recv_queue_length message_length
    then aborted
    else if ltb b.data_length message_length
    then incomplete
    else pulled (byte b.buffer (b.head_offset + 1)) (ntohs_at b.buffer (b.head_offset + 2)) len
        (bytes_from b.buffer (b.head_offset + 8) (if ltb maxlen len then maxlen else len))
        (truncate_message_buffer b message_length)

-- the arguments of a call of `call_message_callbacks`
pub record Delivery : Type 0 where
  pub message_type : ℕ
  pub tag : ℕ
  pub len : ℕ
  pub value : List ℕ

-- what the second loop of `on_recv` does after a call of `pull_from_recv_queue`, with its next
-- rounds
unfoldable pub after_pull :
    (MessageBuffer → Option (List Delivery × MessageBuffer))
    → MessageBuffer
    → Pull
    → Option (List Delivery × MessageBuffer)
after_pull next b incomplete = some ([], b)
after_pull next b aborted = none
after_pull next b (pulled message_type tag len value rest) = elim (next rest) [
  | none ↦ none
  | some result ↦ some (
    record { message_type = message_type; tag = tag; len = len; value = value } ∷ result.0,
    result.1,
  )
]

-- The second loop of `on_recv`, on fuel: the deliveries in order, and the buffer that is left;
-- none when an assertion fails or the fuel ends.
unfoldable pub pull_all : (fuel : ℕ) → MessageBuffer → Option (List Delivery × MessageBuffer)
unfolding after_pull
pull_all zero b = none
pull_all (suc fuel) b = after_pull (pull_all fuel) b (pull_from_recv_queue b messenger_recv_buffer)

-- what a call of `recv` returns: -1 with EAGAIN or EWOULDBLOCK, or with another error, 0, or bytes
pub data Received : Type 0 where
  would_block : Received
  failed : Received
  closed : Received
  received : (from : ℕ → ℕ) (recv_len : ℕ) → Received

-- The first loop of `on_recv`, over what the calls of `recv` return, and would_block from then on.
-- The result says whether the socket stays open.
unfoldable pub receive_all : List Received → MessageBuffer → MessageBuffer × Bool
receive_all [] b = (b, true)
receive_all (would_block ∷ results) b = (b, true)
receive_all (failed ∷ results) b =
    (b, not (ltb messenger_recv_queue_reserved (message_buffer_remain_bytes b)))
receive_all (closed ∷ results) b =
    (b, not (ltb messenger_recv_queue_reserved (message_buffer_remain_bytes b)))
receive_all (received from recv_len ∷ results) b =
    let rest = receive_all results (write_message_buffer b from recv_len).1 in
    if ltb messenger_recv_queue_reserved (message_buffer_remain_bytes b) then rest else (b, true)

unfoldable pub on_recv :
    (fuel : ℕ) → List Received → MessageBuffer → Option (List Delivery × MessageBuffer) × Bool
on_recv fuel results b = let filled = receive_all results b in (pull_all fuel filled.0, filled.1)
