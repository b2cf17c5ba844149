-- ===== src/Tests/Delivery.antt =====
-- The theorems on src/lib/messenger.c at small inputs.
use trema.Base.{
  some, ◌⊎◌, ℕ, ◌+◌, ◌<◌, ◌≤◌, ◌≡◌, refl, true, List, [], ◌∷◌, ◌++◌, map, length, drop, All, arith,
}
use trema.Create.{at}
use trema.Messenger.{
  MessageBuffer, create_message_buffer, SendQueue, bytes_from, header_bytes,
  push_message_to_send_queue, on_recv, messenger_recv_queue_length,
}
use trema.Messenger.Contents.{Fits, contents}
use trema.Messenger.Frames.{Pushed, Refused, push_appends_or_refuses}
use trema.Messenger.Send.{bucket_size, get_send_data}
use trema.Messenger.Send.Whole.{behind, Counts, get_send_data-Counts}
use trema.Messenger.Pulls.{Sent, IsCarried, IsPartial, frames, Delivers}
use trema.Messenger.Receive.{Piece, arrival, piece_bytes, on_recv-Delivers}

abbrev junk : ℕ → ℕ
junk i = 9

abbrev empty_buffer : MessageBuffer
unfolding create_message_buffer
empty_buffer = create_message_buffer junk messenger_recv_queue_length

empty_buffer-Fits : Fits empty_buffer
unfolding create_message_buffer
empty_buffer-Fits = record { inside = omega arith; small = omega arith }

abbrev notice : Sent
notice = record { message_type = 0; tag = 7; payload = 1 ∷ 2 ∷ [] }

abbrev request : Sent
request = record { message_type = 1; tag = 258; payload = 3 ∷ [] }

abbrev arrived : List ℕ
arrived = 0 ∷ 0 ∷ 0 ∷ 7 ∷ 0 ∷ 0 ∷ 0 ∷ 10 ∷ 1 ∷ 2 ∷ 0 ∷ 1 ∷ 1 ∷ 2 ∷ 0 ∷ 0 ∷ 0 ∷ 9 ∷ 3 ∷ 0 ∷ 2 ∷ []

-- the two messages and two bytes of a third one, in two pieces
abbrev pieces : List Piece
pieces =
    record { from = at arrived; recv_len = 5 }
    ∷ record { from = at (drop 5 arrived); recv_len = 16 }
    ∷ []

abbrev two_bytes : List ℕ
two_bytes = 0 ∷ 2 ∷ []

two_bytes-IsPartial : IsPartial two_bytes
unfolding header_bytes
two_bytes-IsPartial = record {
  message_type = 2;
  tag = 0;
  payload = [];
  carried = record { type_width = omega arith; tag_width = omega arith; fits_queue = omega arith };
  missing = 0 ∷ 0 ∷ 0 ∷ 0 ∷ 0 ∷ 8 ∷ [];
  some_missing = omega arith;
  split = refl;
}

both-IsCarried : All IsCarried (notice ∷ request ∷ [])
both-IsCarried = (
  record { type_width = omega arith; tag_width = omega arith; fits_queue = omega arith },
  (record { type_width = omega arith; tag_width = omega arith; fits_queue = omega arith }, tt),
)

few_bytes : empty_buffer.data_length + length (piece_bytes pieces) ≤ 100000
unfolding bytes_from create_message_buffer
few_bytes = omega arith

pieces_hold :
    contents empty_buffer ++ piece_bytes pieces ≡ frames (notice ∷ request ∷ []) ++ two_bytes
unfolding bytes_from header_bytes create_message_buffer
pieces_hold = refl

on_recv-Delivers_example :
    Delivers (on_recv 3 (map arrival pieces) empty_buffer).0 (notice ∷ request ∷ []) two_bytes
    × ((on_recv 3 (map arrival pieces) empty_buffer).1 ≡ true)
unfolding create_message_buffer
on_recv-Delivers_example =
    on_recv-Delivers (notice ∷ request ∷ []) 3 pieces empty_buffer two_bytes empty_buffer-Fits refl
      (omega arith, (omega arith, tt)) both-IsCarried two_bytes-IsPartial few_bytes (omega arith)
      pieces_hold

-- a buffer of 30 bytes with two bytes of data behind the head
abbrev small_buffer : MessageBuffer
small_buffer = record { buffer = at (0 ∷ 5 ∷ 6 ∷ []); data_length = 2; size = 30; head_offset = 1 }

small_buffer-Fits : Fits small_buffer
small_buffer-Fits = record { inside = omega arith; small = omega arith }

abbrev queue : SendQueue
queue = record { buffer = small_buffer; connected = true; overflow = 3; overflow_total_length = 90 }

push_appends_or_refuses_example :
    ((2 + (8 + 4) ≤ 30)
      × Pushed 2 258
          (at (1 ∷ 2 ∷ 3 ∷ 4 ∷ []))
          4
          queue
          (push_message_to_send_queue queue 2 258 (at (1 ∷ 2 ∷ 3 ∷ 4 ∷ [])) 4))
    ⊎ ((30 < 2 + (8 + 4))
        × Refused 2 258
            (at (1 ∷ 2 ∷ 3 ∷ 4 ∷ []))
            4
            queue
            (push_message_to_send_queue queue 2 258 (at (1 ∷ 2 ∷ 3 ∷ 4 ∷ [])) 4))
push_appends_or_refuses_example =
    push_appends_or_refuses 2 258 (at (1 ∷ 2 ∷ 3 ∷ 4 ∷ [])) 4 queue small_buffer-Fits (omega arith)

-- a send queue's buffer that holds the two messages of 10 and 9 bytes
abbrev sending : MessageBuffer
sending = record { buffer = at arrived; data_length = 19; size = 30; head_offset = 0 }

sending-Fits : Fits sending
sending-Fits = record { inside = omega arith; small = omega arith }

sending_holds : contents (behind sending 0) ≡ frames (notice ∷ request ∷ [])
unfolding bytes_from header_bytes
sending_holds = refl

get_send_data-Counts_example :
    (result : ℕ) × (get_send_data 3 sending 8 (some 1) 0 ≡ some result)
    × Counts (bucket_size 8 (some 1)) 0 (notice ∷ request ∷ []) result
get_send_data-Counts_example =
    get_send_data-Counts (notice ∷ request ∷ []) 3 sending 8 (some 1) 0 sending-Fits both-IsCarried
      (omega arith) (omega arith) sending_holds

-- The bucket of 14 bytes holds the first message only.
first_only : get_send_data 3 sending 8 (some 1) 0 ≡ some 10
unfolding get_send_data
first_only = refl
