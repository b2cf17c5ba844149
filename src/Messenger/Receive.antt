-- ===== src/Messenger/Receive.antt =====
-- src/lib/messenger.c: `on_recv` delivers the messages whatever the pieces in which they come.
use trema.Base.{
  Bool, ℕ, ◌+◌, ◌-◌, ◌%◌, ◌^◌, ◌≤◌, ◌<◌, ◌≡◌, ◌∙◌, refl, sym, true, List, [], ◌∷◌, ◌++◌, map,
  length, length-append, All, ltb, arith,
}
use trema.Messenger.Bytes.{length-bytes_from}
use trema.Messenger.Contents.{Fits, contents, Appends, write-Appends}
use mathlib.Core.List.{append-nil}
use trema.Messenger.Frames.{Appends-Appends}
use trema.Messenger.{
  MessageBuffer, bytes_from, messenger_recv_queue_length, messenger_recv_buffer, Received, received,
  receive_all, on_recv, write_message_buffer,
}
use trema.Messenger.Pulls.{Sent, IsCarried, IsPartial, frames, Delivers, pull_all-Delivers}

-- bytes that one call of `recv` returns
pub record Piece : Type 0 where
  pub from : ℕ → ℕ
  pub recv_len : ℕ

abbrev pub arrival : Piece → Received
arrival p = received p.from p.recv_len

abbrev pub IsSome : Piece → Type 0
IsSome p = 0 < p.recv_len

abbrev pub piece_bytes : List Piece → List ℕ
piece_bytes [] = []
piece_bytes (p ∷ ps) = bytes_from p.from 0 p.recv_len ++ piece_bytes ps

-- The pieces are behind the data, and the socket stays open.
pub record Fills (b : MessageBuffer) (ps : List Piece) (result : MessageBuffer × Bool)
    : Type 0 where
  pub appended : Appends b (piece_bytes ps) result.0
  pub open_still : result.1 ≡ true

fill_step :
    (from : ℕ → ℕ) (n : ℕ) (results : List Received) (b : MessageBuffer)
    → b.size ≡ messenger_recv_queue_length
    → b.data_length < messenger_recv_buffer
    → receive_all (received from n ∷ results) b
      ≡ receive_all results (write_message_buffer b from n).1
unfolding receive_all
fill_step from n results b size few =
    let some_room : ltb 100000 ((b.size + (2 ^ 64 - b.data_length)) % 2 ^ 64) ≡ true =
      ground arith in
    rw some_room refl

nil-Appends : (b : MessageBuffer) → Fits b → Appends b [] b
nil-Appends b fits = record {
  fits = fits;
  both = sym (append-nil (contents b));
  same_size = refl;
  more = omega arith;
}

pub receive_all-Fills :
    (ps : List Piece) (b : MessageBuffer)
    → Fits b
    → b.size ≡ messenger_recv_queue_length
    → All IsSome ps
    → b.data_length + length (piece_bytes ps) ≤ messenger_recv_buffer
    → Fills b ps (receive_all (map arrival ps) b)
unfolding receive_all
receive_all-Fills [] b fits size some_bytes few = record {
  appended = nil-Appends b fits;
  open_still = refl;
}
receive_all-Fills (p ∷ ps) b fits size some_bytes few =
    let n = p.recv_len in
    let u = (write_message_buffer b p.from n).1 in
    let counted = length-bytes_from p.from 0 n in
    let both = length-append (bytes_from p.from 0 n) (piece_bytes ps) in
    let first : Appends b (bytes_from p.from 0 n) u =
      ((write-Appends b fits p.from n).0 (omega arith)).1 in
    let ih =
      receive_all-Fills ps u first.fits (first.same_size ∙ size) some_bytes.1
        (omega (arith, first.more)) in
    let step = fill_step p.from n (map arrival ps) b size (omega (arith, some_bytes.0)) in
    rw step (record { appended = Appends-Appends first ih.appended; open_still = ih.open_still })

-- When the data of a receive queue of the source's size, and what arrives in any non-empty pieces,
-- 100000 bytes at most, are the bytes of messages and a part of one, `on_recv` with more fuel than
-- messages delivers these messages in order, each with at most 100000 bytes of its payload, keeps
-- the part, and leaves the socket open.
pub on_recv-Delivers :
    (ss : List Sent) (fuel : ℕ) (ps : List Piece) (b : MessageBuffer) (bytes : List ℕ)
    → Fits b
    → b.size ≡ messenger_recv_queue_length
    → All IsSome ps
    → All IsCarried ss
    → IsPartial bytes
    → b.data_length + length (piece_bytes ps) ≤ messenger_recv_buffer
    → length ss < fuel
    → contents b ++ piece_bytes ps ≡ frames ss ++ bytes
    → Delivers (on_recv fuel (map arrival ps) b).0 ss bytes
      × ((on_recv fuel (map arrival ps) b).1 ≡ true)
unfolding on_recv
on_recv-Delivers ss fuel ps b bytes fits size some_bytes carried part few enough starts =
    let fills = receive_all-Fills ps b fits size some_bytes few in
    let filled = (receive_all (map arrival ps) b).0 in
    (
      pull_all-Delivers ss fuel filled bytes fills.appended.fits carried part enough
          (fills.appended.both ∙ starts),
      fills.open_still,
    )
