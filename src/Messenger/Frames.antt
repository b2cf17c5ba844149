-- ===== src/Messenger/Frames.antt =====
-- src/lib/messenger.c: a message that was pushed to a queue is the one that is pulled.
use trema.Base.{
  ◌⊎◌, ℕ, ◌+◌, ◌-◌, ◌%◌, ◌^◌, ◌≤◌, ◌<◌, ◌≡◌, ◌∙◌, refl, ap, inl, inr, true, false, Option, none,
  List, [], ◌∷◌, ◌++◌, length, length-append, leb, ltb, Bool-cases, arith, is_some,
}
use trema.Create.{at}
use trema.Messenger.Bytes.{length-bytes_from}
use trema.Messenger.Contents.{Fits, contents, Appends, write-Appends}
use trema.Messenger.{
  MessageBuffer, bytes_from, SendQueue, Next, header_bytes, write_message_buffer, write_message,
  push_message_to_send_queue,
}

-- the bytes of a message on the way
abbrev pub frame : (message_type tag : ℕ) → List ℕ → List ℕ
frame message_type tag payload = header_bytes message_type tag (8 + length payload) ++ payload

pub append_assoc : (xs ys zs : List ℕ) → (xs ++ ys) ++ zs ≡ xs ++ (ys ++ zs)
append_assoc [] ys zs = refl
append_assoc (x ∷ xs) ys zs = ap (λ l. x ∷ l) (append_assoc xs ys zs)

pub Appends-Appends :
    {b u v : MessageBuffer} {xs ys : List ℕ}
    → Appends b xs u
    → Appends u ys v
    → Appends b (xs ++ ys) v
Appends-Appends {b} {u} {v} {xs} {ys} p q = record {
  fits = q.fits;
  both = q.both ∙ ap (λ l. l ++ ys) p.both ∙ append_assoc (contents b) xs ys;
  same_size = q.same_size ∙ p.same_size;
  more = omega (arith, p.more, q.more, length-append xs ys);
}

module _ (message_type tag : ℕ) (from : ℕ → ℕ) (len : ℕ) where
  module _ (b : MessageBuffer) (fits : Fits b) (room : b.data_length + (8 + len) ≤ b.size) where
    header : List ℕ
    header = header_bytes message_type tag (8 + len)

    header_whole : bytes_from (at header) 0 8 ≡ header
    unfolding header header_bytes bytes_from
    header_whole = refl

    header-length : length header ≡ 8
    unfolding header header_bytes
    header-length = refl

    header-Appends : Appends b header (write_message_buffer b (at header) 8).1
    header-Appends = rw header_whole at ((write-Appends b fits (at header) 8).0 (omega arith)).1

    message-Appends :
        Appends b
          (frame message_type tag (bytes_from from 0 len))
          (write_message b message_type tag (8 + len) from len)
    unfolding write_message header
    message-Appends =
        let p = header-Appends in
        let u = (write_message_buffer b (at header) 8).1 in
        let q =
          ((write-Appends u p.fits from len).0
            (omega (arith, p.same_size, p.more, header-length))).1 in
        rw (length-bytes_from from 0 len) (Appends-Appends p q)

  module _ (sq : SendQueue) where
    -- what a push leaves of the queue and returns when there is room
    pub record Pushed (result : Option Next × SendQueue) : Type 0 where
      pub success : is_some result.0 ≡ true
      pub appended :
          Appends sq.buffer (frame message_type tag (bytes_from from 0 len)) result.1.buffer
      pub no_overflow : result.1.overflow ≡ 0
      pub no_length : result.1.overflow_total_length ≡ 0

    -- and when there is none
    pub record Refused (result : Option Next × SendQueue) : Type 0 where
      pub failure : result.0 ≡ none
      pub same_buffer : result.1.buffer ≡ sq.buffer
      pub one_more : result.1.overflow ≡ (sq.overflow + 1) % 2 ^ 32
      pub lost : result.1.overflow_total_length ≡ (sq.overflow_total_length + (8 + len)) % 2 ^ 64

  module _ (sq : SendQueue) (fits : Fits sq.buffer) (small : 8 + len < 2 ^ 32) where
    push-Pushed :
        sq.buffer.data_length + (8 + len) ≤ sq.buffer.size
        → Pushed sq (push_message_to_send_queue sq message_type tag from len)
    unfolding push_message_to_send_queue
    push-Pushed room =
        let full : (8 + len) % 2 ^ 32 ≡ 8 + len = omega arith in
        let enough : ltb ((sq.buffer.size + (2 ^ 64 - sq.buffer.data_length)) % 2 ^ 64) (8 + len)
            ≡ false =
          ground (arith, fits.small) in
        rw (full, enough)
          (record {
            success = refl;
            appended = message-Appends sq.buffer fits room;
            no_overflow = refl;
            no_length = refl;
          })

    push-Refused :
        sq.buffer.size < sq.buffer.data_length + (8 + len)
        → Refused sq (push_message_to_send_queue sq message_type tag from len)
    unfolding push_message_to_send_queue
    push-Refused more =
        let full : (8 + len) % 2 ^ 32 ≡ 8 + len = omega arith in
        let short : ltb ((sq.buffer.size + (2 ^ 64 - sq.buffer.data_length)) % 2 ^ 64) (8 + len)
            ≡ true =
          ground (arith, fits.small, fits.inside) in
        rw (full, short)
          (record { failure = refl; same_buffer = refl; one_more = refl; lost = refl })

    -- A push to a queue whose data stand inside its buffer, of data below 2 ^ 32 - 8 bytes, either
    -- has room for a header of 8 bytes and the data: then it appends both to the data of the buffer,
    -- sets the overflow to 0 and succeeds; or it has not: then it leaves the buffer, counts an
    -- overflow and the length of the message, and fails.
    pub push_appends_or_refuses :
        ((sq.buffer.data_length + (8 + len) ≤ sq.buffer.size)
          × Pushed sq (push_message_to_send_queue sq message_type tag from len))
        ⊎ ((sq.buffer.size < sq.buffer.data_length + (8 + len))
            × Refused sq (push_message_to_send_queue sq message_type tag from len))
    push_appends_or_refuses =
        elim (Bool-cases (leb (sq.buffer.data_length + (8 + len)) sq.buffer.size)) [
          | inl e ↦ inl (ground arith, push-Pushed (ground arith))
          | inr e ↦ inr (ground arith, push-Refused (ground arith))
        ]
