-- ===== src/Messenger/Deliver.antt =====
-- src/lib/messenger.c: what is taken out of the bytes of a receive queue.
use trema.Base.{
  ℕ, zero, suc, ◌+◌, ◌-◌, ◌%◌, ◌^◌, ◌≤◌, ◌<◌, ◌≡◌, ◌∙◌, refl, sym, ap, inl, inr, false, List, [],
  ◌∷◌, ◌++◌, length, length-append, take, drop, leb, ltb, ◌==◌, ◌||◌, if◌then◌else◌, Bool-cases,
  arith,
}
use trema.Actions.{byte, ntohs_at}
use trema.Message.{ntohl_at}
use trema.Create.{at}
use trema.Messenger.Bytes.{drop-bytes_from, take-bytes_from, at-bytes_from, length-bytes_from}
use trema.Messenger.Contents.{contents, Drops}
use trema.Messenger.Frames.{frame, append_assoc}
use trema.Messenger.{
  MessageBuffer, bytes_from, header_bytes, truncate_message_buffer, pulled, pull_from_recv_queue,
  messenger_recv_queue_length,
}

take_short : (xs : List ℕ) (k : ℕ) → length xs ≤ k → take k xs ≡ xs
take_short [] zero h = refl
take_short [] (suc k) h = refl
take_short (x ∷ xs) zero h = absurd (omega arith)
take_short (x ∷ xs) (suc k) h = ap (λ l. x ∷ l) (take_short xs k (omega arith))

take-append : (xs ys : List ℕ) (k : ℕ) → k ≤ length xs → take k (xs ++ ys) ≡ take k xs
take-append xs ys zero h = refl
take-append [] ys (suc k) h = absurd (omega arith)
take-append (x ∷ xs) ys (suc k) h = ap (λ l. x ∷ l) (take-append xs ys k (omega arith))

drop-append : (xs ys : List ℕ) → drop (length xs) (xs ++ ys) ≡ ys
drop-append [] ys = refl
drop-append (x ∷ xs) ys = drop-append xs ys

-- what a type, a tag and a payload of a message need to travel
pub record Carried (message_type tag : ℕ) (payload : List ℕ) : Type 0 where
  pub type_width : message_type < 2 ^ 8
  pub tag_width : tag < 2 ^ 16
  pub fits_queue : 8 + length payload < messenger_recv_queue_length

pub at-append : (xs ys : List ℕ) (i : ℕ) → i < length xs → at (xs ++ ys) i ≡ at xs i
at-append [] ys i h = absurd (omega arith)
at-append (x ∷ xs) ys zero h = refl
at-append (x ∷ xs) ys (suc i) h = at-append xs ys i (omega arith)

pub drop-frame :
    (message_type tag : ℕ) (payload rest : List ℕ)
    → drop (8 + length payload) (frame message_type tag payload ++ rest) ≡ rest
unfolding header_bytes
drop-frame message_type tag payload rest =
    let n = length payload in
    let place : 8 + n ≡ suc (suc (suc (suc (suc (suc (suc (suc n))))))) = omega arith in
    ap (λ k. drop k (frame message_type tag payload ++ rest)) place ∙ drop-append payload rest

module _ (b : MessageBuffer) (message_type tag : ℕ) (payload : List ℕ)
    (carried : Carried message_type tag payload)
    (field : (i : ℕ)
      → i < 8
      → b.buffer (b.head_offset + i)
        ≡ at (header_bytes message_type tag (8 + length payload)) i) where
  type_read : byte b.buffer (b.head_offset + 1) ≡ message_type
  unfolding header_bytes
  type_read = omega (arith, field 1 (omega arith), carried.type_width)

  tag_read : ntohs_at b.buffer (b.head_offset + 2) ≡ tag
  unfolding header_bytes
  tag_read =
      let place : b.head_offset + 2 + 1 ≡ b.head_offset + 3 = omega arith in
      omega
        (arith, ap b.buffer place, field 2 (omega arith), field 3 (omega arith), carried.tag_width)

  pub length_read : ntohl_at b.buffer (b.head_offset + 4) ≡ 8 + length payload
  unfolding header_bytes
  length_read =
      let h = b.head_offset in
      let p5 : h + 4 + 1 ≡ h + 5 = omega arith in
      let p6 : h + 4 + 2 ≡ h + 6 = omega arith in
      let p7 : h + 4 + 2 + 1 ≡ h + 7 = omega arith in
      omega (
        arith,
        ap b.buffer p5,
        ap b.buffer p6,
        ap b.buffer p7,
        field 4 (omega arith),
        field 5 (omega arith),
        field 6 (omega arith),
        field 7 (omega arith),
        carried.fits_queue,
      )

  pub in_range :
      8 + length payload == 0 || leb messenger_recv_queue_length (8 + length payload) ≡ false
  in_range = ground (arith, carried.fits_queue)

module _ (b : MessageBuffer) (message_type tag : ℕ) (payload rest : List ℕ)
    (carried : Carried message_type tag payload)
    (starts : contents b ≡ frame message_type tag payload ++ rest) where
  pub long : b.data_length ≡ 8 + length payload + length rest
  unfolding header_bytes
  long = omega (
    arith,
    length-bytes_from b.buffer b.head_offset b.data_length,
    ap length starts,
    length-append payload rest,
  )

  pub whole_field :
      (i : ℕ)
      → i < 8
      → b.buffer (b.head_offset + i) ≡ at (header_bytes message_type tag (8 + length payload)) i
  whole_field i lt =
      sym (at-bytes_from b.buffer b.head_offset b.data_length i (omega (arith, long)))
      ∙ ap (λ l. at l i)
          (starts ∙ append_assoc (header_bytes message_type tag (8 + length payload)) payload rest)
      ∙ at-append (header_bytes message_type tag (8 + length payload)) (payload ++ rest) i
          (unfold header_bytes in lt)

  value_read :
      (k : ℕ) → k ≤ length payload → bytes_from b.buffer (b.head_offset + 8) k ≡ take k payload
  unfolding header_bytes
  value_read k le =
      sym (take-bytes_from b.buffer (b.head_offset + 8) (b.data_length - 8) k (omega (arith, long)))
      ∙ ap (take k)
          (sym (drop-bytes_from b.buffer b.head_offset b.data_length 8 (omega (arith, long))))
      ∙ ap (λ l. take k (drop 8 l)) starts
      ∙ take-append payload rest k le

  pub rest_left : (u : MessageBuffer) → Drops b (8 + length payload) u → contents u ≡ rest
  rest_left u d =
      d.rest ∙ ap (drop (8 + length payload)) starts ∙ drop-frame message_type tag payload rest

  copied :
      (maxlen : ℕ)
      → bytes_from b.buffer
          (b.head_offset + 8)
          (if ltb maxlen (length payload) then maxlen else length payload)
        ≡ take maxlen payload
  copied maxlen = elim (Bool-cases (ltb maxlen (length payload))) [
    | inl e ↦ rw e (value_read maxlen (ground arith))
    | inr e ↦ rw e (
        value_read (length payload) (omega arith)
        ∙ take_short payload (length payload) (omega arith)
        ∙ sym (take_short payload maxlen (ground arith)))
  ]

  pub pull_whole :
      (maxlen : ℕ)
      → pull_from_recv_queue b maxlen
        ≡ pulled message_type tag
            (length payload)
            (take maxlen payload)
            (truncate_message_buffer b (8 + length payload))
  unfolding pull_from_recv_queue
  pull_whole maxlen =
      let enough : ltb b.data_length 8 ≡ false = ground (arith, long) in
      let all : ltb b.data_length (8 + length payload) ≡ false = ground (arith, long) in
      let len : (8 + length payload + (2 ^ 64 - 8)) % 2 ^ 64 ≡ length payload =
        omega (arith, carried.fits_queue) in
      rw
        (
          enough,
          length_read b message_type tag payload carried whole_field,
          in_range b message_type tag payload carried whole_field,
          all,
          len,
          type_read b message_type tag payload carried whole_field,
          tag_read b message_type tag payload carried whole_field,
          copied maxlen,
        )
        refl
