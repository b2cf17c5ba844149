-- ===== src/Messenger/Pulls.antt =====
-- src/lib/messenger.c: the second loop of `on_recv` takes all whole messages out of the bytes.
use trema.Base.{
  ℕ, zero, suc, ◌+◌, ◌≤◌, ◌<◌, ◌≡◌, ◌∙◌, refl, sym, ap, inl, inr, true, Option, some, List, [], ◌∷◌,
  ◌++◌, map, length, length-append, take, All, ltb, Bool-cases, arith,
}
use trema.Create.{at}
use trema.Messenger.Bytes.{at-bytes_from, length-bytes_from}
use trema.Messenger.Contents.{Fits, contents, truncate-Drops}
use trema.Messenger.Frames.{frame, append_assoc}
use trema.Messenger.Deliver.{Carried, at-append, in_range, length_read, pull_whole, rest_left}
use trema.Messenger.{
  MessageBuffer, header_bytes, Delivery, truncate_message_buffer, incomplete, pulled,
  pull_from_recv_queue, messenger_recv_buffer, pull_all,
}

-- A part of the bytes of a message from its start on, without the last one.
pub record IsPartial (bytes : List ℕ) : Type 0 where
  pub message_type : ℕ
  pub tag : ℕ
  pub payload : List ℕ
  pub carried : Carried message_type tag payload
  pub missing : List ℕ
  pub some_missing : 0 < length missing
  pub split : frame message_type tag payload ≡ bytes ++ missing

module _ (b : MessageBuffer) (p : IsPartial (contents b)) where
  header : List ℕ
  header = header_bytes p.message_type p.tag (8 + length p.payload)

  counted : length (contents b) ≡ b.data_length
  counted = length-bytes_from b.buffer b.head_offset b.data_length

  shorter : b.data_length + length p.missing ≡ 8 + length p.payload
  unfolding header_bytes
  shorter = omega (arith, counted, ap length p.split, length-append (contents b) p.missing)

  part_field : 8 ≤ b.data_length → (i : ℕ) → i < 8 → b.buffer (b.head_offset + i) ≡ at header i
  unfolding header
  part_field long i lt =
      sym (at-bytes_from b.buffer b.head_offset b.data_length i (omega arith))
      ∙ sym (at-append (contents b) p.missing i (omega (arith, counted)))
      ∙ sym (ap (λ l. at l i) p.split)
      ∙ at-append (header_bytes p.message_type p.tag (8 + length p.payload)) p.payload i
          (unfold header_bytes in lt)

  pull_partial : (maxlen : ℕ) → pull_from_recv_queue b maxlen ≡ incomplete
  unfolding pull_from_recv_queue header
  pull_partial maxlen = elim (Bool-cases (ltb b.data_length 8)) [
    | inl e ↦ rw e refl
    | inr e ↦
        let short : ltb b.data_length (8 + length p.payload) ≡ true =
          ground (arith, shorter, p.some_missing) in
        let field = part_field (ground arith) in
        rw
          (
            e,
            length_read b p.message_type p.tag p.payload p.carried field,
            in_range b p.message_type p.tag p.payload p.carried field,
            short,
          )
          refl
  ]

-- a message that a client sends
pub record Sent : Type 0 where
  pub message_type : ℕ
  pub tag : ℕ
  pub payload : List ℕ

abbrev pub IsCarried : Sent → Type 0
IsCarried s = Carried s.message_type s.tag s.payload

-- the bytes of messages one behind the other
abbrev pub frames : List Sent → List ℕ
frames [] = []
frames (s ∷ ss) = frame s.message_type s.tag s.payload ++ frames ss

-- what the callbacks are called with
abbrev pub delivery : Sent → Delivery
delivery s = record {
  message_type = s.message_type;
  tag = s.tag;
  len = length s.payload;
  value = take messenger_recv_buffer s.payload;
}

-- The loop delivered the messages, and left the bytes.
pub record Delivers (result : Option (List Delivery × MessageBuffer)) (ss : List Sent)
    (bytes : List ℕ) : Type 0 where
  pub left : MessageBuffer
  pub returns : result ≡ some (map delivery ss, left)
  pub left_fits : Fits left
  pub left_bytes : contents left ≡ bytes

stop_step :
    (fuel : ℕ) (b : MessageBuffer)
    → pull_from_recv_queue b messenger_recv_buffer ≡ incomplete
    → pull_all (suc fuel) b ≡ some ([], b)
unfolding pull_all
stop_step fuel b e = rw e refl

pull_step :
    (fuel : ℕ) (b u v : MessageBuffer) (s : Sent) (rest : List Delivery)
    → pull_from_recv_queue b messenger_recv_buffer
      ≡ pulled s.message_type s.tag (length s.payload) (take messenger_recv_buffer s.payload) u
    → pull_all fuel u ≡ some (rest, v)
    → pull_all (suc fuel) b ≡ some (delivery s ∷ rest, v)
unfolding pull_all
pull_step fuel b u v s rest e f = rw (e, f) refl

pub pull_all-Delivers :
    (ss : List Sent) (fuel : ℕ) (b : MessageBuffer) (bytes : List ℕ)
    → Fits b
    → All IsCarried ss
    → IsPartial bytes
    → length ss < fuel
    → contents b ≡ frames ss ++ bytes
    → Delivers (pull_all fuel b) ss bytes
pull_all-Delivers ss zero b bytes fits carried part enough starts = absurd (omega arith)
pull_all-Delivers [] (suc fuel) b bytes fits carried part enough starts =
    let whole : IsPartial (contents b) = record {
      message_type = part.message_type;
      tag = part.tag;
      payload = part.payload;
      carried = part.carried;
      missing = part.missing;
      some_missing = part.some_missing;
      split = part.split ∙ ap (λ l. l ++ part.missing) (sym starts);
    } in
    record {
      left = b;
      returns = stop_step fuel b (pull_partial b whole messenger_recv_buffer);
      left_fits = fits;
      left_bytes = starts;
    }
pull_all-Delivers (s ∷ ss) (suc fuel) b bytes fits carried part enough starts =
    let rest = frames ss ++ bytes in
    let first = starts ∙ append_assoc (frame s.message_type s.tag s.payload) (frames ss) bytes in
    let u = truncate_message_buffer b (8 + length s.payload) in
    let drops = truncate-Drops b fits (8 + length s.payload) in
    let behind = rest_left b s.message_type s.tag s.payload rest carried.0 first u drops in
    let ih = pull_all-Delivers ss fuel u bytes drops.fits carried.1 part (omega arith) behind in
    let taken =
      pull_whole b s.message_type s.tag s.payload rest carried.0 first messenger_recv_buffer in
    record {
      left = ih.left;
      returns = pull_step fuel b u ih.left s (map delivery ss) taken ih.returns;
      left_fits = ih.left_fits;
      left_bytes = ih.left_bytes;
    }
