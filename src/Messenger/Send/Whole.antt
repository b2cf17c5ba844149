-- ===== src/Messenger/Send/Whole.antt =====
-- src/lib/messenger.c: `get_send_data` counts whole messages.
use trema.Base.{
  ℕ, zero, suc, ◌+◌, ◌-◌, ◌%◌, ◌^◌, ◌≤◌, ◌<◌, ◌≡◌, ◌∙◌, ◌⊎◌, refl, sym, ap, inl, inr, true, false,
  Option, some, List, [], ◌∷◌, ◌++◌, length, length-append, drop, All, ltb, ◌==◌, if◌then◌else◌,
  Bool-cases, arith,
}
use trema.Messenger.{MessageBuffer, bytes_from, header_bytes}
use trema.Messenger.Bytes.{drop-bytes_from, length-bytes_from}
use trema.Messenger.Contents.{Fits, contents}
use trema.Messenger.Deliver.{drop-frame, whole_field, length_read, in_range, long}
use trema.Messenger.Frames.{frame}
use trema.Messenger.Pulls.{Sent, IsCarried, frames}
use trema.Messenger.Send.{add_messages, get_send_data, bucket_size}

-- the buffer without the bytes in front of an offset
abbrev pub behind : MessageBuffer → ℕ → MessageBuffer
behind b offset = record b {
  head_offset = b.head_offset + offset;
  data_length = b.data_length - offset;
}

-- What the loop counts of the messages: the first ones whole, all that the bucket holds.
greedy : (bucket length_so_far : ℕ) → List Sent → ℕ
greedy bucket n [] = n
greedy bucket n (s ∷ ss) =
    let sum = n + (8 + length s.payload) in
    let rest = greedy bucket sum ss in
    if ltb bucket sum then (if n == 0 then 8 + length s.payload else n) else rest

add_step :
    (fuel : ℕ) (b : MessageBuffer) (bucket offset n : ℕ) (s : Sent) (ss : List Sent)
    → Fits b
    → IsCarried s
    → offset ≤ b.data_length
    → n + (8 + length s.payload) < 2 ^ 32
    → contents (behind b offset) ≡ frame s.message_type s.tag s.payload ++ frames ss
    → add_messages (suc fuel) b bucket offset n ≡ (
        if ltb bucket (n + (8 + length s.payload))
        then some (if n == 0 then 8 + length s.payload else n)
        else add_messages fuel b bucket
            (offset + (8 + length s.payload))
            (n + (8 + length s.payload)))
unfolding add_messages
add_step fuel b bucket offset n s ss fits carried le small starts =
    let u = behind b offset in
    let field = whole_field u s.message_type s.tag s.payload (frames ss) carried starts in
    let counted = long u s.message_type s.tag s.payload (frames ss) carried starts in
    let enough : ltb ((b.data_length + (2 ^ 64 - offset)) % 2 ^ 64) 8 ≡ false =
      ground (arith, fits.inside, fits.small, counted) in
    let sum : (n + (8 + length s.payload)) % 2 ^ 32 ≡ n + (8 + length s.payload) = omega arith in
    rw
      (
        length_read u s.message_type s.tag s.payload carried field,
        enough,
        in_range u s.message_type s.tag s.payload carried field,
        sum,
      )
      refl

behind_next :
    (b : MessageBuffer) (offset : ℕ) (s : Sent) (ss : List Sent)
    → offset + (8 + length s.payload) ≤ b.data_length
    → contents (behind b offset) ≡ frame s.message_type s.tag s.payload ++ frames ss
    → contents (behind b (offset + (8 + length s.payload))) ≡ frames ss
behind_next b offset s ss le starts =
    let m = 8 + length s.payload in
    let place : b.head_offset + (offset + m) ≡ b.head_offset + offset + m = omega arith in
    let left : b.data_length - (offset + m) ≡ b.data_length - offset - m = omega arith in
    ap (λ h. bytes_from b.buffer h (b.data_length - (offset + m))) place
    ∙ ap (bytes_from b.buffer (b.head_offset + offset + m)) left
    ∙ sym
        (drop-bytes_from b.buffer (b.head_offset + offset) (b.data_length - offset) m (omega arith))
    ∙ ap (drop m) starts
    ∙ drop-frame s.message_type s.tag s.payload (frames ss)

stop_step :
    (fuel : ℕ) (b : MessageBuffer) (bucket offset n : ℕ)
    → Fits b
    → offset ≡ b.data_length
    → add_messages (suc fuel) b bucket offset n ≡ some n
unfolding add_messages
stop_step fuel b bucket offset n fits e =
    let few : ltb ((b.data_length + (2 ^ 64 - offset)) % 2 ^ 64) 8 ≡ true =
      ground (arith, fits.inside, fits.small) in
    rw few refl

add_messages-greedy :
    (ss : List Sent) (fuel : ℕ) (b : MessageBuffer) (bucket offset n : ℕ)
    → Fits b
    → All IsCarried ss
    → offset ≤ b.data_length
    → n + (b.data_length - offset) < 2 ^ 32
    → length ss < fuel
    → contents (behind b offset) ≡ frames ss
    → add_messages fuel b bucket offset n ≡ some (greedy bucket n ss)
unfolding greedy
add_messages-greedy ss zero b bucket offset n fits carried le small enough starts =
    absurd (omega arith)
add_messages-greedy [] (suc fuel) b bucket offset n fits carried le small enough starts =
    let counted = length-bytes_from b.buffer (b.head_offset + offset) (b.data_length - offset) in
    stop_step fuel b bucket offset n fits (omega (arith, counted, ap length starts))
add_messages-greedy (s ∷ ss) (suc fuel) b bucket offset n fits carried le small enough starts =
    let m = 8 + length s.payload in
    let counted =
      long (behind b offset) s.message_type s.tag s.payload (frames ss) carried.0 starts in
    let step =
      add_step fuel b bucket offset n s ss fits carried.0 le (omega (arith, counted)) starts in
    let ih =
      add_messages-greedy ss fuel b bucket (offset + m) (n + m) fits carried.1
        (omega (arith, counted)) (omega (arith, counted)) (omega arith)
        (behind_next b offset s ss (omega (arith, counted)) starts) in
    elim (Bool-cases (ltb bucket (n + m))) [
      | inl e ↦ rw (step, e) refl
      | inr e ↦ rw (step, e, ih) refl
    ]

-- `result` is `n` and the length of the first messages, within the bucket or one message, and is
-- not 0 when there are messages.
pub record Counts (bucket n : ℕ) (ss : List Sent) (result : ℕ) : Type 0 where
  pub first : List Sent
  pub others : List Sent
  pub split : ss ≡ first ++ others
  pub total : result ≡ n + length (frames first)
  pub within : (result ≤ bucket) ⊎ ((n ≡ 0) × (length first ≡ 1))
  pub progress : (ss ≡ []) ⊎ (0 < result)

frame-length :
    (s : Sent) (rest : List ℕ)
    → length (frame s.message_type s.tag s.payload ++ rest) ≡ 8 + length s.payload + length rest
unfolding header_bytes
frame-length s rest = omega (arith, length-append s.payload rest)

greedy-Counts :
    (bucket n : ℕ) (ss : List Sent) → n ≤ bucket → Counts bucket n ss (greedy bucket n ss)
unfolding greedy
greedy-Counts bucket n [] le = record {
  first = [];
  others = [];
  split = refl;
  total = omega arith;
  within = inl le;
  progress = inl refl;
}
greedy-Counts bucket n (s ∷ ss) le = elim (Bool-cases (ltb bucket (n + (8 + length s.payload)))) [
  | inl e ↦ elim (Bool-cases (n == 0)) [
    | inl z ↦
        rw (e, z)
          (record {
            first = s ∷ [];
            others = ss;
            split = refl;
            total = ground (arith, frame-length s []);
            within = inr (ground arith, refl);
            progress = inr (omega arith);
          })
    | inr z ↦
        rw (e, z)
          (record {
            first = [];
            others = s ∷ ss;
            split = refl;
            total = omega arith;
            within = inl le;
            progress = inr (ground arith);
          })
  ]
  | inr e ↦
      let ih = greedy-Counts bucket (n + (8 + length s.payload)) ss (ground arith) in
      rw e (record {
        first = s ∷ ih.first;
        others = ih.others;
        split = ap (λ l. s ∷ l) ih.split;
        total = omega (arith, ih.total, frame-length s (frames ih.first));
        within = elim (ih.within) [ inl h ↦ inl h | inr h ↦ absurd (omega (arith, h.0)) ];
        progress = inr (omega (arith, ih.total));
      })
]

-- Of a send queue that holds whole messages behind the offset, `get_send_data` with more fuel than
-- messages returns the length of the first of them: within the
-- bucket, or of one message that is longer, and not 0 when there are messages.
pub get_send_data-Counts :
    (ss : List Sent) (fuel : ℕ) (b : MessageBuffer) (socket_buffer_size : ℕ) (used : Option ℕ)
    (offset : ℕ)
    → Fits b
    → All IsCarried ss
    → offset ≤ b.data_length
    → length ss < fuel
    → contents (behind b offset) ≡ frames ss
    → (result : ℕ) × (get_send_data fuel b socket_buffer_size used offset ≡ some result)
      × Counts (bucket_size socket_buffer_size used) 0 ss result
unfolding get_send_data
get_send_data-Counts ss fuel b socket_buffer_size used offset fits carried le enough starts =
    let bucket = bucket_size socket_buffer_size used in
    (
      greedy bucket 0 ss,
      add_messages-greedy ss fuel b bucket offset 0 fits carried le
          (omega (arith, fits.inside, fits.small)) enough starts,
      greedy-Counts bucket 0 ss (omega arith),
    )
