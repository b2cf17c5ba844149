-- ===== src/Messenger/Contents.antt =====
-- src/lib/messenger.c: a buffer of a queue holds a sequence of bytes, to which a write appends and
-- from whose front a truncation drops.
use trema.Base.{
  ℕ, ◌+◌, ◌-◌, ◌%◌, ◌^◌, ◌≤◌, ◌<◌, ◌≡◌, ◌∙◌, refl, sym, ap, inl, inr, true, false, ◌||◌, List, ◌++◌,
  length, drop, leb, ltb, ◌==◌, Bool-cases, arith,
}
use trema.Buffer.{copy_bytes}
use trema.Messenger.Bytes.{
  bytes-same, drop-bytes_from, length-bytes_from, copy-inside, copied_behind, drop_all,
  drop_nothing,
}
use trema.Messenger.{
  MessageBuffer, bytes_from, put_data, write_message_buffer, drop_data, truncate_message_buffer,
}

-- The data stand inside the memory of the buffer.
pub record Fits (b : MessageBuffer) : Type 0 where
  pub inside : b.head_offset + b.data_length ≤ b.size
  pub small : b.size < 2 ^ 32

-- the data of a buffer
abbrev pub contents : MessageBuffer → List ℕ
contents b = bytes_from b.buffer b.head_offset b.data_length

-- What is left of a buffer whose first `len` bytes of data are dropped.
pub record Drops (b : MessageBuffer) (len : ℕ) (u : MessageBuffer) : Type 0 where
  pub fits : Fits u
  pub rest : contents u ≡ drop len (contents b)
  pub same_size : u.size ≡ b.size
  pub fewer : u.data_length ≡ b.data_length - len

-- A buffer that holds `bytes` behind the data of another one.
pub record Appends (b : MessageBuffer) (bytes : List ℕ) (u : MessageBuffer) : Type 0 where
  pub fits : Fits u
  pub both : contents u ≡ contents b ++ bytes
  pub same_size : u.size ≡ b.size
  pub more : u.data_length ≡ b.data_length + length bytes

module _ (b : MessageBuffer) (fits : Fits b) where
  module _ (from : ℕ → ℕ) (len : ℕ) (room : b.data_length + len ≤ b.size) where
    moved :
        bytes_from
          (copy_bytes
            (copy_bytes b.buffer 0 b.buffer b.head_offset b.data_length)
            b.data_length
            from
            0
            len)
          0
          (b.data_length + len)
        ≡ contents b ++ bytes_from from 0 len
    moved =
        let to = copy_bytes b.buffer 0 b.buffer b.head_offset b.data_length in
        let place : 0 + b.data_length ≡ b.data_length = omega arith in
        ap (λ k. bytes_from (copy_bytes to k from 0 len) 0 (b.data_length + len)) (sym place)
        ∙ copied_behind to from 0 b.data_length len
        ∙ ap (λ l. l ++ bytes_from from 0 len)
            (bytes-same to b.buffer 0 b.head_offset b.data_length
              (λ i lt. copy-inside b.buffer 0 b.buffer b.head_offset b.data_length i lt))

    put-contents :
        bytes_from
          (put_data b from len).buffer
          (put_data b from len).head_offset
          (b.data_length + len)
        ≡ contents b ++ bytes_from from 0 len
    unfolding put_data
    put-contents = elim (Bool-cases (leb ((b.head_offset + b.data_length + len) % 2 ^ 64) b.size)) [
      | inl e ↦ rw e (copied_behind b.buffer from b.head_offset b.data_length len)
      | inr e ↦ rw e moved
    ]

    put-inside : (put_data b from len).head_offset + (b.data_length + len) ≤ b.size
    unfolding put_data
    put-inside = ground (arith, fits.inside, fits.small)

    put-size : (put_data b from len).size ≡ b.size
    unfolding put_data
    put-size = ground arith

    written : MessageBuffer
    written = record (put_data b from len) { data_length = b.data_length + len }

    written-Appends : Appends b (bytes_from from 0 len) written
    unfolding written
    written-Appends = record {
      fits = record {
        inside = omega (arith, put-inside, put-size);
        small = omega (arith, put-size, fits.small);
      };
      both = put-contents;
      same_size = put-size;
      more = omega (arith, length-bytes_from from 0 len);
    }

    write-room : write_message_buffer b from len ≡ (true, written)
    unfolding write_message_buffer written
    write-room =
        let sum : (b.data_length + len) % 2 ^ 64 ≡ b.data_length + len =
          omega (arith, fits.small) in
        let enough : ltb ((b.size + (2 ^ 64 - b.data_length)) % 2 ^ 64) len ≡ false =
          ground (arith, fits.small) in
        let result : write_message_buffer b from len ≡ (true, written) = rw (enough, sum) refl in
        result

  full :
      (from : ℕ → ℕ) (len : ℕ)
      → b.size < b.data_length + len
      → write_message_buffer b from len ≡ (false, b)
  unfolding write_message_buffer
  full from len more =
      let short : ltb ((b.size + (2 ^ 64 - b.data_length)) % 2 ^ 64) len ≡ true =
        ground (arith, fits.inside, fits.small) in
      let result : write_message_buffer b from len ≡ (false, b) = rw short refl in result

  -- `write_message_buffer` of at most the bytes that remain returns true and appends them to the
  -- data, in a buffer of the same size; of more, it returns false and changes nothing.
  pub write-Appends :
      (from : ℕ → ℕ) (len : ℕ)
      → (b.data_length + len ≤ b.size
          → ((write_message_buffer b from len).0 ≡ true)
            × Appends b (bytes_from from 0 len) (write_message_buffer b from len).1)
        × (b.size < b.data_length + len → write_message_buffer b from len ≡ (false, b))
  write-Appends from len = (
    λ room. (
      ap (λ r. r.0) (write-room from len room),
      rw (write-room from len room) (written-Appends from len room),
    ),
    λ more. full from len more,
  )

  dropped-Drops :
      (len n : ℕ)
      → n ≤ b.data_length
      → drop len (contents b) ≡ drop n (contents b)
      → b.data_length - len ≡ b.data_length - n
      → Drops b len (drop_data b n)
  unfolding drop_data
  dropped-Drops len n le same left =
      let short : leb ((b.head_offset + n) % 2 ^ 64) b.size ≡ true =
        ground (arith, fits.inside, fits.small) in
      rw short (record {
        fits = record { inside = omega (arith, fits.inside); small = fits.small };
        rest = sym (same ∙ drop-bytes_from b.buffer b.head_offset b.data_length n le);
        same_size = refl;
        fewer = sym left;
      })

  nothing : (len : ℕ) → len == 0 || b.data_length == 0 ≡ true → drop len (contents b) ≡ contents b
  nothing len e = drop_nothing b.buffer b.head_offset b.data_length len e

  unchanged-Drops :
      (len : ℕ)
      → drop len (contents b) ≡ contents b
      → b.data_length - len ≡ b.data_length
      → Drops b len b
  unchanged-Drops len same left = record {
    fits = fits;
    rest = sym same;
    same_size = refl;
    fewer = sym left;
  }

  -- `truncate_message_buffer` drops the bytes from the front of the data, all of them when there
  -- are fewer, in a buffer of the same size.
  pub truncate-Drops : (len : ℕ) → Drops b len (truncate_message_buffer b len)
  unfolding truncate_message_buffer
  truncate-Drops len = elim (Bool-cases (len == 0 || b.data_length == 0)) [
    | inl e ↦ rw e (unchanged-Drops len (nothing len e) (ground arith))
    | inr e ↦ rw e (elim (Bool-cases (ltb b.data_length len)) [
      | inl f ↦ rw f (
          dropped-Drops len b.data_length (omega arith)
            (drop_all b.buffer b.head_offset b.data_length len (ground arith)
              ∙ sym (drop_all b.buffer b.head_offset b.data_length b.data_length (omega arith)))
            (ground arith))
      | inr f ↦ rw f (dropped-Drops len len (ground arith) refl refl)
    ])
  ]
