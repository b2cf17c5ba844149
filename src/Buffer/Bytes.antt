-- ===== src/Buffer/Bytes.antt =====
-- src/lib/buffer.c: the bytes of a buffer stay inside its block, and each operation keeps them in
-- place.
use trema.Base.{ℕ, ◌+◌, ◌-◌, ◌^◌, ◌≤◌, ◌<◌, ◌≡◌, ◌∙◌, refl, ap, not, some, ◌==◌, arith}
use trema.Buffer.{
  PrivateBuffer, copy_bytes, clear_bytes, required_length, already_allocated, remove_front_buffer,
  alloc_buffer, alloc_new_data, alloc_buffer_with_length, append_front, append_back, lengthen,
  make_room, append_front_buffer, append_back_buffer, duplicate_buffer,
}

-- The data stand inside the block; there is a block just when its size is not 0.
pub record IsValid (t : PrivateBuffer) : Type 0 where
  pub inside : t.front + t.data_length ≤ t.real_length
  pub sized : t.real_length < 2 ^ 64
  pub owned : t.allocated ≡ not (t.real_length == 0)

-- a byte of the data
abbrev pub byte_at : PrivateBuffer → ℕ → ℕ
byte_at t i = t.block (t.front + i)

copy_bytes-inside :
    (to : ℕ → ℕ) (at : ℕ) (from : ℕ → ℕ) (start n i j : ℕ)
    → i < n
    → j ≡ at + i
    → copy_bytes to at from start n j ≡ from (start + i)
unfolding copy_bytes
copy_bytes-inside to at from start n i j lt e =
    let same : start + (j - at) ≡ start + i = omega arith in ground (arith, ap from same)

clear_bytes-outside : (to : ℕ → ℕ) (at n j : ℕ) → at + n ≤ j → clear_bytes to at n j ≡ to j
unfolding clear_bytes
clear_bytes-outside to at n j h = ground arith

make_room-byte :
    (t : PrivateBuffer) (n i : ℕ)
    → i < t.data_length
    → byte_at (make_room t n) (n + i) ≡ byte_at t i
unfolding make_room
make_room-byte t n i lt =
    clear_bytes-outside (copy_bytes t.block (t.front + n) t.block t.front t.data_length) t.front n
      (t.front + (n + i)) (omega arith)
    ∙ copy_bytes-inside t.block (t.front + n) t.block t.front t.data_length i (t.front + (n + i)) lt
        (omega arith)

-- On a well formed buffer `remove_front_buffer` of at most the length of the data returns, and
-- leaves the bytes behind the first `n`, inside the block.
pub remove_front_keeps :
    (t : PrivateBuffer) (n : ℕ)
    → IsValid t
    → n ≤ t.data_length
    → (u : PrivateBuffer) × (remove_front_buffer t n ≡ some u)
      × IsValid u
      × (u.data_length + n ≡ t.data_length)
      × ((i : ℕ) → byte_at u i ≡ byte_at t (n + i))
unfolding remove_front_buffer
remove_front_keeps t n valid le = (
  record t { front = t.front + n; data_length = t.data_length - n },
  ground arith,
  record { inside = omega (arith, valid.inside); sized = valid.sized; owned = valid.owned },
  omega arith,
  λ i. let same : t.front + n + i ≡ t.front + (n + i) = omega arith in ap t.block same,
)

module _ (junk : ℕ → ℕ) where
  front-byte :
      (t : PrivateBuffer) (n i : ℕ)
      → i < t.data_length
      → byte_at (append_front junk t n) (n + i) ≡ byte_at t i
  unfolding append_front
  front-byte t n i lt =
      copy_bytes-inside junk (t.front + n) t.block t.front t.data_length i (t.front + (n + i)) lt
        (omega arith)

  back-byte :
      (t : PrivateBuffer) (n i : ℕ)
      → i < t.data_length
      → byte_at (append_back junk t n) i ≡ byte_at t i
  unfolding append_back
  back-byte t n i lt =
      copy_bytes-inside junk t.front t.block t.front t.data_length i (t.front + i) lt refl

  pub alloc-IsValid : IsValid (alloc_buffer junk)
  unfolding alloc_buffer
  alloc-IsValid = record { inside = omega arith; sized = omega arith; owned = refl }

  pub alloc_with_length-IsValid :
      (n : ℕ) → 0 < n → n < 2 ^ 64 → IsValid (alloc_buffer_with_length junk n)
  unfolding alloc_buffer_with_length alloc_buffer
  alloc_with_length-IsValid n pos small = record {
    inside = omega arith;
    sized = small;
    owned = ground arith;
  }

  module _ (t : PrivateBuffer) (valid : IsValid t) (n : ℕ) (pos : 0 < n)
      (small : t.front + t.data_length + n < 2 ^ 64) where
    append_front-IsValid : IsValid (append_front_buffer junk t n)
    unfolding append_front_buffer alloc_new_data already_allocated make_room append_front lengthen
        required_length
    append_front-IsValid = record {
      inside = ground (arith, valid.inside, valid.owned);
      sized = ground (arith, valid.sized);
      owned = ground (arith, valid.owned, valid.inside);
    }

    append_front-length : (append_front_buffer junk t n).data_length ≡ t.data_length + n
    unfolding append_front_buffer alloc_new_data already_allocated make_room append_front lengthen
        required_length
    append_front-length = ground (arith, valid.inside, valid.owned)

    append_front-byte :
        (i : ℕ) → i < t.data_length → byte_at (append_front_buffer junk t n) (n + i) ≡ byte_at t i
    unfolding append_front_buffer lengthen
    append_front-byte i lt =
        ground (arith, valid.inside, valid.owned, make_room-byte t n i lt, front-byte t n i lt)

    -- On a well formed buffer `append_front_buffer` puts `n` bytes, more than none, in front of the
    -- data, which stay as they are, inside the block, whatever memory `xmalloc` returns, when the
    -- size that is needed is below 2 ^ 64.
    pub append_front_keeps :
        IsValid (append_front_buffer junk t n)
        × ((append_front_buffer junk t n).data_length ≡ t.data_length + n)
        × ((i : ℕ)
            → i < t.data_length
            → byte_at (append_front_buffer junk t n) (n + i) ≡ byte_at t i)
    append_front_keeps = (append_front-IsValid, append_front-length, append_front-byte)

    append_back-IsValid : IsValid (append_back_buffer junk t n)
    unfolding append_back_buffer alloc_new_data already_allocated append_back lengthen
        required_length
    append_back-IsValid = record {
      inside = ground (arith, valid.inside, valid.owned);
      sized = ground (arith, valid.sized);
      owned = ground (arith, valid.owned, valid.inside);
    }

    append_back-length : (append_back_buffer junk t n).data_length ≡ t.data_length + n
    unfolding append_back_buffer alloc_new_data already_allocated append_back lengthen
        required_length
    append_back-length = ground (arith, valid.inside, valid.owned)

    append_back-byte :
        (i : ℕ) → i < t.data_length → byte_at (append_back_buffer junk t n) i ≡ byte_at t i
    unfolding append_back_buffer lengthen
    append_back-byte i lt = ground (arith, valid.inside, valid.owned, back-byte t n i lt)

    -- On a well formed buffer `append_back_buffer` puts `n` bytes, more than none, behind the data,
    -- which stay as they are, inside the block, when the size that is needed is below 2 ^ 64.
    pub append_back_keeps :
        IsValid (append_back_buffer junk t n)
        × ((append_back_buffer junk t n).data_length ≡ t.data_length + n)
        × ((i : ℕ) → i < t.data_length → byte_at (append_back_buffer junk t n) i ≡ byte_at t i)
    append_back_keeps = (append_back-IsValid, append_back-length, append_back-byte)

  -- `duplicate_buffer` of a well formed buffer makes a well formed one with the same data, which
  -- has no function to free user data.
  pub duplicate_same :
      (t : PrivateBuffer)
      → IsValid t
      → IsValid (duplicate_buffer junk t)
        × ((duplicate_buffer junk t).data_length ≡ t.data_length)
        × ((i : ℕ) → i < t.data_length → byte_at (duplicate_buffer junk t) i ≡ byte_at t i)
        × ((duplicate_buffer junk t).user_data_free_function ≡ 0)
  unfolding duplicate_buffer alloc_buffer alloc_new_data
  duplicate_same t valid = (
    record {
      inside = ground (arith, valid.inside);
      sized = ground (arith, valid.sized);
      owned = ground (arith, valid.owned);
    },
    ground (arith, valid.inside),
    λ i lt. ground (
      arith,
      valid.inside,
      copy_bytes-inside junk 0 t.block 0 t.real_length (t.front + i) (t.front + i)
          (omega (arith, valid.inside)) (omega arith),
    ),
    ground arith,
  )
