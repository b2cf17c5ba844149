-- ===== src/Buffer.antt =====
-- src/lib/buffer.c. `block` is the memory behind `top`, by the place of a byte, and `front` is the
-- distance from `top` to `data`. Sizes are 64-bit numbers. The memory that `xmalloc` returns holds
-- bytes of its own choice, the parameter `junk`. The recursive mutex is held during a whole call.
pub mod Bytes
use trema.Base.{
  ℕ, zero, suc, ◌+◌, ◌-◌, ◌%◌, ◌^◌, Bool, true, false, not, ◌&&◌, Option, none, some, ◌==◌, ltb,
  leb, if◌then◌else◌,
}

pub record PrivateBuffer : Type 0 where
  -- `top != NULL`
  pub allocated : Bool
  pub front : ℕ
  pub data_length : ℕ
  pub real_length : ℕ
  pub block : ℕ → ℕ
  -- 0 for NULL, as the address of the function that frees it
  pub user_data : ℕ
  pub user_data_free_function : ℕ

-- `memcpy` and `memmove` of `n` bytes, and `memset` to 0
unfoldable pub copy_bytes : (to : ℕ → ℕ) (at : ℕ) (from : ℕ → ℕ) (start n : ℕ) → ℕ → ℕ
copy_bytes to at from start n j =
    if leb at j && ltb j (at + n) then from (start + (j - at)) else to j

unfoldable pub clear_bytes : (to : ℕ → ℕ) (at n : ℕ) → ℕ → ℕ
clear_bytes to at n j = if leb at j && ltb j (at + n) then 0 else to j

abbrev pub front_length_of : PrivateBuffer → ℕ
front_length_of t = t.front

unfoldable pub required_length : PrivateBuffer → ℕ → ℕ
required_length t n = (front_length_of t + t.data_length + n) % 2 ^ 64

unfoldable pub already_allocated : PrivateBuffer → ℕ → Bool
unfolding required_length
already_allocated t n = leb (required_length t n) t.real_length

unfoldable pub remove_front_buffer : PrivateBuffer → ℕ → Option PrivateBuffer
remove_front_buffer t n =
    if leb n t.data_length
    then some (record t { front = t.front + n; data_length = t.data_length - n })
    else none

-- what `free_buffer` gives back: the function it calls on the user data, if any, and the block
unfoldable pub free_buffer : PrivateBuffer → Option ℕ × Bool
free_buffer t = (
  if not (t.user_data == 0) && not (t.user_data_free_function == 0)
      then some t.user_data_free_function
      else none,
  t.allocated,
)

-- `b->length += length`
unfoldable pub lengthen : PrivateBuffer → ℕ → PrivateBuffer
lengthen t n = record t { data_length = (t.data_length + n) % 2 ^ 64 }

-- `memmove` and `memset` inside the block
unfoldable pub make_room : PrivateBuffer → ℕ → PrivateBuffer
unfolding copy_bytes clear_bytes
make_room t n = record t {
  block = clear_bytes (copy_bytes t.block (t.front + n) t.block t.front t.data_length) t.front n;
}

module _ (junk : ℕ → ℕ) where
  unfoldable pub alloc_buffer : PrivateBuffer
  alloc_buffer = record {
    allocated = false;
    front = 0;
    data_length = 0;
    real_length = 0;
    block = junk;
    user_data = 0;
    user_data_free_function = 0;
  }

  unfoldable pub alloc_new_data : PrivateBuffer → ℕ → PrivateBuffer
  alloc_new_data t n = record t {
    allocated = true;
    front = 0;
    data_length = n;
    real_length = n;
    block = junk;
  }

  unfoldable pub alloc_buffer_with_length : ℕ → PrivateBuffer
  unfolding alloc_buffer
  alloc_buffer_with_length n = record alloc_buffer { allocated = true; real_length = n }

  unfoldable pub append_front : PrivateBuffer → ℕ → PrivateBuffer
  unfolding required_length copy_bytes
  append_front t n = record t {
    real_length = required_length t n;
    block = copy_bytes junk (front_length_of t + n) t.block t.front t.data_length;
  }

  unfoldable pub append_back : PrivateBuffer → ℕ → PrivateBuffer
  unfolding required_length copy_bytes
  append_back t n = record t {
    real_length = required_length t n;
    block = copy_bytes junk (front_length_of t) t.block t.front t.data_length;
  }

  unfoldable pub append_front_buffer : PrivateBuffer → ℕ → PrivateBuffer
  unfolding alloc_new_data already_allocated make_room append_front lengthen
  append_front_buffer t n =
      if not t.allocated
      then alloc_new_data t n
      else lengthen (if already_allocated t n then make_room t n else append_front t n) n

  unfoldable pub append_back_buffer : PrivateBuffer → ℕ → PrivateBuffer
  unfolding alloc_new_data already_allocated append_back lengthen
  append_back_buffer t n =
      if t.real_length == 0
      then alloc_new_data t n
      else lengthen (if not (already_allocated t n) then append_back t n else t) n

  unfoldable pub duplicate_buffer : PrivateBuffer → PrivateBuffer
  unfolding alloc_buffer alloc_new_data copy_bytes
  duplicate_buffer t =
      let new_buffer = alloc_new_data alloc_buffer t.real_length in
      if t.real_length == 0 then alloc_buffer else record new_buffer {
        block = copy_bytes new_buffer.block 0 t.block 0 t.real_length;
        data_length = t.data_length;
        user_data = t.user_data;
        user_data_free_function = 0;
        front = new_buffer.front + front_length_of t;
      }
