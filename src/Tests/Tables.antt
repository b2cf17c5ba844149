-- ===== src/Tests/Tables.antt =====
-- Runs of src/lib/hash_table.c, src/lib/linked_list.c, src/lib/message_queue.c and
-- src/lib/buffer.c.
use trema.Base.{ap, length, ℕ, ◌+◌, ◌≤◌, ◌≡◌, refl, true, none, some, [], ◌∷◌, arith}
use trema.Buffer.{PrivateBuffer}
use trema.Buffer.Bytes as Bytes
use trema.Buffer.Bytes.{
  byte_at, append_front_keeps, append_back_keeps, remove_front_keeps, duplicate_same,
}
use trema.HashTable.{
  HashTable, create_hash_with_size, lookup_hash_entry, insert_hash_entry, delete_hash_entry,
}
use trema.HashTable.Bucket.{EntryList, find, multiplicity}
use trema.HashTable.Iterate.{
  delete_hash, init_hash_iterator, iterate_all, foreach_hash, foreach_bucket,
}
use trema.HashTable.Laws.{create-IsValid, insert-IsValid, lookup-insert, lookup-delete}
use trema.HashTable.Valid as Table
use trema.HashTable.Visits.{walk-lookup, delete_hash-frees}
use trema.HashTable.Walk.{all_entries, entries_in}
use trema.MessageQueue.{
  MessageQueue, create_message_queue, enqueue_message, dequeue_message, peek_message,
}
use trema.MessageQueue.Fifo.{Represents, create-Represents, enqueue-Represents, dequeue-first}
use trema.Utility.{hash_uint32, uint32_key}

-- Keys 1 and 5 share a bucket.
abbrev two_entries : HashTable ℕ ℕ
two_entries = (insert_hash_entry (insert_hash_entry (create_hash_with_size 4) 1 10).1 5 50).1

two_entries-IsValid : Table.IsValid two_entries
two_entries-IsValid =
    insert-IsValid (insert_hash_entry (create_hash_with_size 4) 1 10).1
      (insert-IsValid (create_hash_with_size 4) (create-IsValid 4 (omega arith)) 1 10 refl) 5 50
      refl

lookup-insert_example : lookup_hash_entry (insert_hash_entry two_entries 9 90).1 9 ≡ some 90
lookup-insert_example = lookup-insert two_entries two_entries-IsValid 9 90 9 refl refl

lookup-delete_example : lookup_hash_entry (delete_hash_entry two_entries 5).1 5 ≡ none
lookup-delete_example = lookup-delete two_entries two_entries-IsValid 5 5 refl refl

insert-IsValid_example : Table.IsValid (insert_hash_entry two_entries 1 11).1
insert-IsValid_example = insert-IsValid two_entries two_entries-IsValid 1 11 refl

two_entries-all : all_entries two_entries ≡ (5, 50) ∷ (1, 10) ∷ []
unfolding all_entries entries_in insert_hash_entry create_hash_with_size hash_uint32 find
two_entries-all = refl

walk-lookup_example :
    (entries : EntryList ℕ ℕ) × (iterate_all 3 (init_hash_iterator two_entries) ≡ some entries)
    × (foreach_hash two_entries (λ k v s. k + v + s) 0
        ≡ foreach_bucket entries (λ k v s. k + v + s) 0)
    × (find 5 entries ≡ lookup_hash_entry two_entries 5)
    × (multiplicity 5 entries ≤ 1)
walk-lookup_example =
    walk-lookup two_entries 5 3 (λ k v s. k + v + s) 0 two_entries-IsValid refl
      (omega (arith, ap length two_entries-all))

delete_hash-frees_example :
    ((delete_hash two_entries).0 ≡ all_entries two_entries)
    × ((i : ℕ) → (delete_hash two_entries).1.buckets i ≡ none)
delete_hash-frees_example = delete_hash-frees two_entries two_entries-IsValid

abbrev queue_of_two : MessageQueue ℕ
queue_of_two = enqueue_message (enqueue_message create_message_queue 7) 8

queue_of_two-Represents : Represents queue_of_two (7 ∷ 8 ∷ [])
queue_of_two-Represents =
    enqueue-Represents (enqueue_message create_message_queue 7) (7 ∷ []) 8
      (enqueue-Represents create_message_queue [] 7 create-Represents)

enqueue-Represents_example : Represents (enqueue_message queue_of_two 9) (7 ∷ 8 ∷ 9 ∷ [])
enqueue-Represents_example = enqueue-Represents queue_of_two (7 ∷ 8 ∷ []) 9 queue_of_two-Represents

dequeue-first_example :
    ((dequeue_message queue_of_two).0 ≡ some 7)
    × Represents (dequeue_message queue_of_two).1 (8 ∷ [])
    × (peek_message queue_of_two ≡ some 7)
dequeue-first_example = dequeue-first queue_of_two 7 (8 ∷ []) queue_of_two-Represents

-- a buffer of five bytes, with two before its data and one behind them
abbrev five_bytes : PrivateBuffer
five_bytes = record {
  allocated = true;
  front = 2;
  data_length = 2;
  real_length = 5;
  block = λ i. i + 65;
  user_data = 3;
  user_data_free_function = 4;
}

five_bytes-IsValid : Bytes.IsValid five_bytes
five_bytes-IsValid = record { inside = omega arith; sized = omega arith; owned = refl }

abbrev zeros : ℕ → ℕ
zeros i = 0
