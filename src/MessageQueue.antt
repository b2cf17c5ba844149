-- ===== src/MessageQueue.antt =====
-- src/lib/message_queue.c: a queue that one thread fills and one thread empties. `elements` holds
-- the data of the chain from `head` to `tail`, none for NULL, and `divider` is the number of
-- elements before the divider: those in front of it and itself were consumed. A NULL queue or
-- message, for which the source calls `die`, is left out.
pub mod Fifo
use trema.Base.{
  ℕ, zero, suc, ◌+◌, ◌-◌, ◌%◌, ◌^◌, Bool, true, false, Option, none, some, List, [], ◌∷◌, ◌++◌,
  ◌==◌, if◌then◌else◌, length, drop,
}

pub record MessageQueue {ℓ} (A : Type ℓ) : Type ℓ where
  pub elements : List (Option A)
  pub divider : ℕ
  pub queue_length : ℕ

module _ {ℓ} {A : Type ℓ} where
  unfoldable pub create_message_queue : MessageQueue A
  create_message_queue = record { elements = none ∷ []; divider = 0; queue_length = 0 }

  -- the messages that `delete_message_queue` frees, from the head on
  unfoldable pub delete_message_queue : List (Option A) → List A
  delete_message_queue [] = []
  delete_message_queue (none ∷ es) = delete_message_queue es
  delete_message_queue (some a ∷ es) = a ∷ delete_message_queue es

  -- the loop up to the divider
  unfoldable pub collect_garbage : MessageQueue A → MessageQueue A
  collect_garbage q = record q { elements = drop q.divider q.elements; divider = 0 }

  unfoldable pub enqueue_message : MessageQueue A → A → MessageQueue A
  unfolding collect_garbage
  enqueue_message q message = collect_garbage (record q {
    elements = q.elements ++ some message ∷ [];
    queue_length = (q.queue_length + 1) % 2 ^ 32;
  })

  -- the data of the element at a position, none when it is NULL or there is none
  unfoldable pub data_at : List (Option A) → ℕ → Option A
  data_at [] n = none
  data_at (e ∷ es) zero = e
  data_at (e ∷ es) (suc n) = data_at es n

  -- `next->data = NULL`
  unfoldable pub clear_at : List (Option A) → ℕ → List (Option A)
  clear_at [] n = []
  clear_at (e ∷ es) zero = none ∷ es
  clear_at (e ∷ es) (suc n) = e ∷ clear_at es n

  -- `queue->divider == queue->tail`
  unfoldable pub is_drained : MessageQueue A → Bool
  is_drained q = q.divider + 1 == length q.elements

  unfoldable pub dequeue_message : MessageQueue A → Option A × MessageQueue A
  unfolding is_drained data_at clear_at
  dequeue_message q = if is_drained q then (none, q) else (
    data_at q.elements (q.divider + 1),
    record q {
      elements = clear_at q.elements (q.divider + 1);
      divider = q.divider + 1;
      queue_length = (q.queue_length + (2 ^ 32 - 1)) % 2 ^ 32;
    },
  )

  unfoldable pub peek_message : MessageQueue A → Option A
  unfolding is_drained data_at
  peek_message q = if is_drained q then none else data_at q.elements (q.divider + 1)

  -- the loop over the elements: the function is called until it returns false
  unfoldable pub foreach_from {κ} : {S : Type κ} → List (Option A) → (A → S → Bool × S) → S → S
  foreach_from [] function s = s
  foreach_from (none ∷ es) function s = s
  foreach_from (some a ∷ es) function s =
      let next = function a s in
      let rest = foreach_from es function next.1 in if next.0 then rest else next.1

  unfoldable pub foreach_message_queue {κ} :
      {S : Type κ} → MessageQueue A → (A → S → Bool × S) → S → S
  unfolding is_drained foreach_from
  foreach_message_queue q function s =
      if is_drained q then s else foreach_from (drop (q.divider + 1) q.elements) function s
