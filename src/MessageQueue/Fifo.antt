-- ===== src/MessageQueue/Fifo.antt =====
-- src/lib/message_queue.c refines a first-in first-out queue.
use trema.Base.{
  ℕ, zero, suc, ◌+◌, ◌-◌, ◌%◌, ◌^◌, ◌≡◌, ◌∙◌, refl, sym, ap, true, false, Option, none, some, List,
  [], ◌∷◌, ◌++◌, length, drop, map, arith, length-append,
}
use trema.MessageQueue.{
  MessageQueue, create_message_queue, delete_message_queue, collect_garbage, enqueue_message,
  data_at, clear_at, is_drained, dequeue_message, peek_message,
}

next_place : (n : ℕ) → n + 1 ≡ suc n
next_place n = omega arith

module _ {ℓ} {A : Type ℓ} where
  -- `n` consumed elements whose data is NULL, the divider, NULL too, and then an element for each
  -- waiting message
  unfoldable pub chain_of : ℕ → List A → List (Option A)
  chain_of zero ms = none ∷ map some ms
  chain_of (suc n) ms = none ∷ chain_of n ms

  -- The queue holds the waiting messages `ms`, in order.
  pub record Represents (q : MessageQueue A) (ms : List A) : Type ℓ where
    pub chain : q.elements ≡ chain_of q.divider ms
    pub counted : q.queue_length ≡ length ms % 2 ^ 32

  length-map : (ms : List A) → length (map {B = Option A} some ms) ≡ length ms
  length-map [] = refl
  length-map (m ∷ ms) = omega (arith, length-map ms)

  length-chain_of : (n : ℕ) (ms : List A) → length (chain_of n ms) ≡ n + 1 + length ms
  unfolding chain_of
  length-chain_of zero ms = omega (arith, length-map ms)
  length-chain_of (suc n) ms = omega (arith, length-chain_of n ms)

  map-append : (ms : List A) (m : A) → map some ms ++ some m ∷ [] ≡ map some (ms ++ m ∷ [])
  map-append [] m = refl
  map-append (x ∷ ms) m = ap (λ l. some x ∷ l) (map-append ms m)

  chain_of-append :
      (n : ℕ) (ms : List A) (m : A) → chain_of n ms ++ some m ∷ [] ≡ chain_of n (ms ++ m ∷ [])
  unfolding chain_of
  chain_of-append zero ms m = ap (λ l. none ∷ l) (map-append ms m)
  chain_of-append (suc n) ms m = ap (λ l. none ∷ l) (chain_of-append n ms m)

  drop-chain_of : (n : ℕ) (ms : List A) → drop n (chain_of n ms) ≡ chain_of 0 ms
  unfolding chain_of
  drop-chain_of zero ms = refl
  drop-chain_of (suc n) ms = drop-chain_of n ms

  data_at-chain_of : (n : ℕ) (m : A) (ms : List A) → data_at (chain_of n (m ∷ ms)) (suc n) ≡ some m
  unfolding chain_of data_at
  data_at-chain_of zero m ms = refl
  data_at-chain_of (suc n) m ms = data_at-chain_of n m ms

  clear_at-chain_of :
      (n : ℕ) (m : A) (ms : List A) → clear_at (chain_of n (m ∷ ms)) (suc n) ≡ chain_of (suc n) ms
  unfolding chain_of clear_at
  clear_at-chain_of zero m ms = refl
  clear_at-chain_of (suc n) m ms = ap (λ l. none ∷ l) (clear_at-chain_of n m ms)

  delete-map : (ms : List A) → delete_message_queue (map some ms) ≡ ms
  unfolding delete_message_queue
  delete-map [] = refl
  delete-map (m ∷ ms) = ap (λ l. m ∷ l) (delete-map ms)

  delete-chain_of : (n : ℕ) (ms : List A) → delete_message_queue (chain_of n ms) ≡ ms
  unfolding delete_message_queue chain_of
  delete-chain_of zero ms = delete-map ms
  delete-chain_of (suc n) ms = delete-chain_of n ms

  pub create-Represents : Represents create_message_queue []
  unfolding create_message_queue chain_of
  create-Represents = record { chain = refl; counted = refl }

  -- `enqueue_message` puts the message behind those that wait.
  pub enqueue-Represents :
      (q : MessageQueue A) (ms : List A) (m : A)
      → Represents q ms
      → Represents (enqueue_message q m) (ms ++ m ∷ [])
  unfolding enqueue_message collect_garbage
  enqueue-Represents q ms m r = record {
    chain =
        ap (λ l. drop q.divider (l ++ some m ∷ [])) r.chain
        ∙ ap (drop q.divider) (chain_of-append q.divider ms m)
        ∙ drop-chain_of q.divider (ms ++ m ∷ []);
    counted = omega (arith, r.counted, length-append ms (m ∷ []));
  }

  drained-nil : (q : MessageQueue A) → Represents q [] → is_drained q ≡ true
  unfolding is_drained
  drained-nil q r = ground (arith, ap length r.chain, length-chain_of q.divider [])

  drained-cons :
      (q : MessageQueue A) (m : A) (ms : List A) → Represents q (m ∷ ms) → is_drained q ≡ false
  unfolding is_drained
  drained-cons q m ms r = ground (arith, ap length r.chain, length-chain_of q.divider (m ∷ ms))

  -- On a queue with no waiting message `dequeue_message` returns NULL and changes nothing, and
  -- `peek_message` returns NULL.
  pub dequeue-empty :
      (q : MessageQueue A)
      → Represents q []
      → (dequeue_message q ≡ (none, q)) × (peek_message q ≡ none)
  unfolding dequeue_message peek_message
  dequeue-empty q r = (rw (drained-nil q r), rw (drained-nil q r))

  peek-first :
      (q : MessageQueue A) (m : A) (ms : List A)
      → Represents q (m ∷ ms)
      → data_at q.elements (q.divider + 1) ≡ some m
  peek-first q m ms r =
      ap (λ n. data_at q.elements n) (next_place q.divider)
      ∙ ap (λ l. data_at l (suc q.divider)) r.chain
      ∙ data_at-chain_of q.divider m ms

  advanced :
      (q : MessageQueue A) (m : A) (ms : List A)
      → Represents q (m ∷ ms)
      → Represents
          (record q {
            elements = clear_at q.elements (q.divider + 1);
            divider = q.divider + 1;
            queue_length = (q.queue_length + (2 ^ 32 - 1)) % 2 ^ 32;
          })
          ms
  advanced q m ms r = record {
    chain =
        ap (λ n. clear_at q.elements n) (next_place q.divider)
        ∙ ap (λ l. clear_at l (suc q.divider)) r.chain
        ∙ clear_at-chain_of q.divider m ms
        ∙ ap (λ n. chain_of n ms) (sym (next_place q.divider));
    counted = omega (arith, r.counted);
  }

  -- With messages waiting, `dequeue_message` returns the first and leaves the others, and
  -- `peek_message` returns the first.
  pub dequeue-first :
      (q : MessageQueue A) (m : A) (ms : List A)
      → Represents q (m ∷ ms)
      → ((dequeue_message q).0 ≡ some m)
        × Represents (dequeue_message q).1 ms
        × (peek_message q ≡ some m)
  unfolding dequeue_message peek_message
  dequeue-first q m ms r =
      let first = peek-first q m ms r in
      let busy = drained-cons q m ms r in
      (rw busy first, rw busy (advanced q m ms r), rw busy first)

  -- `delete_message_queue` frees the waiting messages, and no message that was taken out.
  pub delete-waiting :
      (q : MessageQueue A) (ms : List A) → Represents q ms → delete_message_queue q.elements ≡ ms
  delete-waiting q ms r = ap delete_message_queue r.chain ∙ delete-chain_of q.divider ms
