-- ===== src/Message/QueueReply.antt =====
-- src/lib/openflow_message.c: the replies about queues that `validate_queue_get_config_reply`
-- accepts, and those on which it does not end.
use trema.Base.{ℕ, zero, suc, ◌+◌, ◌-◌, ◌%◌, ◌^◌, ◌≤◌, ◌<◌, ◌≡◌, ◌∙◌, refl, ap, none, some, arith}
use trema.Actions.{ntohs_at, or_continue, or_next, validate_phy_port_no}
use trema.Message.{Message, header_length, validate_header, or_rest}
use trema.Message.Framing.{validate_header-Framed}
use trema.Message.Queues.{
  queue_len, validate_packet_queue, validate_packet_queues, count_queues, count_one,
  validate_counted, validate_queue_get_config_reply,
}

module _ (b : ℕ → ℕ) where
  -- From a place, a number of valid queues fill the length that is left.
  pub data Tiled (fuel : ℕ) : (n o left : ℕ) → Type 0 where
    filled : {o : ℕ} → Tiled fuel 0 o 0
    queue :
        {n o left : ℕ}
        → queue_len b o ≤ left
        → 16 ≤ queue_len b o
        → validate_packet_queue fuel b o ≡ some none
        → Tiled fuel n (o + queue_len b o) (left - queue_len b o)
        → Tiled fuel (suc n) o left

  count-step :
      (fuel o left : ℕ)
      → 8 < left
      → count_queues (suc fuel) b o left
        ≡ count_one
            (count_queues fuel b (o + queue_len b o) ((left + 2 ^ 16 - queue_len b o) % 2 ^ 16))
  unfolding count_queues
  count-step fuel o left h = ground arith

  Tiled-count :
      (fuel n k o left : ℕ)
      → n ≤ k
      → left < 2 ^ 16
      → Tiled fuel n o left
      → count_queues (suc k) b o left ≡ some (n, 0)
  unfolding count_queues
  Tiled-count fuel zero k o zero l h filled = refl
  Tiled-count fuel zero k o (suc left) l h t = elim t [ ]
  Tiled-count fuel (suc n) zero o left l h t = absurd (omega arith)
  Tiled-count fuel (suc n) (suc k) o left l h (queue in_length size v rest) =
      let len = queue_len b o in
      let next : (left + 2 ^ 16 - len) % 2 ^ 16 ≡ left - len = omega arith in
      let counted = Tiled-count fuel n k (o + len) (left - len) (omega arith) (omega arith) rest in
      count-step (suc k) o left (omega arith)
      ∙ ap count_one (ap (count_queues (suc k) b (o + len)) next ∙ counted)

  counted-accepts :
      (fuel head n : ℕ)
      → validate_packet_queues fuel b head n ≡ some none
      → validate_counted fuel b head (some (n, 0)) ≡ some none
  unfolding validate_counted
  counted-accepts fuel head n h = ground arith

  Tiled-queues :
      (fuel n o left : ℕ) → Tiled fuel n o left → validate_packet_queues fuel b o n ≡ some none
  unfolding validate_packet_queues or_rest or_continue
  Tiled-queues fuel zero o left t = refl
  Tiled-queues fuel (suc n) o left (queue in_length size v rest) =
      let valid = Tiled-queues fuel n (o + queue_len b o) (left - queue_len b o) rest in
      rw (v, valid)

  count-diverges :
      (fuel o left : ℕ)
      → queue_len b o ≡ 0
      → 8 < left
      → left < 2 ^ 16
      → count_queues fuel b o left ≡ none
  unfolding count_queues
  count-diverges zero o left e h k = refl
  count-diverges (suc fuel) o left e h k =
      let place : o + queue_len b o ≡ o = omega arith in
      let same : (left + 2 ^ 16 - queue_len b o) % 2 ^ 16 ≡ left = omega arith in
      count-step fuel o left h
      ∙ ap count_one (
          ap (λ p. count_queues fuel b p ((left + 2 ^ 16 - queue_len b o) % 2 ^ 16)) place
          ∙ ap (count_queues fuel b o) same
          ∙ count-diverges fuel o left e h k)

module _ (m : Message) (header : validate_header m 21 24 0xffff ≡ none)
    (port : validate_phy_port_no (ntohs_at m.bytes 8) ≡ none) where
  rest_length : (header_length m + 2 ^ 16 - 16) % 2 ^ 16 ≡ m.length - 16
  rest_length =
      let framed = (validate_header-Framed m 21 24 0xffff (ground arith) (ground arith)).0 header in
      omega (arith, framed.same_length, framed.above, framed.below)

  behind_header :
      (fuel : ℕ)
      → validate_queue_get_config_reply fuel m
        ≡ validate_counted fuel m.bytes 16 (count_queues fuel m.bytes 16 (m.length - 16))
  unfolding validate_queue_get_config_reply or_continue or_next
  behind_header fuel = rw (header, port, rest_length)

  bounded : (24 ≤ m.length) × (m.length ≤ 0xffff)
  bounded =
      let framed = (validate_header-Framed m 21 24 0xffff (ground arith) (ground arith)).0 header in
      (framed.above, framed.below)

  -- With a valid header and port, `validate_queue_get_config_reply` accepts a reply whose bytes
  -- behind offset 16 are queues of 16 bytes at least, each accepted by `validate_packet_queue`
  -- within the fuel, when the fuel exceeds their number.
  pub queue_get_config_reply-accepts :
      (fuel n : ℕ)
      → n < fuel
      → Tiled m.bytes fuel n 16 (m.length - 16)
      → validate_queue_get_config_reply fuel m ≡ some none
  queue_get_config_reply-accepts zero n h tiled = absurd (omega arith)
  queue_get_config_reply-accepts (suc k) n h tiled =
      let left = m.length - 16 in
      let counted =
        Tiled-count m.bytes (suc k) n k 16 left (omega arith) (omega (arith, bounded.1)) tiled in
      behind_header (suc k)
      ∙ ap (validate_counted (suc k) m.bytes 16) counted
      ∙ counted-accepts m.bytes (suc k) 16 n (Tiled-queues m.bytes (suc k) n 16 left tiled)

  -- With a valid header and port, and more than 24 bytes, `validate_queue_get_config_reply` does
  -- not return, for any fuel, when the length of the first queue is 0.
  pub queue_get_config_reply-diverges :
      24 < m.length
      → queue_len m.bytes 16 ≡ 0
      → (fuel : ℕ) → validate_queue_get_config_reply fuel m ≡ none
  unfolding validate_counted
  queue_get_config_reply-diverges long e fuel =
      behind_header fuel
      ∙ ap (validate_counted fuel m.bytes 16) (
          count-diverges m.bytes fuel 16 (m.length - 16) e (omega arith) (omega (arith, bounded.1)))
