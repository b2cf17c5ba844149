-- ===== src/Message/Framing.antt =====
-- The length and the version of the messages that src/lib/openflow_message.c accepts.
use trema.Base.{
  ℕ, leb, switch, ◌≤◌, ◌≡◌, ◌↔◌, refl, ap, ◌||◌, true, Option, none, some, ◌==◌, arith,
  if◌then◌else◌,
}
use trema.Actions.{MessageError, ntohs_at, or_next, or_continue}
use trema.Actions.Checks.{or_next-none}
use trema.Actions.Loop.{or_continue-none}
use trema.Message.{
  Message, header_version, header_type, header_length, valid_message_version, validate_header,
}
use trema.Message.StatsRequest.{
  validate_stats_request, validate_desc_stats_request, validate_flow_stats_request,
  validate_aggregate_stats_request, validate_table_stats_request, validate_port_stats_request,
  validate_queue_stats_request, validate_vendor_stats_request,
}
use trema.Message.StatsReply.{
  validate_stats_reply, check_stats_reply, validate_desc_stats_reply, validate_flow_stats_reply,
  validate_aggregate_stats_reply, validate_table_stats_reply, validate_port_stats_reply,
  validate_queue_stats_reply, validate_vendor_stats_reply,
}

-- A header of a type, in a message whose length is the one of the header, within the bounds.
pub record Framed (m : Message) (type least greatest : ℕ) : Type 0 where
  pub of_type : header_type m ≡ type
  pub version : valid_message_version type (header_version m) ≡ true
  pub same_length : header_length m ≡ m.length
  pub above : least ≤ m.length
  pub below : m.length ≤ greatest

pub validate_header-Framed :
    (m : Message) (type least greatest : ℕ)
    → 8 ≤ least
    → type ≤ 21
    → (validate_header m type least greatest ≡ none) ↔ Framed m type least greatest
unfolding validate_header
validate_header-Framed m type least greatest h k = ground arith

-- OpenFlow 1.0: the size of the fixed part of a message, and the size of a message that has no
-- other part
unfoldable pub least_length : ℕ → ℕ
least_length type =
    if type == 1 || type == 4 || type == 8 || type == 9 || type == 16 || type == 17 || type == 20
    then 12
    else if type == 6 || type == 15
    then 32
    else if type == 10
    then 18
    else if type == 11
    then 88
    else if type == 12
    then 64
    else if type == 13
    then 16
    else if type == 14
    then 72
    else if type == 21
    then 24
    else 8

unfoldable pub greatest_length : ℕ → ℕ
unfolding least_length
greatest_length type =
    if type == 1
      || type == 2
      || type == 3
      || type == 4
      || type == 6
      || type == 10
      || type == 13
      || type == 14
      || type == 16
      || type == 17
      || type == 21
    then 0xffff
    else least_length type

Framed-weaken :
    {m : Message} {type a b c d : ℕ} → Framed m type a b → c ≤ a → b ≤ d → Framed m type c d
Framed-weaken f h k = ground arith

module _ (m : Message) where
  pub next-Framed :
      (type least greatest : ℕ) (rest : Option MessageError)
      → leb 8 least ≡ true
      → leb type 21 ≡ true
      → or_next (validate_header m type least greatest) rest ≡ none
      → Framed m type least greatest
  next-Framed type least greatest rest h k e =
      (validate_header-Framed m type least greatest (ground arith) (ground arith)).0
        ((or_next-none (validate_header m type least greatest) rest).0 e).0

  pub continue-Framed :
      (type least greatest : ℕ) (next : Option MessageError) (rest : Option (Option MessageError))
      → leb 8 least ≡ true
      → leb type 21 ≡ true
      → or_continue (or_next (validate_header m type least greatest) next) rest ≡ some none
      → Framed m type least greatest
  continue-Framed type least greatest next rest h k e =
      next-Framed type least greatest next h k
        (or_continue-none (or_next (validate_header m type least greatest) next) rest e).0

  -- What an accepting check of a type says.
  abbrev pub Frames : ℕ → Option (Option MessageError) → Type 0
  Frames type result = result ≡ some none → Framed m type (least_length type) (greatest_length type)

  pub some-Frames :
      (type : ℕ) (result : Option MessageError)
      → (result ≡ none → Framed m type (least_length type) (greatest_length type))
      → Frames type (some result)
  some-Frames type none f e = f refl
  some-Frames type (some x) f e = absurd (ground arith)

  pub fixed-Frames :
      (type : ℕ) (rest : Option MessageError)
      → leb 8 (least_length type) ≡ true
      → leb type 21 ≡ true
      → Frames type
          (some (or_next (validate_header m type (least_length type) (greatest_length type)) rest))
  fixed-Frames type rest h k =
      some-Frames type
        (or_next (validate_header m type (least_length type) (greatest_length type)) rest)
        (next-Framed type (least_length type) (greatest_length type) rest h k)

  stats-Frames :
      (type least greatest : ℕ) (rest : Option MessageError)
      → leb 8 least ≡ true
      → leb type 21 ≡ true
      → leb (least_length type) least ≡ true
      → leb greatest (greatest_length type) ≡ true
      → Frames type (some (or_next (validate_header m type least greatest) rest))
  stats-Frames type least greatest rest h k l g =
      some-Frames type (or_next (validate_header m type least greatest) rest) (λ e.
        Framed-weaken (next-Framed type least greatest rest h k e) (ground arith) (ground arith))

  abbrev FramesRequest : Option MessageError → Type 0
  FramesRequest result = Frames 16 (some result)

  pub stats_request-Frames : FramesRequest (validate_stats_request m)
  unfolding validate_stats_request least_length greatest_length validate_desc_stats_request
      validate_flow_stats_request validate_aggregate_stats_request validate_table_stats_request
      validate_port_stats_request validate_queue_stats_request validate_vendor_stats_request
  stats_request-Frames =
      let t = ntohs_at m.bytes 8 in
      switch FramesRequest t 0 (λ _. stats-Frames 16 12 12 _ refl refl refl refl)
        (switch FramesRequest t 1 (λ _. stats-Frames 16 56 56 _ refl refl refl refl)
          (switch FramesRequest t 2 (λ _. stats-Frames 16 56 56 _ refl refl refl refl)
            (switch FramesRequest t 3 (λ _. stats-Frames 16 12 12 _ refl refl refl refl)
              (switch FramesRequest t 4 (λ _. stats-Frames 16 20 20 _ refl refl refl refl)
                (switch FramesRequest t 5 (λ _. stats-Frames 16 20 20 _ refl refl refl refl)
                  (switch FramesRequest t 0xffff
                    (λ _. stats-Frames 16 16 0xffff _ refl refl refl refl)
                    (λ e. absurd (ground arith))))))))

  check_reply-Frames : Frames 17 (some (check_stats_reply m))
  unfolding check_stats_reply least_length greatest_length
  check_reply-Frames = stats-Frames 17 12 0xffff _ refl refl refl refl

  reply-Frames :
      (rest : Option MessageError) → Frames 17 (some (or_next (check_stats_reply m) rest))
  reply-Frames rest =
      some-Frames 17 (or_next (check_stats_reply m) rest)
        (λ e. check_reply-Frames (ap some ((or_next-none (check_stats_reply m) rest).0 e).0))

  pub stats_reply-Frames : (fuel : ℕ) → Frames 17 (validate_stats_reply fuel m)
  unfolding validate_stats_reply least_length greatest_length validate_desc_stats_reply
      validate_flow_stats_reply validate_aggregate_stats_reply validate_table_stats_reply
      validate_port_stats_reply validate_queue_stats_reply validate_vendor_stats_reply
  stats_reply-Frames fuel =
      let t = ntohs_at m.bytes 8 in
      switch (Frames 17) t 0 (λ _. stats-Frames 17 12 1068 _ refl refl refl refl)
        (switch (Frames 17) t 1
          (λ _ e. check_reply-Frames (ap some (or_continue-none (check_stats_reply m) _ e).0))
          (switch (Frames 17) t 2 (λ _. stats-Frames 17 12 36 _ refl refl refl refl)
            (switch (Frames 17) t 3 (λ _. reply-Frames _)
              (switch (Frames 17) t 4 (λ _. reply-Frames _)
                (switch (Frames 17) t 5 (λ _. reply-Frames _)
                  (switch (Frames 17) t 0xffff (λ _. check_reply-Frames)
                    (λ e. absurd (ground arith))))))))

  pub header-Frames :
      (type : ℕ)
      → leb 8 (least_length type) ≡ true
      → leb type 21 ≡ true
      → Frames type (some (validate_header m type (least_length type) (greatest_length type)))
  header-Frames type h k =
      some-Frames type (validate_header m type (least_length type) (greatest_length type))
        (validate_header-Framed m type (least_length type) (greatest_length type) (ground arith)
          (ground arith)).0
