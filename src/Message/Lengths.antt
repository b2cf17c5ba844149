-- ===== src/Message/Lengths.antt =====
-- The lengths of the messages of each type that `validate_openflow_message` of
-- src/lib/openflow_message.c accepts.
use trema.Base.{
  ℕ, ◌≤◌, ◌<◌, ◌≡◌, inl, inr, Bool-cases, refl, Option, none, some, true, leb, switch, arith,
}
use trema.Actions.{MessageError, or_next, or_continue}
use trema.Message.{Message, header_type, validate_header}
use trema.Message.Simple.{
  validate_hello, validate_error, validate_echo_request, validate_echo_reply, validate_vendor,
  validate_features_request, validate_get_config_request, validate_barrier_request,
  validate_barrier_reply,
}
use trema.Message.Ports.{
  validate_features_reply, validate_switch_config, validate_get_config_reply, validate_set_config,
  validate_packet_in, validate_port_status, validate_port_mod,
}
use trema.Message.Flows.{validate_flow_removed, validate_packet_out, validate_flow_mod}
use trema.Message.Queues.{validate_queue_get_config_request, validate_queue_get_config_reply}
use trema.Message.Validate.{validate_type, validate_openflow_message}
use trema.Message.Framing.{
  Framed, least_length, greatest_length, continue-Framed, Frames, fixed-Frames, header-Frames,
  stats_request-Frames, stats_reply-Frames,
}

module _ (m : Message) (fuel : ℕ) where
  continue-Frames :
      (type : ℕ) (next : Option MessageError) (rest : Option (Option MessageError))
      → leb 8 (least_length type) ≡ true
      → leb type 21 ≡ true
      → Frames m type (
          or_continue
            (or_next (validate_header m type (least_length type) (greatest_length type)) next)
            rest)
  continue-Frames type next rest h k =
      continue-Framed m type (least_length type) (greatest_length type) next rest h k

  hello-Frames : Frames m 0 (some (validate_hello m))
  unfolding least_length greatest_length validate_hello
  hello-Frames = header-Frames m 0 refl refl

  error-Frames : Frames m 1 (some (validate_error m))
  unfolding least_length greatest_length validate_error
  error-Frames = header-Frames m 1 refl refl

  echo_request-Frames : Frames m 2 (some (validate_echo_request m))
  unfolding least_length greatest_length validate_echo_request
  echo_request-Frames = fixed-Frames m 2 _ refl refl

  echo_reply-Frames : Frames m 3 (some (validate_echo_reply m))
  unfolding least_length greatest_length validate_echo_reply
  echo_reply-Frames = fixed-Frames m 3 _ refl refl

  vendor-Frames : Frames m 4 (some (validate_vendor m))
  unfolding least_length greatest_length validate_vendor
  vendor-Frames = fixed-Frames m 4 _ refl refl

  features_request-Frames : Frames m 5 (some (validate_features_request m))
  unfolding least_length greatest_length validate_features_request
  features_request-Frames = header-Frames m 5 refl refl

  features_reply-Frames : Frames m 6 (some (validate_features_reply m))
  unfolding least_length greatest_length validate_features_reply
  features_reply-Frames = fixed-Frames m 6 _ refl refl

  get_config_request-Frames : Frames m 7 (some (validate_get_config_request m))
  unfolding least_length greatest_length validate_get_config_request
  get_config_request-Frames = header-Frames m 7 refl refl

  get_config_reply-Frames : Frames m 8 (some (validate_get_config_reply m))
  unfolding least_length greatest_length validate_get_config_reply validate_switch_config
  get_config_reply-Frames = fixed-Frames m 8 _ refl refl

  set_config-Frames : Frames m 9 (some (validate_set_config m))
  unfolding least_length greatest_length validate_set_config validate_switch_config
  set_config-Frames = fixed-Frames m 9 _ refl refl

  packet_in-Frames : Frames m 10 (some (validate_packet_in m))
  unfolding least_length greatest_length validate_packet_in
  packet_in-Frames = fixed-Frames m 10 _ refl refl

  flow_removed-Frames : Frames m 11 (some (validate_flow_removed m))
  unfolding least_length greatest_length validate_flow_removed
  flow_removed-Frames = fixed-Frames m 11 _ refl refl

  port_status-Frames : Frames m 12 (some (validate_port_status m))
  unfolding least_length greatest_length validate_port_status
  port_status-Frames = fixed-Frames m 12 _ refl refl

  packet_out-Frames : Frames m 13 (validate_packet_out fuel m)
  unfolding least_length greatest_length validate_packet_out
  packet_out-Frames = continue-Frames 13 _ _ refl refl

  flow_mod-Frames : Frames m 14 (validate_flow_mod fuel m)
  unfolding least_length greatest_length validate_flow_mod
  flow_mod-Frames = continue-Frames 14 _ _ refl refl

  port_mod-Frames : Frames m 15 (some (validate_port_mod m))
  unfolding least_length greatest_length validate_port_mod
  port_mod-Frames = fixed-Frames m 15 _ refl refl

  barrier_request-Frames : Frames m 18 (some (validate_barrier_request m))
  unfolding least_length greatest_length validate_barrier_request
  barrier_request-Frames = header-Frames m 18 refl refl

  barrier_reply-Frames : Frames m 19 (some (validate_barrier_reply m))
  unfolding least_length greatest_length validate_barrier_reply
  barrier_reply-Frames = header-Frames m 19 refl refl

  queue_get_config_request-Frames : Frames m 20 (some (validate_queue_get_config_request m))
  unfolding least_length greatest_length validate_queue_get_config_request
  queue_get_config_request-Frames = fixed-Frames m 20 _ refl refl

  queue_get_config_reply-Frames : Frames m 21 (validate_queue_get_config_reply fuel m)
  unfolding least_length greatest_length validate_queue_get_config_reply
  queue_get_config_reply-Frames = continue-Frames 21 _ _ refl refl

  type-Frames : (t : ℕ) → Frames m t (validate_type fuel m t)
  unfolding validate_type
  type-Frames t =
      (switch (Frames m t) t 0 (λ e. rw e (hello-Frames))
        (switch (Frames m t) t 1 (λ e. rw e (error-Frames))
          (switch (Frames m t) t 2 (λ e. rw e (echo_request-Frames))
            (switch (Frames m t) t 3 (λ e. rw e (echo_reply-Frames))
              (switch (Frames m t) t 4 (λ e. rw e (vendor-Frames))
                (switch (Frames m t) t 5 (λ e. rw e (features_request-Frames))
                  (switch (Frames m t) t 6 (λ e. rw e (features_reply-Frames))
                    (switch (Frames m t) t 7 (λ e. rw e (get_config_request-Frames))
                      (switch (Frames m t) t 8 (λ e. rw e (get_config_reply-Frames))
                        (switch (Frames m t) t 9 (λ e. rw e (set_config-Frames))
                          (switch (Frames m t) t 10 (λ e. rw e (packet_in-Frames))
                            (switch (Frames m t) t 11 (λ e. rw e (flow_removed-Frames))
                              (switch (Frames m t) t 12 (λ e. rw e (port_status-Frames))
                                (switch (Frames m t) t 13 (λ e. rw e (packet_out-Frames))
                                  (switch (Frames m t) t 14 (λ e. rw e (flow_mod-Frames))
                                    (switch (Frames m t) t 15 (λ e. rw e (port_mod-Frames))
                                      (switch (Frames m t) t 16 (λ e. rw e (stats_request-Frames m))
                                        (switch (Frames m t) t 17
                                          (λ e. rw e (stats_reply-Frames m fuel))
                                          (switch (Frames m t) t 18
                                            (λ e. rw e (barrier_request-Frames))
                                            (switch (Frames m t) t 19
                                              (λ e. rw e (barrier_reply-Frames))
                                              (switch (Frames m t) t 20
                                                (λ e. rw e (queue_get_config_request-Frames))
                                                (switch (Frames m t) t 21
                                                  (λ e. rw e (queue_get_config_reply-Frames))
                                                  (λ e. absurd (ground arith))))))))))))))))))))))))

type_defined : (fuel : ℕ) (m : Message) (t : ℕ) → validate_type fuel m t ≡ some none → t ≤ 21
unfolding validate_type
type_defined fuel m t h = elim (Bool-cases (leb t 21)) [
  | inl y ↦ ground arith
  | inr y ↦ let large : 21 < t = ground arith in absurd (ground arith)
]

-- A message that `validate_openflow_message` accepts has a type of OpenFlow 1.0, 21 at most, a
-- version that its type allows, the length that its header tells, and a length between the bounds of
-- its type.
pub validate_openflow_message-Framed :
    (fuel : ℕ) (m : Message)
    → validate_openflow_message fuel m ≡ some none
    → (header_type m ≤ 21)
      × Framed m (header_type m) (least_length (header_type m)) (greatest_length (header_type m))
unfolding validate_openflow_message
validate_openflow_message-Framed fuel m h =
    (type_defined fuel m (header_type m) h, type-Frames m fuel (header_type m) h)
