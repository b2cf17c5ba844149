-- ===== src/Message/Coverage.antt =====
-- The errors that src/switch_manager/ofpmsg_recv.c finds an OpenFlow error for, with
-- `get_error_type_and_code` of src/lib/openflow_message.c.
use trema.Base.{ℕ, ◌≡◌, Bool, true, not, ◌||◌, Option, some, ◌==◌, switch_or, arith, is_some}
use trema.Actions.{MessageError, undefined_type}
use trema.Message.{Message, header_type}
use trema.Message.Simple.{
  validate_hello, validate_error, validate_echo_request, validate_echo_reply, validate_vendor,
  validate_features_request, validate_get_config_request, validate_barrier_request,
  validate_barrier_reply,
}
use trema.Message.Ports.{validate_set_config, validate_port_mod}
use trema.Message.StatsRequest.{validate_stats_request}
use trema.Message.Queues.{validate_queue_get_config_request}
use trema.Message.Validate.{validate_type, validate_openflow_message}
use trema.Message.ErrorMaps.{error_maps, get_error_type_and_code}
use trema.Message.Errors.{OnlyAny, some-Only, some-OnlyAny}
use trema.Message.Reports.{
  Reported, hello-Only, error-Only, echo_request-Only, echo_reply-Only, vendor-Only,
  features_request-Only, get_config_request-Only, set_config-Only, port_mod-Only,
  stats_request-Only, barrier_request-Only, barrier_reply-Only, queue_request-Only,
}

-- the types whose checks return only errors that their map has
unfoldable pub has_full_map : ℕ → Bool
has_full_map type = not (
    type == 6
    || type == 8
    || type == 10
    || type == 11
    || type == 12
    || type == 13
    || type == 14
    || type == 17
    || type == 21)

module _ (m : Message) (fuel : ℕ) where
  -- What a check of a type returns for a type with a full map.
  abbrev Covers : ℕ → Option (Option MessageError) → Type 0
  Covers type result = has_full_map type ≡ true → OnlyAny (Reported type) result

  hello-Covers : Covers 0 (some (validate_hello m))
  unfolding get_error_type_and_code error_maps
  hello-Covers _ = some-OnlyAny (Reported 0) (validate_hello m) (hello-Only m)

  error-Covers : Covers 1 (some (validate_error m))
  unfolding get_error_type_and_code error_maps
  error-Covers _ = some-OnlyAny (Reported 1) (validate_error m) (error-Only m)

  echo_request-Covers : Covers 2 (some (validate_echo_request m))
  unfolding get_error_type_and_code error_maps
  echo_request-Covers _ = some-OnlyAny (Reported 2) (validate_echo_request m) (echo_request-Only m)

  echo_reply-Covers : Covers 3 (some (validate_echo_reply m))
  unfolding get_error_type_and_code error_maps
  echo_reply-Covers _ = some-OnlyAny (Reported 3) (validate_echo_reply m) (echo_reply-Only m)

  vendor-Covers : Covers 4 (some (validate_vendor m))
  unfolding get_error_type_and_code error_maps
  vendor-Covers _ = some-OnlyAny (Reported 4) (validate_vendor m) (vendor-Only m)

  features_request-Covers : Covers 5 (some (validate_features_request m))
  unfolding get_error_type_and_code error_maps
  features_request-Covers _ =
      some-OnlyAny (Reported 5) (validate_features_request m) (features_request-Only m)

  get_config_request-Covers : Covers 7 (some (validate_get_config_request m))
  unfolding get_error_type_and_code error_maps
  get_config_request-Covers _ =
      some-OnlyAny (Reported 7) (validate_get_config_request m) (get_config_request-Only m)

  set_config-Covers : Covers 9 (some (validate_set_config m))
  unfolding get_error_type_and_code error_maps
  set_config-Covers _ = some-OnlyAny (Reported 9) (validate_set_config m) (set_config-Only m)

  port_mod-Covers : Covers 15 (some (validate_port_mod m))
  unfolding get_error_type_and_code error_maps
  port_mod-Covers _ = some-OnlyAny (Reported 15) (validate_port_mod m) (port_mod-Only m)

  stats_request-Covers : Covers 16 (some (validate_stats_request m))
  unfolding get_error_type_and_code error_maps
  stats_request-Covers _ =
      some-OnlyAny (Reported 16) (validate_stats_request m) (stats_request-Only m)

  barrier_request-Covers : Covers 18 (some (validate_barrier_request m))
  unfolding get_error_type_and_code error_maps
  barrier_request-Covers _ =
      some-OnlyAny (Reported 18) (validate_barrier_request m) (barrier_request-Only m)

  barrier_reply-Covers : Covers 19 (some (validate_barrier_reply m))
  unfolding get_error_type_and_code error_maps
  barrier_reply-Covers _ =
      some-OnlyAny (Reported 19) (validate_barrier_reply m) (barrier_reply-Only m)

  queue_request-Covers : Covers 20 (some (validate_queue_get_config_request m))
  unfolding get_error_type_and_code error_maps
  queue_request-Covers _ =
      some-OnlyAny (Reported 20) (validate_queue_get_config_request m) (queue_request-Only m)

  type-Covers : (t : ℕ) → Covers t (validate_type fuel m t)
  unfolding validate_type get_error_type_and_code has_full_map
  type-Covers t =
      (switch_or (Covers t) t 0 (λ e. rw e (hello-Covers))
        (λ n0.
          (switch_or (Covers t) t 1 (λ e. rw e (error-Covers))
            (λ n1.
              (switch_or (Covers t) t 2 (λ e. rw e (echo_request-Covers))
                (λ n2.
                  (switch_or (Covers t) t 3 (λ e. rw e (echo_reply-Covers))
                    (λ n3.
                      (switch_or (Covers t) t 4 (λ e. rw e (vendor-Covers))
                        (λ n4.
                          (switch_or (Covers t) t 5 (λ e. rw e (features_request-Covers))
                            (λ n5.
                              (switch_or (Covers t) t 6 (λ e. λ h. absurd (ground arith))
                                (λ n6.
                                  (switch_or (Covers t) t 7 (λ e. rw e (get_config_request-Covers))
                                    (λ n7.
                                      (switch_or (Covers t) t 8 (λ e. λ h. absurd (ground arith))
                                        (λ n8.
                                          (switch_or (Covers t) t 9 (λ e. rw e (set_config-Covers))
                                            (λ n9.
                                              (switch_or (Covers t) t 10
                                                (λ e. λ h. absurd (ground arith))
                                                (λ n10.
                                                  (switch_or (Covers t) t 11
                                                    (λ e. λ h. absurd (ground arith))
                                                    (λ n11.
                                                      (switch_or (Covers t) t 12
                                                        (λ e. λ h. absurd (ground arith))
                                                        (λ n12.
                                                          (switch_or (Covers t) t 13
                                                            (λ e. λ h. absurd (ground arith))
                                                            (λ n13.
                                                            (switch_or (Covers t) t 14
                                                            (λ e. λ h. absurd (ground arith))
                                                            (λ n14.
                                                            (switch_or (Covers t) t 15
                                                            (λ e. rw e (port_mod-Covers))
                                                            (λ n15.
                                                            (switch_or (Covers t) t 16
                                                            (λ e. rw e (stats_request-Covers))
                                                            (λ n16.
                                                            (switch_or (Covers t) t 17
                                                            (λ e. λ h. absurd (ground arith))
                                                            (λ n17.
                                                            (switch_or (Covers t) t 18
                                                            (λ e. rw e (barrier_request-Covers))
                                                            (λ n18.
                                                            (switch_or (Covers t) t 19
                                                            (λ e. rw e (barrier_reply-Covers))
                                                            (λ n19.
                                                            (switch_or (Covers t) t 20
                                                            (λ e. rw e (queue_request-Covers))
                                                            (λ n20.
                                                            (switch_or (Covers t) t 21
                                                            (λ e. λ h. absurd (ground arith))
                                                            (λ n21. (λ h.
                                                            some-OnlyAny (Reported t)
                                                            (some undefined_type)
                                                            (some-Only (Reported t) undefined_type
                                                            (ground arith)))))))))))))))))))))))))))
                                                            ))))))))))))))))))))

-- For every type but OFPT_FEATURES_REPLY, OFPT_GET_CONFIG_REPLY, OFPT_PACKET_IN, OFPT_FLOW_REMOVED,
-- OFPT_PORT_STATUS, OFPT_PACKET_OUT, OFPT_FLOW_MOD, OFPT_STATS_REPLY and OFPT_QUEUE_GET_CONFIG_REPLY,
-- `get_error_type_and_code` finds an OpenFlow error for each error that `validate_openflow_message`
-- returns.
pub validate_openflow_message-reported :
    (fuel : ℕ) (m : Message) (e : MessageError)
    → has_full_map (header_type m) ≡ true
    → validate_openflow_message fuel m ≡ some (some e)
    → is_some (get_error_type_and_code (header_type m) e) ≡ true
unfolding validate_openflow_message
validate_openflow_message-reported fuel m e full returned =
    type-Covers m fuel (header_type m) full e returned
