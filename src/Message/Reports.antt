-- ===== src/Message/Reports.antt =====
-- src/lib/openflow_message.c: which errors of `validate_openflow_message` the error maps hold.
use trema.Base.{ℕ, ◌≡◌, refl, true, Option, is_some, switch, List}
use trema.Message.Flows.{ntoh_match, validate_match}
use trema.Actions.{
  ntohs_at, validate_phy_port_no, MessageError, error_no, invalid_port_no, invalid_port_config,
  invalid_port_features, invalid_port_mask, invalid_switch_config, invalid_stats_type,
  invalid_stats_request_flags, unsupported_stats_type, or_next,
}
use trema.Message.{Message, validate_header}
use trema.Message.Simple.{
  validate_hello, validate_error, validate_echo_request, validate_echo_reply, validate_vendor,
  validate_features_request, validate_get_config_request, validate_barrier_request,
  validate_barrier_reply,
}
use trema.Message.Ports.{validate_switch_config, validate_set_config, validate_port_mod}
use trema.Message.StatsRequest.{
  validate_stats_request, check_stats_request, validate_desc_stats_request,
  validate_flow_stats_request, validate_aggregate_stats_request, validate_table_stats_request,
  validate_port_stats_request, validate_queue_stats_request, validate_vendor_stats_request,
}
use trema.Message.Queues.{validate_queue_get_config_request}
use trema.Message.ErrorMaps.{
  ErrorRow, header_rows, hello_map, error_map, echo_request_map, echo_reply_map, vendor_map,
  features_request_map, get_config_request_map, set_config_map, port_mod_map, stats_request_map,
  barrier_request_map, barrier_reply_map, queue_get_config_request_map, find_error,
  get_error_type_and_code,
}
use trema.Message.Errors.{
  Only, some-Only, if-Only, next-Only, fail_if-Only, header-Only, phy_port_no-Only, match-Only,
  echo-validate_header,
}

-- The error has a row.
abbrev pub InRows : List ErrorRow → MessageError → Type 0
InRows rows e = is_some (find_error rows e) ≡ true

-- An OpenFlow error reports the error for a message of the type.
abbrev pub Reported : ℕ → MessageError → Type 0
Reported type e = is_some (get_error_type_and_code type e) ≡ true

module _ (m : Message) where
  pub set_config-Only : Only (InRows set_config_map) (validate_set_config m)
  unfolding validate_set_config validate_switch_config find_error set_config_map header_rows
      error_no
  set_config-Only =
      next-Only _ _ _ (header-Only _ m 9 12 12 (refl, refl, refl, refl, refl))
        (fail_if-Only _ _ invalid_switch_config refl)

  pub port_mod-Only : Only (InRows port_mod_map) (validate_port_mod m)
  unfolding validate_port_mod find_error port_mod_map header_rows error_no
  port_mod-Only =
      let P = InRows port_mod_map in
      next-Only P _ _ (header-Only P m 15 32 32 (refl, refl, refl, refl, refl)) (
        next-Only P _ _ (phy_port_no-Only P _ refl) (
          if-Only P _ _ _ (some-Only P invalid_port_no refl) (
            if-Only P _ _ _ (some-Only P invalid_port_config refl) (
              if-Only P _ _ _ (some-Only P invalid_port_mask refl)
                (fail_if-Only P _ invalid_port_features refl)))))

  pub hello-Only : Only (InRows hello_map) (validate_hello m)
  unfolding validate_hello find_error hello_map header_rows error_no
  hello-Only = header-Only (InRows hello_map) m 0 8 8 (refl, refl, refl, refl, refl)

  pub error-Only : Only (InRows error_map) (validate_error m)
  unfolding validate_error find_error error_map header_rows error_no
  error-Only = header-Only (InRows error_map) m 1 12 0xffff (refl, refl, refl, refl, refl)

  pub features_request-Only : Only (InRows features_request_map) (validate_features_request m)
  unfolding validate_features_request find_error features_request_map header_rows error_no
  features_request-Only =
      header-Only (InRows features_request_map) m 5 8 8 (refl, refl, refl, refl, refl)

  pub get_config_request-Only : Only (InRows get_config_request_map) (validate_get_config_request m)
  unfolding validate_get_config_request find_error get_config_request_map header_rows error_no
  get_config_request-Only =
      header-Only (InRows get_config_request_map) m 7 8 8 (refl, refl, refl, refl, refl)

  pub barrier_request-Only : Only (InRows barrier_request_map) (validate_barrier_request m)
  unfolding validate_barrier_request find_error barrier_request_map header_rows error_no
  barrier_request-Only =
      header-Only (InRows barrier_request_map) m 18 8 8 (refl, refl, refl, refl, refl)

  pub barrier_reply-Only : Only (InRows barrier_reply_map) (validate_barrier_reply m)
  unfolding validate_barrier_reply find_error barrier_reply_map header_rows error_no
  barrier_reply-Only =
      header-Only (InRows barrier_reply_map) m 19 8 8 (refl, refl, refl, refl, refl)

  pub echo_request-Only : Only (InRows echo_request_map) (validate_echo_request m)
  unfolding find_error echo_request_map header_rows error_no
  echo_request-Only =
      rw ((echo-validate_header m).0)
        (header-Only (InRows echo_request_map) m 2 8 0xffff (refl, refl, refl, refl, refl))

  pub echo_reply-Only : Only (InRows echo_reply_map) (validate_echo_reply m)
  unfolding find_error echo_reply_map header_rows error_no
  echo_reply-Only =
      rw ((echo-validate_header m).1)
        (header-Only (InRows echo_reply_map) m 3 8 0xffff (refl, refl, refl, refl, refl))

  pub vendor-Only : Only (InRows vendor_map) (validate_vendor m)
  unfolding find_error vendor_map header_rows error_no
  vendor-Only =
      rw ((echo-validate_header m).2)
        (header-Only (InRows vendor_map) m 4 12 0xffff (refl, refl, refl, refl, refl))

  pub queue_request-Only :
      Only (InRows queue_get_config_request_map) (validate_queue_get_config_request m)
  unfolding validate_queue_get_config_request find_error queue_get_config_request_map header_rows
      error_no
  queue_request-Only =
      next-Only _ _ _ (header-Only _ m 20 12 12 (refl, refl, refl, refl, refl))
        (phy_port_no-Only _ (ntohs_at m.bytes 8) refl)

  abbrev StatsErrors : Option MessageError → Type 0
  StatsErrors = Only (InRows stats_request_map)

  stats_header-Only : (least greatest : ℕ) → StatsErrors (validate_header m 16 least greatest)
  unfolding find_error stats_request_map header_rows error_no
  stats_header-Only least greatest =
      header-Only _ m 16 least greatest (refl, refl, refl, refl, refl)

  check_stats-Only : (type : ℕ) → StatsErrors (check_stats_request m type)
  unfolding check_stats_request find_error stats_request_map header_rows error_no
  check_stats-Only type =
      if-Only _ _ _ _ (some-Only _ invalid_stats_type refl)
        (fail_if-Only _ _ invalid_stats_request_flags refl)

  stats_port-Only : (port_no : ℕ) → StatsErrors (validate_phy_port_no port_no)
  unfolding find_error stats_request_map header_rows error_no
  stats_port-Only port_no = phy_port_no-Only _ port_no refl

  stats_match-Only : (o : ℕ) → StatsErrors (validate_match (ntoh_match m.bytes o))
  unfolding find_error stats_request_map header_rows error_no
  stats_match-Only o = match-Only _ (ntoh_match m.bytes o) refl refl refl refl

  next-stats :
      (a b : Option MessageError) → StatsErrors a → StatsErrors b → StatsErrors (or_next a b)
  next-stats = next-Only (InRows stats_request_map)

  pub stats_request-Only : StatsErrors (validate_stats_request m)
  unfolding validate_stats_request validate_desc_stats_request validate_flow_stats_request
      validate_aggregate_stats_request validate_table_stats_request validate_port_stats_request
      validate_queue_stats_request validate_vendor_stats_request find_error stats_request_map
      header_rows error_no
  stats_request-Only =
      let t = ntohs_at m.bytes 8 in
      switch StatsErrors t 0 (λ _. next-stats _ _ (stats_header-Only 12 12) (check_stats-Only 0))
        (switch StatsErrors t 1
          (λ _. next-stats _ _ (stats_header-Only 56 56) (
            next-stats _ _ (check_stats-Only 1)
              (next-stats _ _ (stats_match-Only 12) (stats_port-Only _))))
          (switch StatsErrors t 2
            (λ _. next-stats _ _ (stats_header-Only 56 56) (
              next-stats _ _ (check_stats-Only 2)
                (next-stats _ _ (stats_match-Only 12) (stats_port-Only _))))
            (switch StatsErrors t 3
              (λ _. next-stats _ _ (stats_header-Only 12 12) (check_stats-Only 3))
              (switch StatsErrors t 4
                (λ _. next-stats _ _ (stats_header-Only 20 20) (
                  next-stats _ _ (check_stats-Only 4)
                    (next-stats _ _ (stats_port-Only _) (fail_if-Only _ _ invalid_port_no refl))))
                (switch StatsErrors t 5
                  (λ _.
                    next-stats _ _ (stats_header-Only 20 20)
                      (next-stats _ _ (check_stats-Only 5) (stats_port-Only _)))
                  (switch StatsErrors t 0xffff
                    (λ _. next-stats _ _ (stats_header-Only 16 0xffff) (check_stats-Only 0xffff))
                    (some-Only _ unsupported_stats_type refl)))))))
