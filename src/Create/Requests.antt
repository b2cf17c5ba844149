-- ===== src/Create/Requests.antt =====
-- src/lib/openflow_message.c: the messages without a list of structures.
use trema.Base.{ℕ, Option, none, List, [], length, ltb, ◌^◌, if◌then◌else◌}
use trema.OpenFlow.{Mac, Match}
use trema.Create.{put8, put16, put32, put64, zeros, put_mac, create_header, hton_match, with_data}

unfoldable pub create_hello : ℕ → List ℕ
create_hello transaction_id = create_header transaction_id 0 8 []

-- This function copies all the data, also when its length has more than 16 bits.
unfoldable pub create_error : (transaction_id type code : ℕ) → List ℕ → Option (List ℕ)
create_error transaction_id type code bytes =
    if ltb (length bytes) (2 ^ 16)
    then with_data 12
        (λ len rest. create_header transaction_id 1 len (put16 type (put16 code rest))) bytes
    else none

unfoldable pub create_echo_request : ℕ → List ℕ → Option (List ℕ)
create_echo_request transaction_id body = with_data 8 (create_header transaction_id 2) body

unfoldable pub create_echo_reply : ℕ → List ℕ → Option (List ℕ)
create_echo_reply transaction_id body = with_data 8 (create_header transaction_id 3) body

unfoldable pub create_vendor : (transaction_id vendor : ℕ) → List ℕ → Option (List ℕ)
create_vendor transaction_id vendor bytes =
    with_data 12 (λ len rest. create_header transaction_id 4 len (put32 vendor rest)) bytes

unfoldable pub create_features_request : ℕ → List ℕ
create_features_request transaction_id = create_header transaction_id 5 8 []

unfoldable pub create_get_config_request : ℕ → List ℕ
create_get_config_request transaction_id = create_header transaction_id 7 8 []

unfoldable pub create_get_config_reply : (transaction_id flags miss_send_len : ℕ) → List ℕ
create_get_config_reply transaction_id flags miss_send_len =
    create_header transaction_id 8 12 (put16 flags (put16 miss_send_len []))

unfoldable pub create_set_config : (transaction_id flags miss_send_len : ℕ) → List ℕ
create_set_config transaction_id flags miss_send_len =
    create_header transaction_id 9 12 (put16 flags (put16 miss_send_len []))

unfoldable pub create_packet_in :
    (transaction_id buffer_id total_len in_port reason : ℕ) → List ℕ → Option (List ℕ)
create_packet_in transaction_id buffer_id total_len in_port reason bytes =
    with_data 18
      (λ len rest.
        create_header transaction_id 10 len
          (put32 buffer_id (put16 total_len (put16 in_port (put8 reason (zeros 1 rest))))))
      bytes

unfoldable pub create_flow_removed :
    (transaction_id : ℕ)
    → Match
    → (cookie priority reason duration_sec duration_nsec idle_timeout packet_count byte_count : ℕ)
    → List ℕ
create_flow_removed transaction_id match cookie priority reason duration_sec duration_nsec
      idle_timeout packet_count byte_count =
    create_header transaction_id 11 88 (
      hton_match match (
        put64 cookie (
          put16 priority (
            put8 reason (
              zeros 1 (
                put32 duration_sec (
                  put32 duration_nsec
                    (put16 idle_timeout (zeros 2 (put64 packet_count (put64 byte_count [])))))))))))

unfoldable pub create_port_mod :
    (transaction_id port_no : ℕ) → Mac → (config mask advertise : ℕ) → List ℕ
create_port_mod transaction_id port_no hw_addr config mask advertise =
    create_header transaction_id 15 32
      (put16 port_no (put_mac hw_addr (put32 config (put32 mask (put32 advertise (zeros 4 []))))))

unfoldable pub create_stats_request : (transaction_id type length flags : ℕ) → List ℕ → List ℕ
create_stats_request transaction_id type length flags rest =
    create_header transaction_id 16 length (put16 type (put16 flags rest))

unfoldable pub create_desc_stats_request : (transaction_id flags : ℕ) → List ℕ
unfolding create_stats_request
create_desc_stats_request transaction_id flags = create_stats_request transaction_id 0 12 flags []

unfoldable pub create_flow_stats_request :
    (transaction_id flags : ℕ) → Match → (table_id out_port : ℕ) → List ℕ
unfolding create_stats_request
create_flow_stats_request transaction_id flags match table_id out_port =
    create_stats_request transaction_id 1 56 flags
      (hton_match match (put8 table_id (zeros 1 (put16 out_port []))))

unfoldable pub create_aggregate_stats_request :
    (transaction_id flags : ℕ) → Match → (table_id out_port : ℕ) → List ℕ
unfolding create_stats_request
create_aggregate_stats_request transaction_id flags match table_id out_port =
    create_stats_request transaction_id 2 56 flags
      (hton_match match (put8 table_id (zeros 1 (put16 out_port []))))

unfoldable pub create_table_stats_request : (transaction_id flags : ℕ) → List ℕ
unfolding create_stats_request
create_table_stats_request transaction_id flags = create_stats_request transaction_id 3 12 flags []

unfoldable pub create_port_stats_request : (transaction_id flags port_no : ℕ) → List ℕ
unfolding create_stats_request
create_port_stats_request transaction_id flags port_no =
    create_stats_request transaction_id 4 20 flags (put16 port_no (zeros 6 []))

unfoldable pub create_queue_stats_request : (transaction_id flags port_no queue_id : ℕ) → List ℕ
unfolding create_stats_request
create_queue_stats_request transaction_id flags port_no queue_id =
    create_stats_request transaction_id 5 20 flags (put16 port_no (zeros 2 (put32 queue_id [])))

unfoldable pub create_vendor_stats_request :
    (transaction_id flags vendor : ℕ) → List ℕ → Option (List ℕ)
unfolding create_stats_request
create_vendor_stats_request transaction_id flags vendor body =
    with_data 16
      (λ len rest. create_stats_request transaction_id 0xffff len flags (put32 vendor rest)) body

unfoldable pub create_barrier_request : ℕ → List ℕ
create_barrier_request transaction_id = create_header transaction_id 18 8 []

unfoldable pub create_barrier_reply : ℕ → List ℕ
create_barrier_reply transaction_id = create_header transaction_id 19 8 []

unfoldable pub create_queue_get_config_request : (transaction_id port : ℕ) → List ℕ
create_queue_get_config_request transaction_id port =
    create_header transaction_id 20 12 (put16 port (zeros 2 []))
