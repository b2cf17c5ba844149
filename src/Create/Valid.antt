-- ===== src/Create/Valid.antt =====
-- src/lib/openflow_message.c: the created requests are accepted by the checks of their types.
use trema.Base.{
  ap, some, ◌∷◌, take, ◌%◌, ℕ, ◌+◌, ◌^◌, ◌≤◌, ◌<◌, ◌≡◌, ◌⊎◌, refl, true, Option, none, List, [],
  length, ltb, leb, ◌==◌, ◌&&◌, not, arith,
}
use trema.OpenFlow.{Match}
use trema.Actions.{MessageError, invalid_port_no, ntohs_at, or_next, validate_phy_port_no}
use trema.Actions.Ranges.{is_port, phy_port-is_port}
use trema.Actions.Checks.{or_next-none}
use trema.Message.{
  fail_if, header_type, header_version, header_length, valid_message_version, validate_header,
}
use trema.Message.Framing.{Framed, validate_header-Framed}
use trema.Message.Fields.{IsMatch, validate_match-accepts}
use trema.Message.Flows.{mac_at, ntoh_match, validate_match}
use trema.Create.{put8, put16, put32, zeros, message_of, create_header, hton_match, at, with_data}
use trema.Message.StatsRequest.{
  validate_stats_request, check_stats_request, validate_desc_stats_request,
  validate_flow_stats_request, validate_aggregate_stats_request, validate_table_stats_request,
  validate_port_stats_request, validate_queue_stats_request, validate_vendor_stats_request,
}
use trema.Create.Requests.{
  create_stats_request, create_desc_stats_request, create_flow_stats_request,
  create_aggregate_stats_request, create_table_stats_request, create_port_stats_request,
  create_queue_stats_request, create_vendor_stats_request,
}
use trema.Create.Read.{HasWidths, ntoh_match-hton_match, read16}

pub created-Framed :
    (transaction_id type least greatest : ℕ) (rest : List ℕ)
    → type ≤ 21
    → least ≤ 8 + length rest
    → 8 + length rest ≤ greatest
    → greatest < 2 ^ 16
    → Framed
        (message_of (create_header transaction_id type (8 + length rest) rest))
        type
        least
        greatest
unfolding create_header header_type header_version header_length valid_message_version
created-Framed transaction_id type least greatest rest h k l w = record {
  of_type = omega arith;
  version = ground arith;
  same_length = omega arith;
  above = omega arith;
  below = omega arith;
}

pub created-header :
    (transaction_id type least greatest : ℕ) (rest : List ℕ)
    → type ≤ 21
    → 8 ≤ least
    → least ≤ 8 + length rest
    → 8 + length rest ≤ greatest
    → greatest < 2 ^ 16
    → validate_header
        (message_of (create_header transaction_id type (8 + length rest) rest))
        type
        least
        greatest
      ≡ none
created-header transaction_id type least greatest rest h m k l w =
    (validate_header-Framed _ type least greatest m h).1
      (created-Framed transaction_id type least greatest rest h k l w)

pub written_match_valid :
    (m : Match) (rest : List ℕ)
    → HasWidths m
    → IsMatch m
    → validate_match (ntoh_match (at (hton_match m rest)) 0) ≡ none
written_match_valid m rest w i =
    (validate_match-accepts (at (hton_match m rest)) 0).1 (rw (ntoh_match-hton_match m rest w) i)

pub written_port_valid :
    (p : ℕ)
    → p < 2 ^ 16
    → is_port p ≡ true
    → validate_phy_port_no (ntohs_at (at (put16 p [])) 0) ≡ none
written_port_valid p w i = rw (read16 p [] w) ((phy_port-is_port p).1 i)

both : (a c : Option MessageError) → a ≡ none → c ≡ none → or_next a c ≡ none
both a c p q = (or_next-none a c).1 (p, q)

-- the header of a request for statistics
stats_header :
    (transaction_id least : ℕ) (rest : List ℕ)
    → leb 8 least ≡ true
    → leb least 0xffff ≡ true
    → 8 + length rest ≡ least
    → validate_header
        (message_of (create_header transaction_id 16 (8 + length rest) rest))
        16
        least
        least
      ≡ none
stats_header transaction_id least rest h k e =
    created-header transaction_id 16 least least rest (omega arith) (ground arith) (omega arith)
      (omega arith) (ground arith)

module _ (transaction_id : ℕ) where
  desc_request_valid :
      validate_stats_request (message_of (create_desc_stats_request transaction_id 0)) ≡ none
  unfolding validate_stats_request validate_desc_stats_request check_stats_request
      create_desc_stats_request create_stats_request create_header
  desc_request_valid =
      both _ _ (stats_header transaction_id 12 (put16 0 (put16 0 [])) refl refl refl) refl

  table_request_valid :
      validate_stats_request (message_of (create_table_stats_request transaction_id 0)) ≡ none
  unfolding validate_stats_request validate_table_stats_request check_stats_request
      create_table_stats_request create_stats_request create_header
  table_request_valid =
      both _ _ (stats_header transaction_id 12 (put16 3 (put16 0 [])) refl refl refl) refl

  module _ (table_id port : ℕ) (match : Match) (w : HasWidths match) (i : IsMatch match)
      (pw : port < 2 ^ 16) (pi : is_port port ≡ true) where
    flow_request_valid :
        validate_stats_request
          (message_of (create_flow_stats_request transaction_id 0 match table_id port))
        ≡ none
    unfolding validate_stats_request validate_flow_stats_request check_stats_request
        create_flow_stats_request create_stats_request create_header hton_match ntoh_match mac_at
    flow_request_valid =
        both _ _
          (stats_header transaction_id 56
            (put16 1 (put16 0 (hton_match match (put8 table_id (zeros 1 (put16 port [])))))) refl
            refl refl)
          (both _ _ refl (
            both _ _ (written_match_valid match (put8 table_id (zeros 1 (put16 port []))) w i)
              (written_port_valid port pw pi)))

    aggregate_request_valid :
        validate_stats_request
          (message_of (create_aggregate_stats_request transaction_id 0 match table_id port))
        ≡ none
    unfolding validate_stats_request validate_aggregate_stats_request check_stats_request
        create_aggregate_stats_request create_stats_request create_header hton_match ntoh_match
        mac_at
    aggregate_request_valid =
        both _ _
          (stats_header transaction_id 56
            (put16 2 (put16 0 (hton_match match (put8 table_id (zeros 1 (put16 port [])))))) refl
            refl refl)
          (both _ _ refl (
            both _ _ (written_match_valid match (put8 table_id (zeros 1 (put16 port []))) w i)
              (written_port_valid port pw pi)))

  module _ (port queue_id : ℕ) (pw : port < 2 ^ 16) (pi : is_port port ≡ true) where
    queue_request_valid :
        validate_stats_request
          (message_of (create_queue_stats_request transaction_id 0 port queue_id))
        ≡ none
    unfolding validate_stats_request validate_queue_stats_request check_stats_request
        create_queue_stats_request create_stats_request create_header
    queue_request_valid =
        both _ _
          (stats_header transaction_id 20
            (put16 5 (put16 0 (put16 port (zeros 2 (put32 queue_id []))))) refl refl refl)
          (both _ _ refl (written_port_valid port pw pi))

  module _ (port : ℕ) (pw : port < 2 ^ 16) (pi : is_port port ≡ true)
      (counted : (port ≤ 0xff00) ⊎ (0xfffe ≤ port)) where
    countable :
        fail_if (ltb 0xff00 port && not (port == 0xffff) && not (port == 0xfffe)) invalid_port_no
        ≡ none
    countable = ground arith

    port_request_valid :
        validate_stats_request (message_of (create_port_stats_request transaction_id 0 port)) ≡ none
    unfolding validate_stats_request validate_port_stats_request check_stats_request
        create_port_stats_request create_stats_request create_header
    port_request_valid =
        both _ _
          (stats_header transaction_id 20 (put16 4 (put16 0 (put16 port (zeros 6 [])))) refl refl
            refl)
          (both _ _ refl
            (both _ _ (written_port_valid port pw pi) (rw (read16 port [] pw) countable)))

pub take_all : (xs : List ℕ) → take (length xs) xs ≡ xs
take_all [] = refl
take_all (x ∷ xs) = ap (λ l. x ∷ l) (take_all xs)

module _ (transaction_id vendor : ℕ) (body : List ℕ) (small : 16 + length body < 2 ^ 16) where
  vendor_fields : List ℕ
  vendor_fields = put16 0xffff (put16 0 (put32 vendor body))

  vendor_request : List ℕ
  vendor_request = create_header transaction_id 16 (16 + length body) vendor_fields

  vendor_request_created :
      create_vendor_stats_request transaction_id 0 vendor body ≡ some vendor_request
  unfolding create_vendor_stats_request create_stats_request with_data vendor_request vendor_fields
  vendor_request_created =
      let whole : length body % 2 ^ 16 ≡ length body = omega arith in
      let room : ltb (16 + length body) (2 ^ 16) ≡ true = ground arith in
      rw (whole, room, take_all body) refl

  vendor_header : validate_header (message_of vendor_request) 16 16 0xffff ≡ none
  unfolding vendor_request vendor_fields
  vendor_header =
      let all : 16 + length body ≡ 8 + length vendor_fields = omega arith in
      rw all (
        created-header transaction_id 16 16 0xffff vendor_fields (omega arith) (omega arith)
          (omega arith) (omega arith) (omega arith))

  vendor_request_valid : validate_stats_request (message_of vendor_request) ≡ none
  unfolding validate_stats_request validate_vendor_stats_request check_stats_request vendor_request
      vendor_fields create_header
  vendor_request_valid = both _ _ vendor_header refl

-- With flags 0, a match that has the widths of its structure and is valid, ports of 16 bits that are
-- not 0 and not reserved, where the one of a request for the statistics of a port is one up to 65280,
-- 65534 or 65535, and a body of a vendor's request below 65520 bytes, each of the seven functions for
-- requests of statistics creates a message that `validate_stats_request` accepts.
pub created_stats_requests_valid :
    (transaction_id table_id port counted_port queue_id vendor : ℕ) (match : Match) (body : List ℕ)
    → HasWidths match
    → IsMatch match
    → port < 2 ^ 16
    → is_port port ≡ true
    → counted_port < 2 ^ 16
    → is_port counted_port ≡ true
    → (counted_port ≤ 0xff00) ⊎ (0xfffe ≤ counted_port)
    → 16 + length body < 2 ^ 16
    → (validate_stats_request (message_of (create_desc_stats_request transaction_id 0)) ≡ none)
      × (validate_stats_request
            (message_of (create_flow_stats_request transaction_id 0 match table_id port))
          ≡ none)
      × (validate_stats_request
            (message_of (create_aggregate_stats_request transaction_id 0 match table_id port))
          ≡ none)
      × (validate_stats_request (message_of (create_table_stats_request transaction_id 0)) ≡ none)
      × (validate_stats_request
            (message_of (create_port_stats_request transaction_id 0 counted_port))
          ≡ none)
      × (validate_stats_request
            (message_of (create_queue_stats_request transaction_id 0 port queue_id))
          ≡ none)
      × ((bytes : List ℕ) × (create_vendor_stats_request transaction_id 0 vendor body ≡ some bytes)
          × (validate_stats_request (message_of bytes) ≡ none))
created_stats_requests_valid transaction_id table_id port counted_port queue_id vendor match body w
      i pw pi cw ci counted small =
    (
      desc_request_valid transaction_id,
      flow_request_valid transaction_id table_id port match w i pw pi,
      aggregate_request_valid transaction_id table_id port match w i pw pi,
      table_request_valid transaction_id,
      port_request_valid transaction_id counted_port cw ci counted,
      queue_request_valid transaction_id port queue_id pw pi,
      (
        vendor_request transaction_id vendor body small,
        vendor_request_created transaction_id vendor body small,
        vendor_request_valid transaction_id vendor body small,
      ),
    )
