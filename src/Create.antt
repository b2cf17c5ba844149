-- ===== src/Create.antt =====
-- src/lib/openflow_message.c: the functions that create messages. A message is written as the list
-- of its bytes, in the order of the structures of openflow.h and in network byte order.
pub mod Requests
pub mod Switch
pub mod ActionList
pub mod Flows
pub mod Counters
pub mod Read
pub mod Valid
pub mod ValidFlows
pub mod ValidActions
use trema.Base.{
  ℕ, zero, suc, ◌+◌, ◌*◌, ◌/◌, ◌%◌, ◌^◌, Option, none, some, List, [], ◌∷◌, ◌++◌, length, take, ltb,
  if◌then◌else◌,
}
use trema.OpenFlow.{Mac, Match}
use trema.Message.{Message}

infixl 5 ◌>>=◌
abbrev pub ◌>>=◌ {ℓ κ} : {A : Type ℓ} {B : Type κ} → Option A → (A → Option B) → Option B
none >>= f = none
some a >>= f = f a

-- numbers in front of the bytes that follow
abbrev pub put8 : ℕ → List ℕ → List ℕ
put8 x rest = x % 256 ∷ rest

abbrev pub put16 : ℕ → List ℕ → List ℕ
put16 x rest = x / 256 % 256 ∷ x % 256 ∷ rest

abbrev pub put32 : ℕ → List ℕ → List ℕ
put32 x rest = put16 (x / 65536) (put16 (x % 65536) rest)

abbrev pub put64 : ℕ → List ℕ → List ℕ
put64 x rest = put32 (x / 2 ^ 32) (put32 (x % 2 ^ 32) rest)

abbrev pub zeros : ℕ → List ℕ → List ℕ
zeros zero rest = rest
zeros (suc n) rest = 0 ∷ zeros n rest

abbrev pub put_mac : Mac → List ℕ → List ℕ
put_mac m rest = put8 m.b₀ (put8 m.b₁ (put8 m.b₂ (put8 m.b₃ (put8 m.b₄ (put8 m.b₅ rest)))))

-- the byte at a place; the memory behind the block reads as 0
abbrev pub at : List ℕ → ℕ → ℕ
at [] i = 0
at (x ∷ xs) zero = x
at (x ∷ xs) (suc i) = at xs i

-- the `buffer` that holds the bytes
abbrev pub message_of : List ℕ → Message
message_of xs = record { length = length xs; bytes = at xs }

-- the header, in front of the bytes that follow, of a length of 16 bits
unfoldable pub create_header : (transaction_id type length : ℕ) → List ℕ → List ℕ
create_header transaction_id type length rest =
    put8 1 (put8 type (put16 length (put32 transaction_id rest)))

-- `hton_match`, which is `ntoh_match`
unfoldable pub hton_match : Match → List ℕ → List ℕ
hton_match m rest = put32 m.wildcards (
    put16 m.in_port (
      put_mac m.dl_src (
        put_mac m.dl_dst (
          put16 m.dl_vlan (
            put8 m.dl_vlan_pcp (
              zeros 1 (
                put16 m.dl_type (
                  put8 m.nw_tos (
                    put8 m.nw_proto (
                      zeros 2 (
                        put32 m.nw_src
                          (put32 m.nw_dst (put16 m.tp_src (put16 m.tp_dst rest))))))))))))))

-- A message of a fixed part and data: `data_length` has 16 bits, and so has the length of the message.
-- `none` when the length wraps round: the fixed part or the data is then written behind the block.
unfoldable pub with_data : (fixed : ℕ) → (ℕ → List ℕ → List ℕ) → List ℕ → Option (List ℕ)
with_data fixed fields bytes =
    let data_length = length bytes % 2 ^ 16 in
    if ltb (fixed + data_length) (2 ^ 16)
    then some (fields (fixed + data_length) (take data_length bytes))
    else none
