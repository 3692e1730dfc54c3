-- ===== src/Dht/Rpc.antt =====
-- The RPC server of internal/dht/rpc.go: what a node does with one message, and its answer.
pub mod Answers
pub mod Checks
pub mod Laws
pub mod Store
use mini_ipfs.Prelude.{
  ℕ, Bool, true, false, ◌||◌, Option, none, some, List, [], ◌∷◌, length, ltb, if◌then◌else◌, Bytes,
  Result, ok, err, panic, running, ◌>>=◌,
}
use mini_ipfs.Hex.{decode_string}
use mini_ipfs.Dht.Types.{NodeInfo}
use mini_ipfs.Dht.Json.{Json, Fields, get_field, as_text, as_object}
use mini_ipfs.Dht.Routing.{RoutingTable, insert_node}
use mini_ipfs.Dht.Closest.{closest_k}
use mini_ipfs.Dht.Providers.{Providers, load_providers, store_provider_local}

pub data MessageType : Type 0 where
  ping pong find_node find_node_resp : MessageType
  store_provider store_resp find_providers providers_resp : MessageType
  unknown : Bytes → MessageType

-- `RPCMessage` as it arrives. A message without a sender leaves a nil pointer.
pub record Request : Type 0 where
  pub kind : MessageType
  pub id : Bytes
  pub sender : Option NodeInfo
  pub payload : Json

-- The texts of `StoreResponse.Error`.
pub data StoreFailure : Type 0 where
  invalid_payload missing_hash missing_provider : StoreFailure
  invalid_provider_id invalid_provider_address invalid_provider_id_format : StoreFailure

-- `PongResponse`, `FindNodeResponse`, `StoreResponse` with its error if any, `ProvidersResponse`.
pub data Payload : Type 0 where
  pong_response : Payload
  find_node_response : List NodeInfo → Payload
  store_response : Option StoreFailure → Payload
  providers_response : List NodeInfo → Payload

-- `RPCMessage` as it is answered.
pub record Response : Type 0 where
  pub kind : MessageType
  pub id : Bytes
  pub sender : NodeInfo
  pub payload : Payload

-- The part of `dhtNode` that a message can change; `nodeInfo` is the table's own node.
pub record Node : Type 0 where
  pub table : RoutingTable
  pub providers : Providers

abbrev pub reply : MessageType → Payload → Request → Node → Response
reply kind payload msg node = record {
  kind = kind;
  id = msg.id;
  sender = node.table.self;
  payload = payload;
}

abbrev pub hash_key : Bytes
hash_key = b'h' ∷ b'a' ∷ b's' ∷ b'h' ∷ []

abbrev pub provider_key : Bytes
provider_key = b'p' ∷ b'r' ∷ b'o' ∷ b'v' ∷ b'i' ∷ b'd' ∷ b'e' ∷ b'r' ∷ []

abbrev pub id_key : Bytes
id_key = b'i' ∷ b'd' ∷ []

abbrev pub addr_key : Bytes
addr_key = b'a' ∷ b'd' ∷ b'd' ∷ b'r' ∷ []

abbrev pub http_key : Bytes
http_key = b'h' ∷ b't' ∷ b't' ∷ b'p' ∷ []

abbrev pub target_key : Bytes
target_key = b't' ∷ b'a' ∷ b'r' ∷ b'g' ∷ b'e' ∷ b't' ∷ []

-- A text of the payload; none where the payload is no object.
unfoldable pub payload_text : Bytes → Json → Option Bytes
payload_text name payload = elim (as_object payload) [
  | none ↦ none
  | some fields ↦ as_text (get_field name fields)
]

-- `handlePing`
abbrev pub handle_ping : Request → Node → Response
handle_ping msg node = reply MessageType.pong pong_response msg node

-- `handleFindNode`
unfoldable pub handle_find_node : Request → Node → Option Response
handle_find_node msg node = elim (payload_text target_key msg.payload) [
  | none ↦ none
  | some target_hex ↦ elim (decode_string target_hex) [
    | none ↦ none
    | some target ↦
        some (reply find_node_resp (find_node_response (closest_k target node.table)) msg node)
  ]
]

-- `handleFindProviders`
unfoldable pub handle_find_providers : Request → Node → Response
handle_find_providers msg node = elim (payload_text hash_key msg.payload) [
  | none ↦ reply providers_resp (providers_response []) msg node
  | some [] ↦ reply providers_resp (providers_response []) msg node
  | some (c ∷ hash) ↦
      reply providers_resp (providers_response (load_providers (c ∷ hash) node.providers)) msg node
]

abbrev pub require : {A : Type 0} → StoreFailure → Option A → Result StoreFailure A
require e none = err e
require e (some a) = ok a

-- A text that may be left out is the empty one.
abbrev pub text_or_empty : Option Bytes → Bytes
text_or_empty none = []
text_or_empty (some t) = t

-- The checks of `handleStoreProvider`: the hash and the provider of the payload.
unfoldable pub parse_store_provider : Json → Result StoreFailure (Bytes × NodeInfo)
parse_store_provider payload = require invalid_payload (as_object payload) >>= λ fields.
    (require missing_hash (as_text (get_field hash_key fields)) >>= λ hash_hex.
    (require missing_provider (as_object (get_field provider_key fields)) >>= λ provider.
    (require invalid_provider_id (as_text (get_field id_key provider)) >>= λ id_hex.
    (require invalid_provider_address (as_text (get_field addr_key provider)) >>= λ addr.
    (require invalid_provider_id_format (decode_string id_hex) >>= λ id. ok (
      hash_hex,
      record { id = id; addr = addr; http = text_or_empty (as_text (get_field http_key provider)) },
    ))))))

-- The rest of `handleStoreProvider`. Its own log entry, too, takes 16 bytes of the hash and 8 of
-- the identifier, also where the provider was known.
unfoldable pub store_parsed :
    (capacity : Bytes → ℕ)
    → Request
    → Node
    → Result StoreFailure (Bytes × NodeInfo)
    → Result StoreFailure (Node × Response)
store_parsed capacity msg node (ok (hash_hex, provider)) =
    store_provider_local (capacity provider.id) hash_hex provider node.providers >>= λ after.
    (if ltb (length hash_hex) 16 || ltb (capacity provider.id) 8
      then panic
      else let node' : Node = record node { providers = after } in
        ok (node', reply store_resp (store_response none) msg node'))
store_parsed capacity msg node (err e) =
    ok (node, reply store_resp (store_response (some e)) msg node)
store_parsed capacity msg node panic = panic
store_parsed capacity msg node running = running

-- `handleStoreProvider`, with the capacity of the slice that holds a decoded identifier.
unfoldable pub handle_store_provider :
    (capacity : Bytes → ℕ) → Request → Node → Result StoreFailure (Node × Response)
handle_store_provider capacity msg node =
    store_parsed capacity msg node (parse_store_provider msg.payload)

-- `handleMessage`
unfoldable pub handle_message :
    (capacity : Bytes → ℕ)
    → MessageType
    → Request
    → Node
    → Result StoreFailure (Node × Option Response)
handle_message capacity ping msg node = ok (node, some (handle_ping msg node))
handle_message capacity find_node msg node = ok (node, handle_find_node msg node)
handle_message capacity store_provider msg node =
    handle_store_provider capacity msg node >>= λ r. ok (r.0, some r.1)
handle_message capacity find_providers msg node = ok (node, some (handle_find_providers msg node))
handle_message capacity _ msg node = ok (node, none)

-- The body of the loop of `handleConnection`, for a line that holds a message. The log entry takes
-- 8 bytes of the sender's identifier, and panics without a sender.
unfoldable pub receive :
    (capacity : Bytes → ℕ) → Request → Node → Result StoreFailure (Node × Option Response)
receive capacity msg node = elim msg.sender [
  | none ↦ panic
  | some sender ↦
      if ltb (capacity sender.id) 8
      then panic
      else handle_message capacity msg.kind msg
          (record node { table = insert_node sender node.table })
]
