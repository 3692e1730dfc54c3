-- ===== src/Dht/Rpc/Answers.antt =====
-- What a node owes the sender of a message.
use mini_ipfs.Prelude.{◌≡◌, ◌⊎◌, Option, none, some, [], Bytes, ok, err}
use mini_ipfs.Dht.Types.{NodeInfo}
use mini_ipfs.Hex.{decode_string}
use mini_ipfs.Dht.Json.{Json}
use mini_ipfs.Dht.Closest.{closest_k}
use mini_ipfs.Dht.Providers.{load_providers}
use mini_ipfs.Dht.Rpc.{
  MessageType, Request, Response, StoreFailure, Payload, Node, hash_key, payload_text,
  parse_store_provider, store_response, providers_response, pong_response, find_node_response,
  target_key,
}

-- The type of the answer to a message.
abbrev pub answer_kind : MessageType → Option MessageType
answer_kind MessageType.ping = some MessageType.pong
answer_kind MessageType.find_node = some MessageType.find_node_resp
answer_kind MessageType.store_provider = some MessageType.store_resp
answer_kind MessageType.find_providers = some MessageType.providers_resp
answer_kind _ = none

-- The target that a request for nodes names, if it is a text in hexadecimal.
abbrev pub target_of : Json → Option Bytes
target_of payload = elim (payload_text target_key payload) [
  | none ↦ none
  | some target_hex ↦ decode_string target_hex
]

-- The messages that need no answer: those that are no request, and a request for nodes without a
-- target.
abbrev pub IsIdle : Request → Type 0
IsIdle msg =
    (answer_kind msg.kind ≡ none)
    ⊎ ((msg.kind ≡ MessageType.find_node) × (target_of msg.payload ≡ none))

-- What an answer of each type holds: to a request for nodes the closest ones to its target, to one
-- for providers those of its hash, if it has one, and to one to store the failed check, if any.
abbrev pub Holds : Request → Node → MessageType → Payload → Type 0
Holds msg node MessageType.pong w = w ≡ pong_response
Holds msg node MessageType.find_node_resp w =
    (target : Bytes) × (target_of msg.payload ≡ some target)
    × (w ≡ find_node_response (closest_k target node.table))
Holds msg node MessageType.store_resp w =
    ((p : Bytes × NodeInfo) × (parse_store_provider msg.payload ≡ ok p) × (w ≡ store_response none))
    ⊎ ((e : StoreFailure) × (parse_store_provider msg.payload ≡ err e)
        × (w ≡ store_response (some e)))
Holds msg node MessageType.providers_resp w =
    (((payload_text hash_key msg.payload ≡ none) ⊎ (payload_text hash_key msg.payload ≡ some []))
      × (w ≡ providers_response []))
    ⊎ ((hash_hex : Bytes) × (payload_text hash_key msg.payload ≡ some hash_hex)
        × (w ≡ providers_response (load_providers hash_hex node.providers)))
Holds msg node _ w = Unit

-- An answer carries the request's identifier, the node itself as sender and the type that goes
-- with the request. Only an idle message has none.
abbrev pub Answers : Request → Node → Option Response → Type 0
Answers msg node none = IsIdle msg
Answers msg node (some r) =
    (r.id ≡ msg.id)
    × (r.sender ≡ node.table.self)
    × (answer_kind msg.kind ≡ some r.kind)
    × Holds msg node r.kind r.payload
