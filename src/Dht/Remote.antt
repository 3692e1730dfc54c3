-- ===== src/Dht/Remote.antt =====
-- The client's side of internal/dht/node.go: what a node makes of the answers of other nodes, and
-- `StoreProvider`. What `SendMessage` returns is an argument, none where it fails.
pub mod Wire
pub mod Replicate
use mini_ipfs.Prelude.{
  ℕ, Bool, true, false, ◌||◌, Option, none, some, List, [], ◌∷◌, length, take, ltb, eq_bytes,
  if◌then◌else◌, Bytes, Result, ok, err, panic, running, ◌>>=◌,
}
use mini_ipfs.Hex.{encode_to_string, decode_string}
use mini_ipfs.Dht.Types.{NodeInfo}
use mini_ipfs.Dht.Json.{
  Json, Items, other, text, array, object, nil, item, Fields, end, field, get_field, as_text,
  as_object, as_array,
}
use mini_ipfs.Dht.Closest.{closest_k}
use mini_ipfs.Dht.Providers.{store_provider_local}
use mini_ipfs.Dht.Rpc.{MessageType, Node, StoreFailure, id_key, addr_key, http_key, text_or_empty}

-- `RPCMessage` as a client receives it.
pub record Answer : Type 0 where
  pub kind : MessageType
  pub payload : Json

pub data RemoteError : Type 0 where
  send_failed unexpected_type invalid_response missing_list : RemoteError

abbrev pub providers_key : Bytes
providers_key = b'p' ∷ b'r' ∷ b'o' ∷ b'v' ∷ b'i' ∷ b'd' ∷ b'e' ∷ b'r' ∷ b's' ∷ []

abbrev pub nodes_key : Bytes
nodes_key = b'n' ∷ b'o' ∷ b'd' ∷ b'e' ∷ b's' ∷ []

-- An empty HTTP address is left out.
unfoldable pub marshal_http : Bytes → Fields
marshal_http [] = end
marshal_http (c ∷ http) = field http_key (text (c ∷ http)) end

-- What `MarshalJSON` of a node becomes at the other end.
unfoldable pub marshal_node : NodeInfo → Json
marshal_node node = object (
    field id_key (text (encode_to_string node.id))
      (field addr_key (text node.addr) (marshal_http node.http)))

unfoldable pub marshal_nodes : List NodeInfo → Items
marshal_nodes [] = nil
marshal_nodes (node ∷ nodes) = item (marshal_node node) (marshal_nodes nodes)

-- `ProvidersResponse` and `FindNodeResponse`, which hold one list.
unfoldable pub marshal_list : Bytes → List NodeInfo → Json
marshal_list key nodes = object (field key (array (marshal_nodes nodes)) end)

-- The end of the body of the loop of `findProvidersRemote`, by the text of the identifier.
unfoldable pub read_identified : Fields → Bytes → Option NodeInfo
read_identified fields [] = none
read_identified fields (c ∷ id_hex) = elim (decode_string (c ∷ id_hex)) [
  | none ↦ none
  | some id ↦ some (record {
    id = id;
    addr = text_or_empty (as_text (get_field addr_key fields));
    http = text_or_empty (as_text (get_field http_key fields));
  })
]

-- The body of the loop of `findProvidersRemote`: what one item adds.
unfoldable pub read_provider : Json → Option NodeInfo
read_provider (object fields) = elim (as_text (get_field id_key fields)) [
  | none ↦ none
  | some id_hex ↦ read_identified fields id_hex
]
read_provider _ = none

-- The body of the loop of `findNodeSingle`, which leaves the HTTP address empty.
unfoldable pub read_node : Json → Option NodeInfo
read_node (object fields) = elim (as_text (get_field id_key fields)) [
  | none ↦ none
  | some id_hex ↦ elim (as_text (get_field addr_key fields)) [
    | none ↦ none
    | some addr ↦ elim (decode_string id_hex) [
      | none ↦ none
      | some id ↦ some (record { id = id; addr = addr; http = [] })
    ]
  ]
]
read_node _ = none

-- The loops: items that cannot be read are passed over.
unfoldable pub read_items : (Json → Option NodeInfo) → Items → List NodeInfo
read_items read nil = []
read_items read (item j items) =
    let rest = read_items read items in elim (read j) [ none ↦ rest | some node ↦ node ∷ rest ]

abbrev pub same_kind : MessageType → MessageType → Bool
same_kind MessageType.providers_resp MessageType.providers_resp = true
same_kind MessageType.find_node_resp MessageType.find_node_resp = true
same_kind MessageType.store_resp MessageType.store_resp = true
same_kind _ _ = false

-- The list under a key of a response payload.
unfoldable pub payload_items : Bytes → Json → Result RemoteError Items
payload_items key (object fields) = elim (as_array (get_field key fields)) [
  | none ↦ err missing_list
  | some items ↦ ok items
]
payload_items key _ = err invalid_response

-- A response of the expected type.
unfoldable pub expect : MessageType → Option Answer → Result RemoteError Json
expect kind none = err send_failed
expect kind (some answer) =
    if same_kind kind answer.kind then ok answer.payload else err unexpected_type

-- `findProvidersRemote`
unfoldable pub find_providers_remote : Option Answer → Result RemoteError (List NodeInfo)
find_providers_remote response = expect MessageType.providers_resp response >>= λ payload.
    (payload_items providers_key payload >>= λ items. ok (read_items read_provider items))

-- `findNodeSingle`
unfoldable pub find_node_single : Option Answer → Result RemoteError (List NodeInfo)
find_node_single response = expect MessageType.find_node_resp response >>= λ payload.
    (payload_items nodes_key payload >>= λ items. ok (read_items read_node items))

-- `storeProviderRemote`
unfoldable pub store_provider_remote : Option Answer → Result RemoteError (Unit {0})
store_provider_remote response = expect MessageType.store_resp response >>= λ _. ok tt

abbrev pub accepted : Option Answer → Bool
accepted response = elim (store_provider_remote response) [
  | ok _ ↦ true
  | err _ ↦ false
  | panic ↦ false
  | running ↦ false
]

-- The loop of `StoreProvider` over the closest nodes: the addresses that answered.
unfoldable pub replicate_to : (send : Bytes → Option Answer) → Bytes → List NodeInfo → List Bytes
replicate_to send self [] = []
replicate_to send self (p ∷ peers) =
    let rest = replicate_to send self peers in
    if eq_bytes p.id self then rest else if accepted (send p.addr) then p.addr ∷ rest else rest

-- The loop over the bootstrap nodes.
unfoldable pub replicate_to_bootstraps :
    (send : Bytes → Option Answer) → Bytes → List Bytes → List Bytes
replicate_to_bootstraps send own_addr [] = []
replicate_to_bootstraps send own_addr (b ∷ bootstraps) =
    let rest = replicate_to_bootstraps send own_addr bootstraps in
    if eq_bytes b [] || eq_bytes b own_addr
    then rest
    else if accepted (send b)
    then b ∷ rest
    else rest

-- `StoreProvider`, with the `K` and the bootstrap nodes of the configuration: the node afterwards
-- and the addresses that answered, whose number is `success`.
unfoldable pub store_provider :
    (capacity : Bytes → ℕ) (k : ℕ) (bootstraps : List Bytes) (send : Bytes → Option Answer)
    → Bytes
    → NodeInfo
    → Node
    → Result StoreFailure (Node × List Bytes)
store_provider capacity k bootstraps send hash provider node =
    let hash_hex = encode_to_string hash in
    let closest = closest_k hash node.table in
    let peers = if ltb k (length closest) then take k closest else closest in
    let success = replicate_to send node.table.self.id peers in
    store_provider_local (capacity provider.id) hash_hex provider node.providers >>= λ after.
    (if ltb (length hash_hex) 16
      then panic
      else ok (
        record node { providers = after },
        elim success [
          | [] ↦ replicate_to_bootstraps send node.table.self.addr bootstraps
          | a ∷ reached ↦ a ∷ reached
        ],
      ))
