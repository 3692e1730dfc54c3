-- ===== src/Dht/Remote/Wire.antt =====
-- The lists of nodes that one node sends arrive at the other.
use mini_ipfs.Prelude.{◌≡◌, ◌<◌, refl, ap, some, List, [], ◌∷◌, map, length, All, ok, Bytes, arith}
use mini_ipfs.Hex.{encode_to_string, decode_string}
use mini_ipfs.Hex.RoundTrip.{IsBytes, decode_string-encode_to_string, length-encode_to_string}
use mini_ipfs.Dht.Types.{NodeInfo}
use mini_ipfs.Dht.Json.{get_field, Fields, field, text, as_text}
use mini_ipfs.Dht.Rpc.{MessageType, id_key, addr_key, http_key, text_or_empty}
use mini_ipfs.Dht.Remote.{
  providers_key, nodes_key, marshal_node, marshal_nodes, marshal_list, marshal_http,
  read_identified, read_provider, read_node, read_items, payload_items, expect,
  find_providers_remote, find_node_single,
}

-- A node whose identifier is some bytes.
abbrev pub HasId : NodeInfo → Type 0
HasId node = IsBytes node.id × (0 < length node.id)

-- What a node is to one that asked for nodes.
abbrev pub forget_http : NodeInfo → NodeInfo
forget_http node = record node { http = [] }

http_read : (http : Bytes) → text_or_empty (as_text (get_field http_key (marshal_http http))) ≡ http
unfolding get_field marshal_http
http_read [] = refl
http_read (c ∷ http) = refl

marshal_fields : NodeInfo → Fields
marshal_fields node =
    field id_key (text (encode_to_string node.id))
      (field addr_key (text node.addr) (marshal_http node.http))

read_at :
    (node : NodeInfo) (id_hex : Bytes)
    → 0 < length id_hex
    → decode_string id_hex ≡ some node.id
    → read_identified (marshal_fields node) id_hex ≡ some node
unfolding read_identified get_field marshal_fields
read_at node [] l d = absurd (omega arith)
read_at node (c ∷ id_hex) l d = rw (read_identified, d, http_read node.http) refl

read_provider-marshal_node :
    (node : NodeInfo) → HasId node → read_provider (marshal_node node) ≡ some node
unfolding read_provider marshal_node get_field marshal_fields
read_provider-marshal_node node h =
    read_at node (encode_to_string node.id) (omega (arith, length-encode_to_string node.id, h.1))
      (decode_string-encode_to_string node.id h.0)

read_node-marshal_node :
    (node : NodeInfo) → IsBytes node.id → read_node (marshal_node node) ≡ some (forget_http node)
unfolding read_node marshal_node get_field
read_node-marshal_node node h = rw (read_node, decode_string-encode_to_string node.id h) refl

read_providers :
    (nodes : List NodeInfo)
    → All HasId nodes
    → read_items read_provider (marshal_nodes nodes) ≡ nodes
unfolding read_items marshal_nodes
read_providers [] h = refl
read_providers (node ∷ nodes) h =
    rw (read_items, read_provider-marshal_node node h.0) (ap (◌∷◌ node) (read_providers nodes h.1))

read_nodes :
    (nodes : List NodeInfo)
    → All (λ n. IsBytes n.id) nodes
    → read_items read_node (marshal_nodes nodes) ≡ map forget_http nodes
unfolding read_items marshal_nodes
read_nodes [] h = refl
read_nodes (node ∷ nodes) h =
    rw (read_items, read_node-marshal_node node h.0)
      (ap (◌∷◌ (forget_http node)) (read_nodes nodes h.1))

-- The providers that a node answers with are those that the asking node reads, if no identifier is
-- empty.
pub find_providers_remote-marshal_list :
    (nodes : List NodeInfo)
    → All HasId nodes
    → find_providers_remote (
        some (record {
          kind = MessageType.providers_resp;
          payload = marshal_list providers_key nodes;
        }))
      ≡ ok nodes
unfolding find_providers_remote marshal_list payload_items expect get_field
find_providers_remote-marshal_list nodes h = ap ok (read_providers nodes h)

-- The nodes that a node answers with are those that the asking node reads, without their HTTP
-- addresses.
pub find_node_single-marshal_list :
    (nodes : List NodeInfo)
    → All (λ n. IsBytes n.id) nodes
    → find_node_single (
        some (record { kind = MessageType.find_node_resp; payload = marshal_list nodes_key nodes }))
      ≡ ok (map forget_http nodes)
unfolding find_node_single marshal_list payload_items expect get_field
find_node_single-marshal_list nodes h = ap ok (read_nodes nodes h)
