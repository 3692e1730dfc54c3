-- ===== src/Tests/Remote.antt =====
-- Answers of other nodes, and a record that is stored where no one or everyone answers.
use mini_ipfs.Prelude.{◌≡◌, Option, some, List, [], ◌∷◌, map, length, take, All, ok, Bytes, arith}
use mini_ipfs.Hex.{encode_to_string}
use mini_ipfs.Dht.Types.{NodeInfo}
use mini_ipfs.Dht.Json.{Json, end, field, object, other, text}
use mini_ipfs.Dht.Closest.{closest_k}
use mini_ipfs.Dht.Providers.{Providers}
use mini_ipfs.Dht.Providers.Laws.{NodupProviders, Provided}
use mini_ipfs.Dht.Rpc.{MessageType, Node}
use mini_ipfs.Dht.Remote.{
  Answer, providers_key, nodes_key, marshal_list, find_providers_remote, find_node_single,
  store_provider,
}
use mini_ipfs.Dht.Remote.Wire.{
  forget_http, find_providers_remote-marshal_list, find_node_single-marshal_list,
}
use mini_ipfs.Dht.Remote.Replicate.{Responded, NoPeer, NoBootstrap, store_provider_effect}
use mini_ipfs.Dht.Routing.{RoutingTable}
use mini_ipfs.Dht.Routing.Invariant.{IsTable}
use mini_ipfs.Dht.FindNode.{find_node}
use mini_ipfs.Dht.FindNode.Laws.{Search, find_node_effect, find_node_self}
use mini_ipfs.Tests.Tables.{start, start-IsTable}

abbrev first_peer : NodeInfo
first_peer = record { id = 9 ∷ 8 ∷ []; addr = 5 ∷ []; http = [] }

abbrev second_peer : NodeInfo
second_peer = record { id = 7 ∷ 255 ∷ []; addr = 6 ∷ []; http = 80 ∷ [] }

find_providers_remote-marshal_list_example :
    find_providers_remote (
      some (record {
        kind = MessageType.providers_resp;
        payload = marshal_list providers_key (first_peer ∷ second_peer ∷ []);
      }))
    ≡ ok (first_peer ∷ second_peer ∷ [])
find_providers_remote-marshal_list_example =
    find_providers_remote-marshal_list (first_peer ∷ second_peer ∷ []) (
      ((omega arith, (omega arith, tt)), omega arith),
      (((omega arith, (omega arith, tt)), omega arith), tt),
    )

find_node_single-marshal_list_example :
    find_node_single (
      some (record {
        kind = MessageType.find_node_resp;
        payload = marshal_list nodes_key (first_peer ∷ second_peer ∷ []);
      }))
    ≡ ok (map forget_http (first_peer ∷ second_peer ∷ []))
find_node_single-marshal_list_example =
    find_node_single-marshal_list (first_peer ∷ second_peer ∷ [])
      ((omega arith, (omega arith, tt)), ((omega arith, (omega arith, tt)), tt))

abbrev not_stored : Json
not_stored = object (
    field (b's' ∷ b'u' ∷ b'c' ∷ b'c' ∷ b'e' ∷ b's' ∷ b's' ∷ []) other
      (field (b'e' ∷ b'r' ∷ b'r' ∷ b'o' ∷ b'r' ∷ []) (text (b'n' ∷ b'o' ∷ [])) end))

-- Every address answers that the record was not stored.
abbrev send : Bytes → Option Answer
send addr = some (record { kind = MessageType.store_resp; payload = not_stored })

abbrev hash : Bytes
hash = 1 ∷ 2 ∷ 3 ∷ 4 ∷ 5 ∷ 6 ∷ 7 ∷ 8 ∷ []

abbrev provider : NodeInfo
provider = record { id = hash; addr = 5 ∷ []; http = [] }

abbrev node : Node
node = record { table = start; providers = λ h. [] }

store_provider_effect_example :
    (after : Providers) × (reached : List Bytes) × (store_provider length 2
        ((3 ∷ []) ∷ [])
        send
        hash
        provider
        node
      ≡ ok (record node { providers = after }, reached))
    × NodupProviders after
    × Provided (encode_to_string hash) provider node.providers after
    × All (Responded send) reached
    × (reached ≡ []
        → NoPeer send start.self.id (take 2 (closest_k hash start))
          × NoBootstrap send start.self.addr ((3 ∷ []) ∷ []))
store_provider_effect_example =
    store_provider_effect send length 2 ((3 ∷ []) ∷ []) hash provider node (λ h. tt) (omega arith)
      (omega arith)

find_node_effect_example :
    (after : RoutingTable) × (find_node 3 2 8 (λ round asked. second_peer ∷ []) hash start
      ≡ ok (after, take 2 (closest_k hash after)))
    × IsTable after
    × Search 3 (λ round asked. second_peer ∷ []) hash 10 [] start after
find_node_effect_example =
    find_node_effect 3 (λ round asked. second_peer ∷ []) hash 2 8 start (omega arith) start-IsTable

find_node_self_example :
    find_node 3 2 32 (λ round asked. second_peer ∷ []) start.self.id start
    ≡ ok (start, take 2 (start.self ∷ []))
find_node_self_example =
    find_node_self 3 2 32 (λ round asked. second_peer ∷ []) start (omega arith) start-IsTable
      (omega arith)
