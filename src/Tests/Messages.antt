-- ===== src/Tests/Messages.antt =====
-- Messages to a node whose table holds only itself and that has no provider records.
use mini_ipfs.Prelude.{
  ℕ, ◌≡◌, refl, inl, Option, some, List, [], ◌∷◌, replicate, length, take, ok, panic, Bytes, arith,
}
use mini_ipfs.Hex.{encode_to_string, decode_string}
use mini_ipfs.Dht.Types.{NodeInfo}
use mini_ipfs.Dht.Json.{Json, text, object, end, field, get_field}
use mini_ipfs.Dht.Routing.{find}
use mini_ipfs.Dht.Providers.Laws.{or_else}
use mini_ipfs.Dht.Routing.Bucket.{NodupIds}
use mini_ipfs.Dht.Closest.{closest_k}
use mini_ipfs.Dht.Providers.{Providers, find_providers}
use mini_ipfs.Dht.Providers.Search.{named_by, find_providers_effect}
use mini_ipfs.Dht.Rpc.{
  MessageType, Request, Response, Node, StoreFailure, reply, providers_response,
  parse_store_provider, payload_text, receive, hash_key, provider_key, id_key, addr_key,
}
use mini_ipfs.Dht.Rpc.Answers.{Answers}
use mini_ipfs.Dht.Rpc.Laws.{IsNode, receive_safe}
use mini_ipfs.Dht.Rpc.Store.{IsStoreOf, IsQueryOf, store_then_find, Crashes, receive-Crashes}
use mini_ipfs.Tests.Tables.{start, start-IsTable}

abbrev node : Node
node = record { table = start; providers = λ h. [] }

node-IsNode : IsNode node
node-IsNode = record { table = start-IsTable; providers = λ h. tt }

abbrev peer_id : Bytes
peer_id = 9 ∷ 8 ∷ 7 ∷ 6 ∷ 5 ∷ 4 ∷ 3 ∷ 2 ∷ []

abbrev peer : NodeInfo
peer = record { id = peer_id; addr = 5 ∷ []; http = [] }

abbrev hash_text : Bytes
hash_text = replicate {A = ℕ} 16 b'a'

abbrev short_text : Bytes
short_text = replicate {A = ℕ} 3 b'a'

abbrev store_payload : Bytes → Json
store_payload hash = object (
    field hash_key (text hash) (
      field provider_key
        (object
          (field id_key (text (encode_to_string peer_id)) (field addr_key (text (5 ∷ [])) end)))
        end))

abbrev store_request : Bytes → Request
store_request hash = record {
  kind = MessageType.store_provider;
  id = 1 ∷ [];
  sender = some peer;
  payload = store_payload hash;
}

abbrev query_request : Request
query_request = record {
  kind = MessageType.find_providers;
  id = 2 ∷ [];
  sender = some peer;
  payload = object (field hash_key (text hash_text) end);
}

parsed : parse_store_provider (store_payload hash_text) ≡ ok (hash_text, peer)
unfolding parse_store_provider get_field decode_string encode_to_string
parsed = refl

parsed_short : parse_store_provider (store_payload short_text) ≡ ok (short_text, peer)
unfolding parse_store_provider get_field decode_string encode_to_string
parsed_short = refl

hash_found : payload_text hash_key (object (field hash_key (text hash_text) end)) ≡ some hash_text
unfolding payload_text get_field
hash_found = refl

abbrev is_store : IsStoreOf length hash_text peer (store_request hash_text)
is_store = record {
  kind = refl;
  from = peer;
  named = refl;
  logged = omega arith;
  parsed = parsed;
  long = omega arith;
  wide = omega arith;
}

abbrev is_query : IsQueryOf length hash_text query_request
is_query = record {
  kind = refl;
  from = peer;
  named = refl;
  logged = omega arith;
  hash = hash_found;
}

store_then_find_example :
    (after last : Node) × (answer : Option Response) × (nodes : List NodeInfo) × (receive length
        (store_request hash_text)
        node
      ≡ ok (after, answer))
    × (receive length query_request after
        ≡ ok (
          last,
          some (reply MessageType.providers_resp (providers_response nodes) query_request last),
        ))
    × (find peer_id nodes ≡ some peer)
unfolding find
store_then_find_example =
    store_then_find length hash_text peer (store_request hash_text) query_request node node-IsNode
      is_store is_query

receive_safe_example :
    (after : Node) × (answer : Option Response) × (receive length (store_request hash_text) node
      ≡ ok (after, answer))
    × IsNode after
    × Answers (store_request hash_text) after answer
receive_safe_example = receive_safe length (store_request hash_text) node node-IsNode (record {
  from = peer;
  named = refl;
  logged = omega arith;
  storable = λ e. rw parsed (omega arith, omega arith);
})

receive-Crashes_example : receive length (store_request short_text) node ≡ panic
receive-Crashes_example =
    receive-Crashes length (store_request short_text) node
      (Crashes.short_store peer peer short_text refl refl parsed_short (inl (omega arith)))

-- Every address answers with one provider.
abbrev ask : Bytes → Option (List NodeInfo)
ask addr = some (peer ∷ [])

find_providers_effect_example :
    (found : List NodeInfo) × (find_providers {E = StoreFailure} ask 2 peer_id start node.providers
      ≡ ok found)
    × NodupIds found
    × ((id : Bytes)
        → find id found
          ≡ or_else (find id []) (named_by ask start.self.id (take 2 (closest_k peer_id start)) id))
find_providers_effect_example =
    find_providers_effect {E = StoreFailure} ask 2 peer_id start node.providers (omega arith)
      (λ h. tt)
