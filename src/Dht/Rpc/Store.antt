-- ===== src/Dht/Rpc/Store.antt =====
-- The round trip of a provider record through a node's messages, and the messages that stop it.
use mini_ipfs.Prelude.{
  ℕ, ◌≡◌, ◌≤◌, ◌<◌, refl, ◌∙◌, ap, inl, inr, ◌⊎◌, true, Option, none, some, List, [], ◌∷◌, ◌||◌,
  arith, length, eq_bytes_refl, ltb, Bytes, Bool-cases, ok, panic,
}
use mini_ipfs.Dht.Types.{NodeInfo}
use mini_ipfs.Dht.Routing.{insert_node, contains_id, find}
use mini_ipfs.Dht.Providers.{load_providers, store_provider_local}
use mini_ipfs.Dht.Providers.Laws.{or_else}
use mini_ipfs.Dht.Rpc.{
  MessageType, Request, Response, Node, reply, hash_key, payload_text, handle_find_providers,
  parse_store_provider, store_parsed, handle_store_provider, handle_message, receive,
  store_response, providers_response,
}
use mini_ipfs.Dht.Rpc.Laws.{IsNode, store_parsed_safe, received}

-- A request to store a provider that the log entries can show.
pub record IsStoreOf (capacity : Bytes → ℕ) (hash_hex : Bytes) (provider : NodeInfo) (msg : Request)
    : Type 0 where
  pub kind : msg.kind ≡ MessageType.store_provider
  pub from : NodeInfo
  pub named : msg.sender ≡ some from
  pub logged : 8 ≤ capacity from.id
  pub parsed : parse_store_provider msg.payload ≡ ok (hash_hex, provider)
  pub long : 16 ≤ length hash_hex
  pub wide : 8 ≤ capacity provider.id

-- A request for the providers of a hash.
pub record IsQueryOf (capacity : Bytes → ℕ) (hash_hex : Bytes) (msg : Request) : Type 0 where
  pub kind : msg.kind ≡ MessageType.find_providers
  pub from : NodeInfo
  pub named : msg.sender ≡ some from
  pub logged : 8 ≤ capacity from.id
  pub hash : payload_text hash_key msg.payload ≡ some hash_hex

module _ (capacity : Bytes → ℕ) (hash_hex : Bytes) (provider : NodeInfo) where
  stored :
      (msg : Request) (node : Node)
      → IsNode node
      → IsStoreOf capacity hash_hex provider msg
      → (after : Node) × (answer : Option Response) × (receive capacity msg node
          ≡ ok (after, answer))
        × (find provider.id (load_providers hash_hex after.providers)
            ≡ or_else (find provider.id (load_providers hash_hex node.providers)) (some provider))
  stored msg node v s =
      let node' : Node = record node { table = insert_node s.from node.table } in
      let (after, e, _, p) =
        store_parsed_safe capacity msg node' hash_hex provider v.providers s.long s.wide in
      (
        record node' { providers = after },
        some (reply MessageType.store_resp (store_response none) msg node'),
        received capacity msg node s.from s.named s.logged
            ∙ ap (λ (k : MessageType). handle_message capacity k msg node') s.kind
            ∙ handled msg node' (record node' { providers = after }) _ s.parsed e,
        rw (p.0 provider.id, eq_bytes_refl provider.id) refl,
      )
    where
      handled :
          (msg : Request) (node after : Node) (r : Response)
          → parse_store_provider msg.payload ≡ ok (hash_hex, provider)
          → store_parsed capacity msg node (ok (hash_hex, provider)) ≡ ok (after, r)
          → handle_message capacity MessageType.store_provider msg node ≡ ok (after, some r)
      handled msg node after r e f =
          unfold handle_message in unfold handle_store_provider in rw (e, f) refl

  found :
      (query : Request) (node : Node) (h : Bytes)
      → payload_text hash_key query.payload ≡ some h
      → 16 ≤ length h
      → handle_find_providers query node
        ≡ reply MessageType.providers_resp
            (providers_response (load_providers h node.providers))
            query
            node
  unfolding handle_find_providers
  found query node [] e l = absurd (omega arith)
  found query node (c ∷ h) e l = rw (handle_find_providers, e) refl

  queried :
      (query : Request) (node : Node)
      → IsQueryOf capacity hash_hex query
      → 16 ≤ length hash_hex
      → (last : Node) × (receive capacity query node
          ≡ ok (
            last,
            some (
                reply MessageType.providers_resp
                  (providers_response (load_providers hash_hex node.providers))
                  query
                  last),
          ))
  queried query node q l =
      let last : Node = record node { table = insert_node q.from node.table } in
      (
        last,
        received capacity query node q.from q.named q.logged
            ∙ ap (λ (k : MessageType). handle_message capacity k query last) q.kind
            ∙ (unfold handle_message in rw (found query last hash_hex q.hash l) refl),
      )

  -- A node in order that takes a request to store a provider whose hash and identifier are long
  -- enough for the log answers the next request for that hash with providers among which is the
  -- stored one, whole, or the one with its identifier that the node knew before.
  pub store_then_find :
      (msg query : Request) (node : Node)
      → IsNode node
      → IsStoreOf capacity hash_hex provider msg
      → IsQueryOf capacity hash_hex query
      → (after last : Node) × (answer : Option Response) × (nodes : List NodeInfo) × (receive
            capacity msg node
          ≡ ok (after, answer))
        × (receive capacity query after
            ≡ ok (
              last,
              some (reply MessageType.providers_resp (providers_response nodes) query last),
            ))
        × (find provider.id nodes
            ≡ or_else (find provider.id (load_providers hash_hex node.providers)) (some provider))
  store_then_find msg query node v s q =
      let (after, answer, e, listed) = stored msg node v s in
      let (last, f) = queried query after q s.long in
      (after, last, answer, load_providers hash_hex after.providers, e, f, listed)

-- The messages that are too short for a log entry.
pub data Crashes (capacity : Bytes → ℕ) (msg : Request) : Type 0 where
  nameless : msg.sender ≡ none → Crashes capacity msg
  short_sender :
      (from : NodeInfo) → msg.sender ≡ some from → capacity from.id < 8 → Crashes capacity msg
  short_store :
      (from provider : NodeInfo) (hash_hex : Bytes)
      → msg.sender ≡ some from
      → msg.kind ≡ MessageType.store_provider
      → parse_store_provider msg.payload ≡ ok (hash_hex, provider)
      → (length hash_hex < 16) ⊎ (capacity provider.id < 8)
      → Crashes capacity msg

store_parsed_short :
    (capacity : Bytes → ℕ) (msg : Request) (node : Node) (hash_hex : Bytes) (provider : NodeInfo)
    → (length hash_hex < 16) ⊎ (capacity provider.id < 8)
    → store_parsed capacity msg node (ok (hash_hex, provider)) ≡ panic
unfolding store_parsed store_provider_local
store_parsed_short capacity msg node hash_hex provider h =
    let short : (ltb (length hash_hex) 16 || ltb (capacity provider.id) 8) ≡ true = ground arith in
    elim (Bool-cases (contains_id provider.id (node.providers hash_hex))) [
      | inl e ↦ rw (e, short) refl
      | inr e ↦ rw (e, short) refl
    ]

short_handled :
    (capacity : Bytes → ℕ) (msg : Request) (node : Node) (hash_hex : Bytes) (provider : NodeInfo)
    → parse_store_provider msg.payload ≡ ok (hash_hex, provider)
    → (length hash_hex < 16) ⊎ (capacity provider.id < 8)
    → handle_message capacity MessageType.store_provider msg node ≡ panic
unfolding handle_message handle_store_provider
short_handled capacity msg node hash_hex provider e h =
    rw (e, store_parsed_short capacity msg node hash_hex provider h) refl

-- A message without a sender, one whose sender's identifier is too short for the log, and a
-- request to store whose hash or identifier is too short for it stop the whole program.
pub receive-Crashes :
    (capacity : Bytes → ℕ) (msg : Request) (node : Node)
    → Crashes capacity msg
    → receive capacity msg node ≡ panic
unfolding receive
receive-Crashes capacity msg node (Crashes.nameless e) = ground arith
receive-Crashes capacity msg node (Crashes.short_sender from e h) = ground arith
receive-Crashes capacity msg node (Crashes.short_store from provider hash_hex e k p h) =
    elim (Bool-cases (ltb (capacity from.id) 8)) [
      | inl f ↦ ground arith
      | inr f ↦
          let node' : Node = record node { table = insert_node from node.table } in
          received capacity msg node from e (ground arith)
          ∙ ap (λ (kind : MessageType). handle_message capacity kind msg node') k
          ∙ short_handled capacity msg node' hash_hex provider p h
    ]
