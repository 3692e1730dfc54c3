-- ===== src/Dht/Rpc/Laws.antt =====
-- What a node does with a message, whatever the message holds.
use mini_ipfs.Prelude.{
  ℕ, ◌≡◌, ◌≤◌, refl, ◌∙◌, inl, inr, ◌⊎◌, false, Option, none, some, [], ◌∷◌, ◌||◌, arith, length,
  eq_bytes, eq_bytes_iff, eq_bytes_ne, ltb, Bytes, Bool-cases, Option-cases, Result, ok, err, panic,
  running,
}
use mini_ipfs.Dht.Types.{NodeInfo}
use mini_ipfs.Hex.{decode_string}
use mini_ipfs.Dht.Closest.{closest_k}
use mini_ipfs.Dht.Routing.{RoutingTable, insert_node}
use mini_ipfs.Dht.Routing.Invariant.{IsTable}
use mini_ipfs.Dht.Routing.Insert.{insert_node_effect, insert_node_self}
use mini_ipfs.Dht.Providers.{Providers, load_providers}
use mini_ipfs.Dht.Providers.Laws.{NodupProviders, Provided, store_provider_local_effect}
use mini_ipfs.Dht.Rpc.{
  MessageType, Request, Response, StoreFailure, Payload, Node, reply, hash_key, payload_text,
  handle_find_node, handle_find_providers, parse_store_provider, store_parsed,
  handle_store_provider, handle_message, receive, store_response, providers_response,
  find_node_response, target_key,
}
use mini_ipfs.Dht.Rpc.Answers.{target_of, Holds, Answers}
use mini_ipfs.Dht.Rpc.Checks.{parse_store_provider-Returns, not_panic}

pub record IsNode (node : Node) : Type 0 where
  pub table : IsTable node.table
  pub providers : NodupProviders node.providers

-- The hash and the identifier of a request to store, if it passes the checks, are long enough for
-- the log.
abbrev pub IsStorable : (capacity : Bytes → ℕ) → Result StoreFailure (Bytes × NodeInfo) → Type 0
IsStorable capacity (ok (hash_hex, provider)) = (16 ≤ length hash_hex) × (8 ≤ capacity provider.id)
IsStorable capacity _ = Unit

-- The message names its sender, and what it carries is long enough for the log.
pub record IsSafe (capacity : Bytes → ℕ) (msg : Request) : Type 0 where
  pub from : NodeInfo
  pub named : msg.sender ≡ some from
  pub logged : 8 ≤ capacity from.id
  pub storable :
      msg.kind ≡ MessageType.store_provider → IsStorable capacity (parse_store_provider msg.payload)

pub insert-IsTable : (node : NodeInfo) (t : RoutingTable) → IsTable t → IsTable (insert_node node t)
insert-IsTable node t v = elim (Bool-cases (eq_bytes node.id t.self.id)) [
  | inl e ↦ rw (insert_node_self node t ((eq_bytes_iff node.id t.self.id).0 e)) v
  | inr e ↦ (insert_node_effect node t (eq_bytes_ne node.id t.self.id e) v).0
]

module _ (capacity : Bytes → ℕ) (msg : Request) where
  -- What storing does where nothing is too short for the log.
  pub store_parsed_safe :
      (node : Node) (hash_hex : Bytes) (p : NodeInfo)
      → NodupProviders node.providers
      → 16 ≤ length hash_hex
      → 8 ≤ capacity p.id
      → (after : Providers) × (store_parsed capacity msg node (ok (hash_hex, p))
          ≡ ok (
            record node { providers = after },
            reply MessageType.store_resp (store_response none) msg node,
          ))
        × NodupProviders after
        × Provided hash_hex p node.providers after
  unfolding store_parsed
  store_parsed_safe node hash_hex p u long wide =
      elim (store_provider_local_effect {E = StoreFailure} (capacity p.id) hash_hex p node.providers
        u) [
          | inl bad ↦ absurd (elim bad.1 [ inl s ↦ omega arith | inr s ↦ omega arith ])
          | inr good ↦
              let fits : (ltb (length hash_hex) 16 || ltb (capacity p.id) 8) ≡ false =
                ground arith in
              (good.0, rw (good.1, fits) refl, good.2, good.3)
        ]

  -- The outcome of a handler: it returns, keeps the node in order, and answers to the point.
  abbrev Handled : Result StoreFailure (Node × Option Response) → Type 0
  Handled r =
      (after : Node) × (answer : Option Response) × (r ≡ ok (after, answer))
      × IsNode after
      × Answers msg after answer

  find_node_reply :
      (node : Node)
      → ((handle_find_node msg node ≡ none) × (target_of msg.payload ≡ none))
        ⊎ ((w : Payload) × (handle_find_node msg node
              ≡ some (reply MessageType.find_node_resp w msg node))
            × Holds msg node MessageType.find_node_resp w)
  unfolding handle_find_node
  find_node_reply node = elim (Option-cases (payload_text target_key msg.payload)) [
    | inl e ↦ inl (rw (handle_find_node, e) refl, rw (target_of, e) refl)
    | inr e ↦ elim (Option-cases (decode_string e.0)) [
      | inl f ↦ inl (rw (handle_find_node, e.1, f) refl, rw (target_of, e.1, f) refl)
      | inr f ↦ inr (
        find_node_response (closest_k f.0 node.table),
        rw (handle_find_node, e.1, f.1) refl,
        (f.0, rw (target_of, e.1, f.1) refl, refl),
      )
    ]
  ]

  find_providers_reply :
      (node : Node) (found : Option Bytes)
      → payload_text hash_key msg.payload ≡ found
      → (w : Payload) × (handle_find_providers msg node
          ≡ reply MessageType.providers_resp w msg node)
        × Holds msg node MessageType.providers_resp w
  unfolding handle_find_providers
  find_providers_reply node none e =
      (providers_response [], rw (handle_find_providers, e) refl, inl (inl e, refl))
  find_providers_reply node (some []) e =
      (providers_response [], rw (handle_find_providers, e) refl, inl (inr e, refl))
  find_providers_reply node (some (c ∷ hash)) e = (
    providers_response (load_providers (c ∷ hash) node.providers),
    rw (handle_find_providers, e) refl,
    inr (c ∷ hash, e, refl),
  )

  store_Handled :
      (node : Node) (parsed : Result StoreFailure (Bytes × NodeInfo))
      → msg.kind ≡ MessageType.store_provider
      → parse_store_provider msg.payload ≡ parsed
      → IsNode node
      → IsStorable capacity parsed
      → Handled (handle_message capacity MessageType.store_provider msg node)
  unfolding handle_message handle_store_provider
  store_Handled node (ok (hash_hex, p)) e f v s =
      let (after, g, u, _) = store_parsed_safe node hash_hex p v.providers s.0 s.1 in
      (
        record node { providers = after },
        some (reply MessageType.store_resp (store_response none) msg node),
        rw (f, g) refl,
        record { table = v.table; providers = u },
        (refl, refl, rw e refl, inl ((hash_hex, p), f, refl)),
      )
  store_Handled node (err x) e f v s = (
    node,
    some (reply MessageType.store_resp (store_response (some x)) msg node),
    unfold store_parsed in rw f refl,
    v,
    (refl, refl, rw e refl, inr (x, f, refl)),
  )
  store_Handled node panic e f v s =
      absurd ((not_panic (parse_store_provider-Returns msg.payload)).0 f)
  store_Handled node running e f v s =
      absurd ((not_panic (parse_store_provider-Returns msg.payload)).1 f)

  handle_message-Handled :
      (kind : MessageType) (node : Node)
      → msg.kind ≡ kind
      → IsNode node
      → (kind ≡ MessageType.store_provider → IsStorable capacity (parse_store_provider msg.payload))
      → Handled (handle_message capacity kind msg node)
  unfolding handle_message
  handle_message-Handled MessageType.ping node e v s =
      (node, _, refl, v, (refl, refl, rw e refl, refl))
  handle_message-Handled MessageType.find_node node e v s = elim (find_node_reply node) [
    | inl f ↦ (node, none, rw f.0 refl, v, inr (e, f.1))
    | inr f ↦ (
      node,
      some (reply MessageType.find_node_resp f.0 msg node),
      rw f.1 refl,
      v,
      (refl, refl, rw e refl, f.2),
    )
  ]
  handle_message-Handled MessageType.store_provider node e v s =
      store_Handled node _ e refl v (s refl)
  handle_message-Handled MessageType.find_providers node e v s =
      let (w, f, holds) = find_providers_reply node _ refl in
      (
        node,
        some (reply MessageType.providers_resp w msg node),
        rw f refl,
        v,
        (refl, refl, rw e refl, holds),
      )
  handle_message-Handled MessageType.pong node e v s = (node, none, refl, v, inl (rw e refl))
  handle_message-Handled MessageType.find_node_resp node e v s =
      (node, none, refl, v, inl (rw e refl))
  handle_message-Handled MessageType.store_resp node e v s = (node, none, refl, v, inl (rw e refl))
  handle_message-Handled MessageType.providers_resp node e v s =
      (node, none, refl, v, inl (rw e refl))
  handle_message-Handled (MessageType.unknown x) node e v s = (node, none, refl, v, inl (rw e refl))

  pub received :
      (node : Node) (from : NodeInfo)
      → msg.sender ≡ some from
      → 8 ≤ capacity from.id
      → receive capacity msg node
        ≡ handle_message capacity msg.kind msg (record node { table = insert_node from node.table })
  unfolding receive
  received node from e h = ground arith

  -- A node in order takes every message that names a sender and carries nothing too short for the
  -- log: the handler returns and the node stays in order. Every request is answered, but for one for
  -- nodes that names no target in hexadecimal. An answer carries the identifier of the request, the node
  -- itself as sender, the type that goes with the type of the request, and what was asked for: the
  -- closest nodes to the target, the providers listed for the hash, or which check of a request to
  -- store failed, if any.
  pub receive_safe :
      (node : Node) → IsNode node → IsSafe capacity msg → Handled (receive capacity msg node)
  receive_safe node v s =
      let node' : Node = record node { table = insert_node s.from node.table } in
      let v' : IsNode node' = record {
        table = insert-IsTable s.from node.table v.table;
        providers = v.providers;
      } in
      let (after, answer, e, w, a) = handle_message-Handled msg.kind node' refl v' s.storable in
      (after, answer, received node s.from s.named s.logged ∙ e, w, a)
