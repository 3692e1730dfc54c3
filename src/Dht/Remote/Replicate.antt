-- ===== src/Dht/Remote/Replicate.antt =====
-- Whom `StoreProvider` reaches.
use mini_ipfs.Prelude.{
  ℕ, ◌≡◌, ◌≢◌, ◌≤◌, ◌⊎◌, ◌∙◌, ap, none, some, refl, inl, inr, true, false, ◌||◌, Option, List, [],
  ◌∷◌, take, length, ltb, eq_bytes, eq_bytes_iff, All, ok, Bytes, Bool-cases, arith,
}
use mini_ipfs.Hex.{encode_to_string}
use mini_ipfs.Hex.RoundTrip.{length-encode_to_string}
use mini_ipfs.Dht.Types.{NodeInfo}
use mini_ipfs.Dht.Json.{Json}
use mini_ipfs.Dht.Closest.{closest_k}
use mini_ipfs.Dht.Providers.{Providers, store_provider_local}
use mini_ipfs.Dht.Providers.Laws.{NodupProviders, Provided, store_provider_local_effect}
use mini_ipfs.Dht.Providers.Search.{cut}
use mini_ipfs.Dht.Rpc.{MessageType, Node, StoreFailure}
use mini_ipfs.Dht.Remote.{
  Answer, accepted, expect, store_provider_remote, replicate_to, replicate_to_bootstraps,
  store_provider,
}

abbrev same_payload : MessageType → Answer → Option Answer
same_payload k answer = some (record { kind = k; payload = answer.payload })

accepted_kind :
    (kind : MessageType) (payload : Json)
    → accepted (some (record { kind = kind; payload = payload })) ≡ true
    → kind ≡ MessageType.store_resp
unfolding store_provider_remote expect
accepted_kind MessageType.store_resp payload a = refl
accepted_kind MessageType.ping payload a = cc a
accepted_kind MessageType.pong payload a = cc a
accepted_kind MessageType.find_node payload a = cc a
accepted_kind MessageType.find_node_resp payload a = cc a
accepted_kind MessageType.store_provider payload a = cc a
accepted_kind MessageType.find_providers payload a = cc a
accepted_kind MessageType.providers_resp payload a = cc a
accepted_kind (MessageType.unknown x) payload a = cc a

refused_kind :
    (kind : MessageType) (payload : Json)
    → accepted (some (record { kind = kind; payload = payload })) ≡ false
    → kind ≢ MessageType.store_resp
unfolding store_provider_remote expect
refused_kind kind payload a e = cc (rw e at a)

module _ (send : Bytes → Option Answer) where
  -- The address sent an answer of the right type, whatever the answer says: `StoreResponse` tells
  -- whether the record was stored, and is not read.
  abbrev pub Responded : Bytes → Type 0
  Responded addr =
      (payload : Json) × (send addr
        ≡ some (record { kind = MessageType.store_resp; payload = payload }))

  -- The address sent no answer, or one of another type.
  abbrev pub Unanswered : Bytes → Type 0
  Unanswered addr =
      (send addr ≡ none)
      ⊎ ((answer : Answer) × (send addr ≡ some answer) × (answer.kind ≢ MessageType.store_resp))

  -- No node of the list but the one itself responded.
  abbrev pub NoPeer : Bytes → List NodeInfo → Type 0
  NoPeer self = All (λ p. p.id ≢ self → Unanswered p.addr)

  -- No address but the empty one and the node's own responded.
  abbrev pub NoBootstrap : Bytes → List Bytes → Type 0
  NoBootstrap own_addr = All (λ b. b ≢ [] → b ≢ own_addr → Unanswered b)

  accepted-Responded : (addr : Bytes) → accepted (send addr) ≡ true → Responded addr
  unfolding store_provider_remote expect
  accepted-Responded addr a = go (send addr) refl
    where
      go : (answer : Option Answer) → send addr ≡ answer → Responded addr
      go none e = cc (rw e at a)
      go (some answer) e = (
        answer.payload,
        e
            ∙ ap (λ (k : MessageType). same_payload k answer)
                (accepted_kind answer.kind answer.payload (rw e at a)),
      )

  accepted-Unanswered : (addr : Bytes) → accepted (send addr) ≡ false → Unanswered addr
  accepted-Unanswered addr a = go (send addr) refl
    where
      go : (answer : Option Answer) → send addr ≡ answer → Unanswered addr
      go none e = inl e
      go (some answer) e = inr (answer, e, refused_kind answer.kind answer.payload (rw e at a))

  replicate_to-Responded :
      (self : Bytes) (peers : List NodeInfo) → All Responded (replicate_to send self peers)
  unfolding replicate_to
  replicate_to-Responded self [] = tt
  replicate_to-Responded self (p ∷ peers) =
      let ih = replicate_to-Responded self peers in
      elim (Bool-cases (eq_bytes p.id self)) [
        | inl e ↦ rw e ih
        | inr e ↦ elim (Bool-cases (accepted (send p.addr))) [
          | inl a ↦ rw (e, a) (accepted-Responded _ a, ih)
          | inr a ↦ rw (e, a) ih
        ]
      ]

  replicate_to_bootstraps-Responded :
      (own : Bytes) (bs : List Bytes) → All Responded (replicate_to_bootstraps send own bs)
  unfolding replicate_to_bootstraps
  replicate_to_bootstraps-Responded own [] = tt
  replicate_to_bootstraps-Responded own (b ∷ bs) =
      let ih = replicate_to_bootstraps-Responded own bs in
      elim (Bool-cases (eq_bytes b [] || eq_bytes b own)) [
        | inl e ↦ rw e ih
        | inr e ↦ elim (Bool-cases (accepted (send b))) [
          | inl a ↦ rw (e, a) (accepted-Responded _ a, ih)
          | inr a ↦ rw (e, a) ih
        ]
      ]

  replicate_to-none :
      (self : Bytes) (peers : List NodeInfo) → replicate_to send self peers ≡ [] → NoPeer self peers
  unfolding replicate_to
  replicate_to-none self [] h = tt
  replicate_to-none self (p ∷ peers) h = elim (Bool-cases (eq_bytes p.id self)) [
    | inl e ↦
        (λ ne. absurd (ne ((eq_bytes_iff p.id self).0 e)), replicate_to-none self peers (rw e at h))
    | inr e ↦ elim (Bool-cases (accepted (send p.addr))) [
      | inl a ↦ cc (rw (e, a) at h)
      | inr a ↦ (λ ne. accepted-Unanswered _ a, replicate_to-none self peers (rw (e, a) at h))
    ]
  ]

  replicate_to_bootstraps-none :
      (own : Bytes) (bs : List Bytes)
      → replicate_to_bootstraps send own bs ≡ []
      → NoBootstrap own bs
  unfolding replicate_to_bootstraps
  replicate_to_bootstraps-none own [] h = tt
  replicate_to_bootstraps-none own (b ∷ bs) h =
      elim (Bool-cases (eq_bytes b [] || eq_bytes b own)) [
        | inl e ↦
            (λ ne ne'. absurd (skipped ne ne' e), replicate_to_bootstraps-none own bs (rw e at h))
        | inr e ↦ elim (Bool-cases (accepted (send b))) [
          | inl a ↦ cc (rw (e, a) at h)
          | inr a ↦ (
            λ ne ne'. accepted-Unanswered _ a,
            replicate_to_bootstraps-none own bs (rw (e, a) at h),
          )
        ]
      ]
    where
      skipped : b ≢ [] → b ≢ own → (eq_bytes b [] || eq_bytes b own) ≢ true
      skipped ne ne' e = ground (arith, eq_bytes_iff b [], eq_bytes_iff b own)

  -- All that is reached, by what the loop over the closest nodes reached.
  abbrev fallback : (own : Bytes) (bs : List Bytes) → List Bytes → List Bytes
  fallback own bs [] = replicate_to_bootstraps send own bs
  fallback own bs (a ∷ reached) = a ∷ reached

  fallback-Responded :
      (own : Bytes) (bs reached : List Bytes)
      → All Responded reached
      → All Responded (fallback own bs reached)
  fallback-Responded own bs [] h = replicate_to_bootstraps-Responded own bs
  fallback-Responded own bs (a ∷ reached) h = h

  fallback-none :
      (own : Bytes) (bs reached : List Bytes)
      → fallback own bs reached ≡ []
      → (reached ≡ []) × NoBootstrap own bs
  fallback-none own bs [] h = (refl, replicate_to_bootstraps-none own bs h)
  fallback-none own bs (a ∷ reached) h = cc

  module _ (capacity : Bytes → ℕ) (k : ℕ) (bootstraps : List Bytes) (hash : Bytes)
      (provider : NodeInfo) (node : Node) where
    returned :
        (after : Providers)
        → 8 ≤ length hash
        → store_provider_local {E = StoreFailure}
            (capacity provider.id)
            (encode_to_string hash)
            provider
            node.providers
          ≡ ok after
        → store_provider capacity k bootstraps send hash provider node
          ≡ ok (
            record node { providers = after },
            fallback node.table.self.addr bootstraps
                (replicate_to send node.table.self.id (take k (closest_k hash node.table))),
          )
    unfolding store_provider
    returned after long e =
        let enough : ltb (length (encode_to_string hash)) 16 ≡ false =
          ground (arith, length-encode_to_string hash) in
        rw (e, enough, cut k (closest_k hash node.table)) refl

    -- For a hash and an identifier that are long enough for the log, `StoreProvider` returns. The
    -- node then lists the provider itself. Each address that it counts sent a STORE_RESP, which may say
    -- that the record was not stored, and if it counts none then none of the first `k` closest nodes,
    -- itself left out, sent one, and no bootstrap address but the empty one and its own did.
    pub store_provider_effect :
        NodupProviders node.providers
        → 8 ≤ length hash
        → 8 ≤ capacity provider.id
        → (after : Providers) × (reached : List Bytes) × (store_provider capacity k bootstraps send
              hash provider node
            ≡ ok (record node { providers = after }, reached))
          × NodupProviders after
          × Provided (encode_to_string hash) provider node.providers after
          × All Responded reached
          × (reached ≡ []
              → NoPeer node.table.self.id (take k (closest_k hash node.table))
                × NoBootstrap node.table.self.addr bootstraps)
    store_provider_effect u long wide =
        let peers = take k (closest_k hash node.table) in
        let reached = replicate_to send node.table.self.id peers in
        let own = node.table.self.addr in
        elim (store_provider_local_effect {E = StoreFailure} (capacity provider.id)
          (encode_to_string hash) provider node.providers u) [
            | inl bad ↦ absurd (elim bad.1 [
              | inl s ↦ omega (arith, length-encode_to_string hash)
              | inr s ↦ omega arith
            ])
            | inr (after, e, v, p) ↦ (
              after,
              fallback own bootstraps reached,
              returned after long e,
              v,
              p,
              fallback-Responded own bootstraps reached
                  (replicate_to-Responded node.table.self.id peers),
              λ h.
                  let (a, b) = fallback-none own bootstraps reached h in
                  (replicate_to-none node.table.self.id peers a, b),
            )
          ]
