-- ===== src/Dht/Closest/Blind.antt =====
-- What `ClosestK` does not see: buckets further than 128 places from the key's own.
use mini_ipfs.Prelude.{
  ◌⊎◌, ◌≢◌, All-append, All-map, ℕ, zero, suc, ◌+◌, ◌≤◌, ◌<◌, ◌≡◌, refl, ap, ◌∙◌, inl, inr, Bool,
  List, [], ◌∷◌, ◌++◌, map, arith, length, take, ◌*◌, ◌||◌, ltb, if◌then◌else◌, All, Bytes,
  Bool-cases, append-nil,
}
use mini_ipfs.Dht.Types.{NodeInfo}
use mini_ipfs.Dht.Distance.{xor_distance, distance_bucket}
use mini_ipfs.Dht.Distance.Metric.{distance_bucket_self}
use mini_ipfs.Dht.Routing.{RoutingTable, nodes_at, get_bucket_index}
use mini_ipfs.Dht.Routing.Invariant.{IsTable, lowest}
use mini_ipfs.Dht.Closest.{
  Gathered, buckets_to_check, visit, gather, candidates, closest_k, without, exchange_sort,
  visited_has, is_nil, with_distance, node_of,
}
use mini_ipfs.Dht.Closest.Known.{All-without, All-take, All-nodes, All-elements}
use mini_ipfs.Dht.Closest.Sort.{exchange_sort-All}
use mini_ipfs.Dht.Routing.Split.{empty_below}

module _ (t : RoutingTable) (v : IsTable t) where
  -- Buckets below the lowest one in use add no candidates.
  visit_below :
      (buckets : List ℕ) (g : Gathered)
      → All (λ i. i < lowest t) buckets
      → (visit t buckets g).1 ≡ g.1
  unfolding visit
  visit_below [] g h = refl
  visit_below (i ∷ buckets) (visited, cs) h =
      let chosen = λ (b : Bool).
        (visit t buckets
          (if b then (visited, cs) else (i ∷ visited, cs ++ without t.self.id (nodes_at t i)))).1 in
      elim (Bool-cases (visited_has i visited || is_nil (t.buckets i))) [
        | inl e ↦ ap chosen e ∙ visit_below buckets (visited, cs) h.1
        | inr e ↦
            ap chosen e
            ∙ visit_below buckets (i ∷ visited, cs ++ without t.self.id (nodes_at t i)) h.1
            ∙ rw (empty_below t i v h.0) (append-nil cs)
      ]

  checked_below :
      (start radius : ℕ)
      → start + radius < lowest t
      → All (λ i. i < lowest t) (buckets_to_check start radius)
  unfolding buckets_to_check
  checked_below start radius h = ground arith

  gather_below :
      (start rounds radius : ℕ) (g : Gathered)
      → start + radius + rounds ≤ lowest t
      → gather t start rounds radius g ≡ g.1
  unfolding gather
  gather_below start zero radius g h = refl
  gather_below start (suc rounds) radius g h =
      let same =
        visit_below (buckets_to_check start radius) g (checked_below start radius (omega arith)) in
      let ih =
        gather_below start rounds (suc radius) (visit t (buckets_to_check start radius) g)
          (omega arith) in
      elim (Bool-cases (ltb (length g.1) (t.k * 3))) [ inl e ↦ rw e (ih ∙ same) | inr e ↦ rw e ]

  single :
      (key : Bytes) (k : ℕ)
      → 0 < k
      → (cs : List NodeInfo) → cs ≡ t.self ∷ []
      → (let elements = map (with_distance key) cs in
          map node_of (take k (exchange_sort (length elements) elements)))
        ≡ t.self ∷ []
  unfolding exchange_sort
  single key zero h cs e = elim h [ ]
  single key (suc zero) h cs e = rw e refl
  single key (suc (suc k)) h cs e = rw e refl

  -- Of a table in order, `ClosestK` gives a key whose own bucket lies more than 128 places below the
  -- lowest bucket in use no node but the table's own, however many nodes the table holds.
  closest_k_alone :
      (key : Bytes)
      → distance_bucket (xor_distance t.self.id key) + 128 < lowest t
      → closest_k key t ≡ t.self ∷ []
  unfolding closest_k
  closest_k_alone key h =
      let none_seen =
        gather_below (distance_bucket (xor_distance t.self.id key)) 129 0 ([], t.self ∷ [])
          (omega arith) in
      single key t.k v.capacity (candidates key t) none_seen

  -- Of a table in order, `ClosestK` gives the table's own key no node but the table's own as long as
  -- the depth of the table is below 127.
  pub closest_k_self : t.depth < 127 → closest_k t.self.id t ≡ t.self ∷ []
  closest_k_self h =
      closest_k_alone t.self.id (omega (arith, distance_bucket_self t.self.id v.key.bytes))

  -- The node is the table's own, or its bucket is within 128 places of the one with the number.
  abbrev Near : ℕ → NodeInfo → Type 0
  Near start n =
      (n ≡ t.self)
      ⊎ ((get_bucket_index t n.id ≤ start + 128) × (start ≤ get_bucket_index t n.id + 128))

  bucket-Near :
      (start i : ℕ)
      → i ≤ start + 128
      → start ≤ i + 128
      → All (Near start) (without t.self.id (nodes_at t i))
  bucket-Near start i above below = All-without (Near start) t.self.id (nodes_at t i) (
      All-map (λ (n : NodeInfo). get_bucket_index t n.id ≡ i) (λ n. n.id ≢ t.self.id → Near start n)
        (λ n e ne. inr (omega (arith, e), omega (arith, e))) (nodes_at t i) (v.placed i))

  visit-Near :
      (start : ℕ) (buckets : List ℕ) (g : Gathered)
      → All (λ i. (i ≤ start + 128) × (start ≤ i + 128)) buckets
      → All (Near start) g.1
      → All (Near start) (visit t buckets g).1
  unfolding visit
  visit-Near start [] g h a = a
  visit-Near start (i ∷ buckets) (visited, cs) h a =
      visit-Near start buckets _ h.1
        (elim (Bool-cases (visited_has i visited || is_nil (t.buckets i))) [
          | inl e ↦ rw e a
          | inr e ↦ rw e (All-append (Near start) cs _ a (bucket-Near start i h.0.0 h.0.1))
        ])

  checked_near :
      (start radius : ℕ)
      → radius ≤ 128
      → All (λ i. (i ≤ start + 128) × (start ≤ i + 128)) (buckets_to_check start radius)
  unfolding buckets_to_check
  checked_near start radius h = ground arith

  gather-Near :
      (start rounds radius : ℕ) (g : Gathered)
      → radius + rounds ≤ 129
      → All (Near start) g.1
      → All (Near start) (gather t start rounds radius g)
  unfolding gather
  gather-Near start zero radius g h a = a
  gather-Near start (suc rounds) radius g h a =
      let seen =
        visit-Near start (buckets_to_check start radius) g (checked_near start radius (omega arith))
          a in
      let ih =
        gather-Near start rounds (suc radius) (visit t (buckets_to_check start radius) g)
          (omega arith) seen in
      elim (Bool-cases (ltb (length g.1) (t.k * 3))) [ inl e ↦ rw e ih | inr e ↦ rw e a ]

  -- Of a table in order, `ClosestK` returns no node but the table's own whose bucket lies more than
  -- 128 places above or below the key's own, however close the node, and however few others there are.
  pub closest_k_blind :
      (key : Bytes)
      → All
          (λ n.
            (n ≡ t.self)
            ⊎ ((get_bucket_index t n.id ≤ distance_bucket (xor_distance t.self.id key) + 128)
                × (distance_bucket (xor_distance t.self.id key) ≤ get_bucket_index t n.id + 128)))
          (closest_k key t)
  unfolding closest_k
  closest_k_blind key =
      let start = distance_bucket (xor_distance t.self.id key) in
      let cs = gather-Near start 129 0 ([], t.self ∷ []) (omega arith) (inl refl, tt) in
      All-nodes (Near start) _ (
        All-take (λ e. Near start e.node) t.k _
          (exchange_sort-All (λ e. Near start e.node) _ _ (All-elements (Near start) key _ cs)))
