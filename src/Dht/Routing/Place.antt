-- ===== src/Dht/Routing/Place.antt =====
-- Updating or adding a node in its bucket, and what `Lookup` sees of a change to one bucket.
use mini_ipfs.Prelude.{
  ℕ, ◌<◌, ◌≡◌, ◌≢◌, refl, sym, ap, ◌∙◌, inl, inr, Option, none, some, List, [], ◌∷◌, ◌++◌, arith,
  ◌==◌, ==_iff, length, length-append, if◌then◌else◌, Bytes, eq_bytes, eq_bytes_iff, eq_bytes_refl,
  Bool-cases, Option-cases, All-append, ltb, ltb→lt,
}
use mini_ipfs.Dht.Types.{NodeInfo}
use mini_ipfs.Dht.Routing.{
  RoutingTable, nodes_at, set_bucket, ensure_bucket, get_bucket_index, place, replace_node, find,
  lookup,
}
use mini_ipfs.Dht.Routing.Bucket.{
  Replaced, Replaced-All, Replaced-length, Replaced-NodupIds, Replaced-find_other,
  Replaced-find_self, find-append, find_same, find_skip, find-empty, append_node-NodupIds,
  replace_node-Replaced, replace_node-none,
}
use mini_ipfs.Dht.Routing.Invariant.{
  lowest, IsTable, nodes_at-set_bucket, get_bucket_index-set_bucket, set_bucket-IsTable,
  ensure_bucket_cases,
}

-- `Lookup`, for a key that is not the table's own.
pub lookup_other :
    (key : Bytes) (t : RoutingTable)
    → key ≢ t.self.id
    → lookup key t ≡ find key (nodes_at t (get_bucket_index t key))
unfolding lookup
lookup_other key t ne = ground (arith, eq_bytes_iff t.self.id key)

pub lookup_self : (t : RoutingTable) → lookup t.self.id t ≡ some t.self
unfolding lookup
lookup_self t = rw (eq_bytes_refl t.self.id)

-- A change that no key but `but` can see changes no other answer.
pub lookup-set_bucket :
    (key : Bytes) (i : ℕ) (nodes : List NodeInfo) (t : RoutingTable)
    → find key nodes ≡ find key (nodes_at t i)
    → lookup key (set_bucket i nodes t) ≡ lookup key t
unfolding lookup set_bucket
lookup-set_bucket key i nodes t e = rw (get_bucket_index-set_bucket i nodes t key) (
    ap (λ (r : Option NodeInfo). if eq_bytes t.self.id key then some t.self else r)
      (rw (nodes_at-set_bucket i (get_bucket_index t key) nodes t)
        (elim (Bool-cases (get_bucket_index t key == i)) [
          | inl q ↦ rw q (e ∙ ap (λ (j : ℕ). find key (nodes_at t j)) (sym ((==_iff _ _).0 q)))
          | inr q ↦ rw q
        ])))

pub lookup-ensure_bucket :
    (key : Bytes) (i : ℕ) (t : RoutingTable) → lookup key (ensure_bucket i t) ≡ lookup key t
lookup-ensure_bucket key i t = elim (ensure_bucket_cases i t) [
  | inl e ↦ rw e
  | inr e ↦ rw e.1 (lookup-set_bucket key i [] t (rw e.0))
]

-- The new content of the bucket: a node gave way, or a new one was added to the end.
pub data Grown (node : NodeInfo) (k : ℕ) (old new : List NodeInfo) : Type 0 where
  updated : Replaced node old new → Grown node k old new
  added : find node.id old ≡ none → length old < k → new ≡ old ++ node ∷ [] → Grown node k old new

pub place-some :
    (node : NodeInfo) (i : ℕ) (t u : RoutingTable)
    → place node i t ≡ some u
    → (new : List NodeInfo) × (u ≡ set_bucket i new t) × Grown node t.k (nodes_at t i) new
unfolding place
place-some node i t u h = elim (Option-cases (replace_node node (nodes_at t i))) [
  | inl e ↦ elim (Bool-cases (ltb (length (nodes_at t i)) t.k)) [
    | inl f ↦ (
      nodes_at t i ++ node ∷ [],
      ground arith,
      Grown.added (replace_node-none node _ e) (ltb→lt _ _ f) refl,
    )
    | inr f ↦ absurd (ground arith)
  ]
  | inr e ↦ (e.0, ground (arith, e.1), Grown.updated (replace_node-Replaced node _ e.0 e.1))
]

pub Grown-find_self :
    {node : NodeInfo} {k : ℕ} {old new : List NodeInfo}
    → Grown node k old new
    → find node.id new ≡ some node
Grown-find_self {node} (Grown.updated r) = Replaced-find_self node r
Grown-find_self {node} {old = old} (Grown.added a l e) =
    rw (e, find-append node.id old (node ∷ []), a) (find_same node.id node [] refl)

pub Grown-find_other :
    {node : NodeInfo} {k : ℕ} {old new : List NodeInfo} (key : Bytes)
    → key ≢ node.id
    → Grown node k old new
    → find key new ≡ find key old
Grown-find_other {node} key ne (Grown.updated r) = Replaced-find_other node key ne r
Grown-find_other {node} {old = old} key ne (Grown.added a l e) = ground (
  arith,
  e,
  find-append key old (node ∷ []),
  find_skip key node [] (λ p. ne (sym p)),
  find-empty key,
)

-- A node placed in the bucket that its identifier belongs in keeps the table in order.
pub place-IsTable :
    (node : NodeInfo) (t u : RoutingTable)
    → node.id ≢ t.self.id
    → place node (get_bucket_index t node.id) t ≡ some u
    → IsTable t
    → IsTable u
place-IsTable node t u ne h v =
    let (new, e, grown) = place-some node (get_bucket_index t node.id) t u h in rw e (go new grown)
  where
    i : ℕ
    i = get_bucket_index t node.id

    own :
        (new : List NodeInfo)
        → Grown node t.k (nodes_at t i) new
        → lowest t ≡ i
        → find t.self.id new ≡ some t.self
    own new g low = Grown-find_other t.self.id (λ e. ne (sym e)) g ∙ rw (← low) v.local

    go : (new : List NodeInfo) → Grown node t.k (nodes_at t i) new → IsTable (set_bucket i new t)
    go new (Grown.updated r) =
        set_bucket-IsTable i new t
          (Replaced-All node (λ id. get_bucket_index t id ≡ i) r (v.placed i))
          (omega (arith, Replaced-length node r, v.bounded i))
          (Replaced-NodupIds node r (v.nodup i)) (own new (Grown.updated r)) v
    go new (Grown.added a l e) =
        set_bucket-IsTable i new t
          (rw e (
            All-append (λ (n : NodeInfo). get_bucket_index t n.id ≡ i) _ _ (v.placed i) (refl, tt)))
          (rw e (omega (arith, length-append (nodes_at t i) (node ∷ []))))
          (rw e (append_node-NodupIds _ node (v.nodup i) a)) (own new (Grown.added a l e)) v
