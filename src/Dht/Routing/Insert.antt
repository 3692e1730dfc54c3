-- ===== src/Dht/Routing/Insert.antt =====
-- `InsertNode` as an update of the map that `Lookup` reads.
use mini_ipfs.Prelude.{
  ℕ, ◌≤◌, ◌≡◌, ◌≢◌, refl, sym, ap, ◌∙◌, inl, inr, true, false, none, some, List, [], arith, ==_iff,
  length, if◌then◌else◌, Bytes, eq_bytes, eq_bytes_iff, eq_bytes_ne, Bool-cases, Option-cases, ◌⊎◌,
}
use mini_ipfs.Dht.Types.{NodeInfo}
use mini_ipfs.Dht.Routing.{
  RoutingTable, nodes_at, set_bucket, ensure_bucket, get_bucket_index, place, find, lookup,
  insert_node, insert_node_internal, split_bucket, contains_id,
}
use mini_ipfs.Dht.Routing.Bucket.{contains_id-All, replace_node-none}
use mini_ipfs.Dht.Routing.Invariant.{
  lowest, IsTable, nodes_at-set_bucket, nodes_at-ensure_bucket, get_bucket_index-set_bucket,
  get_bucket_index_self, ensure_bucket_cases, ensure_bucket-IsTable,
}
use mini_ipfs.Dht.Routing.Place.{
  lookup_other, lookup-set_bucket, lookup-ensure_bucket, place-some, Grown, Grown-find_self,
  Grown-find_other, place-IsTable,
}
use mini_ipfs.Dht.Routing.Split.{split_effect}

gbi-ensure_bucket :
    (i : ℕ) (t : RoutingTable) (id : Bytes)
    → get_bucket_index (ensure_bucket i t) id ≡ get_bucket_index t id
gbi-ensure_bucket i t id = elim (ensure_bucket_cases i t) [
  | inl e ↦ rw e
  | inr e ↦ rw e.1 (get_bucket_index-set_bucket i [] t id)
]

self-ensure_bucket : (i : ℕ) (t : RoutingTable) → (ensure_bucket i t).self ≡ t.self
unfolding ensure_bucket set_bucket
self-ensure_bucket i t = ground arith

k-ensure_bucket : (i : ℕ) (t : RoutingTable) → (ensure_bucket i t).k ≡ t.k
unfolding ensure_bucket set_bucket
k-ensure_bucket i t = ground arith

-- `Lookup` after the node was stored.
abbrev pub Stored : NodeInfo → RoutingTable → RoutingTable → Type 0
Stored node t u =
    (key : Bytes) → lookup key u ≡ (if eq_bytes key node.id then some node else lookup key t)

-- `Lookup` where there was no room for the node.
abbrev pub Dropped : NodeInfo → RoutingTable → RoutingTable → Type 0
Dropped node t u =
    (lookup node.id t ≡ none)
    × (t.k ≤ length (nodes_at t (get_bucket_index t node.id)))
    × ((key : Bytes) → lookup key u ≡ lookup key t)

module _ (node : NodeInfo) where
  place-Stored :
      (t u : RoutingTable)
      → node.id ≢ t.self.id
      → place node (get_bucket_index t node.id) t ≡ some u
      → Stored node t u
  place-Stored t u ne h key =
      let (new, e, grown) = place-some node (get_bucket_index t node.id) t u h in
      rw e (elim (Bool-cases (eq_bytes key node.id)) [
        | inl q ↦ rw (q, (eq_bytes_iff key node.id).0 q) (at_node new grown)
        | inr q ↦
            rw q (
              lookup-set_bucket key _ new t
                (Grown-find_other key (eq_bytes_ne key node.id q) grown))
      ])
    where
      i : ℕ
      i = get_bucket_index t node.id

      at_node :
          (new : List NodeInfo)
          → Grown node t.k (nodes_at t i) new
          → lookup node.id (set_bucket i new t) ≡ some node
      at_node new g =
          lookup_other node.id (set_bucket i new t) (own-ne new)
          ∙ ap (λ (j : ℕ). find node.id (nodes_at (set_bucket i new t) j))
              (get_bucket_index-set_bucket i new t node.id)
          ∙ rw (nodes_at-set_bucket, (==_iff i i).1 refl) (Grown-find_self g)
        where
          own-ne : (new : List NodeInfo) → node.id ≢ (set_bucket i new t).self.id
          own-ne new = unfold set_bucket in ne

  place-none :
      (i : ℕ) (t : RoutingTable)
      → place node i t ≡ none
      → (find node.id (nodes_at t i) ≡ none) × (t.k ≤ length (nodes_at t i))
  unfolding place
  place-none i t h = ground (arith, replace_node-none node (nodes_at t i))

  -- The same in the table whose bucket was made first.
  place_ensured :
      (t u : RoutingTable)
      → node.id ≢ t.self.id
      → IsTable t
      → place node (get_bucket_index t node.id) (ensure_bucket (get_bucket_index t node.id) t)
        ≡ some u
      → IsTable u × Stored node t u
  place_ensured t u ne v h =
      let i = get_bucket_index t node.id in
      let t' = ensure_bucket i t in
      let ne' : node.id ≢ t'.self.id = rw (self-ensure_bucket i t) ne in
      let h' : place node (get_bucket_index t' node.id) t' ≡ some u =
        ap (λ (j : ℕ). place node j t') (gbi-ensure_bucket i t node.id) ∙ h in
      (
        place-IsTable node t' u ne' h' (ensure_bucket-IsTable i t v),
        λ key. place-Stored t' u ne' h' key ∙ rw (lookup-ensure_bucket key i t),
      )

  -- `insertNodeInternal`
  internal_effect :
      (t : RoutingTable)
      → node.id ≢ t.self.id
      → IsTable t
      → IsTable (insert_node_internal node t)
        × (Stored node t (insert_node_internal node t)
            ⊎ ((key : Bytes) → lookup key (insert_node_internal node t) ≡ lookup key t))
  internal_effect t ne v =
      let i = get_bucket_index t node.id in
      elim (Option-cases (place node i (ensure_bucket i t))) [
        | inl e ↦
            rw (internal_eq e)
              (ensure_bucket-IsTable i t v, inr (λ key. lookup-ensure_bucket key i t))
        | inr e ↦
            let (w, st) = place_ensured t e.0 ne v e.1 in rw (internal_eq' e.0 e.1) (w, inl st)
      ]
    where
      internal_eq :
          place node (get_bucket_index t node.id) (ensure_bucket (get_bucket_index t node.id) t)
            ≡ none
          → insert_node_internal node t ≡ ensure_bucket (get_bucket_index t node.id) t
      internal_eq e = unfold insert_node_internal in rw (e, insert_node_internal)

      internal_eq' :
          (u : RoutingTable)
          → place node (get_bucket_index t node.id) (ensure_bucket (get_bucket_index t node.id) t)
            ≡ some u
          → insert_node_internal node t ≡ u
      internal_eq' u e = unfold insert_node_internal in rw (e, insert_node_internal)

  -- Where a full bucket holds the table's own node, it is the lowest one.
  own_bucket :
      (i : ℕ) (t : RoutingTable)
      → IsTable t
      → contains_id t.self.id (nodes_at t i) ≡ true
      → i ≡ lowest t
  own_bucket i t v h =
      sym
        (contains_id-All (λ id. get_bucket_index t id ≡ i) t.self.id (nodes_at t i) h (v.placed i))
      ∙ get_bucket_index_self t v.key

  module _ (t : RoutingTable) (ne : node.id ≢ t.self.id) where
    insert_placed :
        (u : RoutingTable)
        → place node (get_bucket_index t node.id) (ensure_bucket (get_bucket_index t node.id) t)
          ≡ some u
        → insert_node node t ≡ u
    unfolding insert_node
    insert_placed u e = ground (arith, eq_bytes_iff node.id t.self.id)

    insert_split :
        (i : ℕ) (u : RoutingTable)
        → get_bucket_index t node.id ≡ i
        → ensure_bucket i t ≡ u
        → place node i u ≡ none
        → contains_id t.self.id (nodes_at u i) ≡ true
        → insert_node node t ≡ insert_node_internal node (split_bucket i u)
    unfolding insert_node
    insert_split i u a b c d = ground (arith, eq_bytes_iff node.id t.self.id)

    insert_full :
        (i : ℕ) (u : RoutingTable)
        → get_bucket_index t node.id ≡ i
        → ensure_bucket i t ≡ u
        → place node i u ≡ none
        → contains_id t.self.id (nodes_at u i) ≡ false
        → insert_node node t ≡ u
    unfolding insert_node
    insert_full i u a b c d = ground (arith, eq_bytes_iff node.id t.self.id)

    no_room :
        place node (get_bucket_index t node.id) (ensure_bucket (get_bucket_index t node.id) t)
          ≡ none
        → (lookup node.id t ≡ none) × (t.k ≤ length (nodes_at t (get_bucket_index t node.id)))
    no_room e =
        let i = get_bucket_index t node.id in
        let (absent, full) = place-none i (ensure_bucket i t) e in
        (
          lookup_other node.id t ne
              ∙ ap (find node.id) (sym (nodes_at-ensure_bucket i i t))
              ∙ absent,
          omega (arith, full, k-ensure_bucket i t, ap length (nodes_at-ensure_bucket i i t)),
        )

    -- `InsertNode` of a node with another identifier than the table's own keeps a table in order. It
    -- stores the node and changes no other answer of `Lookup`, or it changes no answer at all: then
    -- the node was not known and its bucket was full.
    pub insert_node_effect :
        IsTable t
        → IsTable (insert_node node t)
          × (Stored node t (insert_node node t) ⊎ Dropped node t (insert_node node t))
    insert_node_effect v =
        let i = get_bucket_index t node.id in
        let t' = ensure_bucket i t in
        let same = λ (key : Bytes). lookup-ensure_bucket key i t in
        elim (Option-cases (place node i t')) [
          | inr e ↦
              let (w, st) = place_ensured t e.0 ne v e.1 in rw (insert_placed e.0 e.1) (w, inl st)
          | inl e ↦
              let (absent, full) = no_room e in
              let v' = ensure_bucket-IsTable i t v in
              elim (Bool-cases (contains_id t.self.id (nodes_at t' i))) [
                | inr c ↦ rw (insert_full i t' refl refl e c) (v', inr (absent, full, same))
                | inl c ↦
                    let low : i ≡ lowest t' = own_bucket i t' v' (
                      ap (λ (n : NodeInfo). contains_id n.id (nodes_at t' i))
                        (self-ensure_bucket i t)
                      ∙ c) in
                    let (w, s, l) = split_effect t' v' in
                    let ne' : node.id ≢ (split_bucket (lowest t') t').self.id =
                      rw (s, self-ensure_bucket i t) ne in
                    let (x, outcome) = internal_effect (split_bucket (lowest t') t') ne' w in
                    let eq : insert_node node t
                        ≡ insert_node_internal node (split_bucket (lowest t') t') =
                      insert_split i t' refl refl e c
                      ∙ ap (λ (j : ℕ). insert_node_internal node (split_bucket j t')) low in
                    rw eq (
                      x,
                      elim outcome [
                        | inl st ↦ inl (λ key. st key ∙ rw (l key, same key))
                        | inr un ↦ inr (absent, full, λ key. un key ∙ l key ∙ same key)
                      ],
                    )
              ]
        ]

-- The table's own node is never inserted.
pub insert_node_self :
    (node : NodeInfo) (t : RoutingTable) → node.id ≡ t.self.id → insert_node node t ≡ t
unfolding insert_node
insert_node_self node t e = ground (arith, eq_bytes_iff node.id t.self.id)
