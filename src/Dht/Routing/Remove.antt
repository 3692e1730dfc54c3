-- ===== src/Dht/Routing/Remove.antt =====
-- `RemoveNode` as a removal from the map that `Lookup` reads, and all tables that calls can make.
use mini_ipfs.Prelude.{
  ℕ, ◌≡◌, ◌≢◌, refl, sym, ap, ◌∙◌, inl, inr, true, none, some, List, arith, ==_iff, if◌then◌else◌,
  Bytes, eq_bytes, eq_bytes_iff, eq_bytes_ne, Bool-cases, Option-cases, ok, err, ◌⊎◌,
}
use mini_ipfs.Dht.Types.{NodeInfo, invalid_node, not_found}
use mini_ipfs.Dht.Routing.{
  RoutingTable, nodes_at, set_bucket, get_bucket_index, find, lookup, insert_node, remove_node,
  remove_first,
}
use mini_ipfs.Dht.Routing.Bucket.{
  Removed, remove_first-Removed, remove_first-none, Removed-find_other, Removed-find_self,
  Removed-length, Removed-NodupIds, Removed-All, NodupIds,
}
use mini_ipfs.Dht.Routing.Invariant.{
  IsTable, nodes_at-set_bucket, get_bucket_index-set_bucket, set_bucket-IsTable,
}
use mini_ipfs.Dht.Routing.Place.{lookup_other, lookup-set_bucket}
use mini_ipfs.Dht.Routing.Insert.{insert_node_effect, insert_node_self}

-- What `RemoveNode` does with a key that is known.
abbrev pub Forgotten : Bytes → RoutingTable → RoutingTable → Type 0
Forgotten key t u = (k : Bytes) → lookup k u ≡ (if eq_bytes k key then none else lookup k t)

module _ (key : Bytes) (t : RoutingTable) where
  remove_found :
      (left : List NodeInfo)
      → key ≢ t.self.id
      → remove_first key (nodes_at t (get_bucket_index t key)) ≡ some left
      → remove_node key t ≡ (ok tt, set_bucket (get_bucket_index t key) left t)
  unfolding remove_node
  remove_found left ne e = ground (arith, eq_bytes_iff key t.self.id)

  remove_missing :
      key ≢ t.self.id
      → remove_first key (nodes_at t (get_bucket_index t key)) ≡ none
      → remove_node key t ≡ (err not_found, t)
  unfolding remove_node
  remove_missing ne e = ground (arith, eq_bytes_iff key t.self.id)

  Removed-bucket :
      (left : List NodeInfo)
      → key ≢ t.self.id
      → IsTable t
      → Removed key (nodes_at t (get_bucket_index t key)) left
      → IsTable (set_bucket (get_bucket_index t key) left t)
        × Forgotten key t (set_bucket (get_bucket_index t key) left t)
  Removed-bucket left ne v r =
      let i = get_bucket_index t key in
      (
        set_bucket-IsTable i left t
            (Removed-All key (λ id. get_bucket_index t id ≡ i) r (v.placed i))
            (omega (arith, Removed-length key r, v.bounded i)) (Removed-NodupIds key r (v.nodup i))
            (λ low. Removed-find_other key t.self.id (λ e. ne (sym e)) r ∙ rw (← low) v.local) v,
        λ k. elim (Bool-cases (eq_bytes k key)) [
          | inl q ↦ rw (q, (eq_bytes_iff k key).0 q) (gone left r (v.nodup i))
          | inr q ↦
              rw q (lookup-set_bucket k i left t (Removed-find_other key k (eq_bytes_ne k key q) r))
        ],
      )
    where
      gone :
          (left : List NodeInfo)
          → Removed key (nodes_at t (get_bucket_index t key)) left
          → NodupIds (nodes_at t (get_bucket_index t key))
          → lookup key (set_bucket (get_bucket_index t key) left t) ≡ none
      gone left r u =
          let i = get_bucket_index t key in
          lookup_other key (set_bucket i left t) (unfold set_bucket in ne)
          ∙ ap (λ (j : ℕ). find key (nodes_at (set_bucket i left t) j))
              (get_bucket_index-set_bucket i left t key)
          ∙ rw (nodes_at-set_bucket, (==_iff i i).1 refl) (Removed-find_self key r u)

  pub remove_node_effect :
      IsTable t
      → ((key ≡ t.self.id) × (remove_node key t ≡ (err invalid_node, t)))
        ⊎ ((lookup key t ≡ none) × (remove_node key t ≡ (err not_found, t)))
        ⊎ ((key ≢ t.self.id)
            × ((remove_node key t).0 ≡ ok tt)
            × IsTable (remove_node key t).1
            × Forgotten key t (remove_node key t).1)
  remove_node_effect v = elim (Bool-cases (eq_bytes key t.self.id)) [
    | inl own ↦ inl ((eq_bytes_iff key t.self.id).0 own, remove_own own)
    | inr other ↦
        let ne = eq_bytes_ne key t.self.id other in
        elim (Option-cases (remove_first key (nodes_at t (get_bucket_index t key)))) [
          | inl e ↦
              inr (inl (lookup_other key t ne ∙ remove_first-none key _ e, remove_missing ne e))
          | inr e ↦
              let (w, f) = Removed-bucket e.0 ne v (remove_first-Removed key _ e.0 e.1) in
              inr (inr (rw (remove_found e.0 ne e.1) (ne, refl, w, f)))
        ]
  ]
    where
      remove_own : eq_bytes key t.self.id ≡ true → remove_node key t ≡ (err invalid_node, t)
      remove_own own = unfold remove_node in rw own

-- The calls that change a table.
pub data Step : RoutingTable → RoutingTable → Type 0 where
  insert : (node : NodeInfo) (t : RoutingTable) → Step t (insert_node node t)
  remove : (key : Bytes) (t : RoutingTable) → Step t (remove_node key t).1

pub data Reach (s : RoutingTable) : RoutingTable → Type 0 where
  here : Reach s s
  next : {t u : RoutingTable} → Reach s t → Step t u → Reach s u

Step-IsTable : {t u : RoutingTable} → Step t u → IsTable t → IsTable u
Step-IsTable (Step.insert node t) v = elim (Bool-cases (eq_bytes node.id t.self.id)) [
  | inl e ↦ rw (insert_node_self node t ((eq_bytes_iff node.id t.self.id).0 e)) v
  | inr e ↦ (insert_node_effect node t (eq_bytes_ne node.id t.self.id e) v).0
]
Step-IsTable (Step.remove key t) v = elim (remove_node_effect key t v) [
  | inl own ↦ rw own.1 v
  | inr other ↦ elim other [ inl missing ↦ rw missing.1 v | inr gone ↦ gone.2 ]
]

-- Every table that inserts and removals make from one in order is in order: each bucket holds at
-- most k nodes with different identifiers, each in the bucket where `Lookup` searches for it.
pub Reach-IsTable : {t u : RoutingTable} → IsTable t → Reach t u → IsTable u
Reach-IsTable v here = v
Reach-IsTable v (next r st) = Step-IsTable st (Reach-IsTable v r)
