-- ===== src/Dht/Routing/Split.antt =====
-- `splitBucket` on the lowest bucket in use: where the nodes go, and that none is lost.
use Prim.Native.Nat.{◌-◌}
use mini_ipfs.Prelude.{
  ℕ, suc, ◌≤◌, ◌<◌, ◌≡◌, ◌≢◌, refl, sym, ap, ◌∙◌, inl, inr, Bool, true, not, some, List, [], ◌∷◌,
  ◌++◌, arith, ◌==◌, ==_iff, length, if◌then◌else◌, Bytes, eq_bytes, eq_bytes_iff, eq_bytes_ne,
  All-map, Bool-cases, All, ◌⊎◌,
}
use mathlib.Core.Path.{subst}
use native.Mathlib.Decide.{dec_lt}
use mini_ipfs.Dht.Types.{NodeInfo, IsKey}
use mini_ipfs.Dht.Routing.{
  RoutingTable, nodes_at, set_bucket, ensure_bucket, get_bucket_index, find, lookup, split_bucket,
  deepen, redistribute, selected,
}
use mini_ipfs.Dht.Routing.Bucket.{
  NodupIds, find-selected, length-selected, selected-NodupIds, selected-All,
}
use mini_ipfs.Dht.Routing.Invariant.{
  lowest, IsTable, nodes_at-set_bucket, nodes_at-ensure_bucket, get_bucket_index_bounds,
  get_bucket_index_self,
}
use mini_ipfs.Dht.Routing.Place.{lookup_other, lookup_self}

-- The table `u` after the lowest bucket of `t` was split.
pub record IsSplitOf (t u : RoutingTable) : Type 0 where
  pub same_self : u.self ≡ t.self
  pub same_k : u.k ≡ t.k
  pub deeper : u.depth ≡ suc t.depth
  pub kept :
      nodes_at u (lowest t)
      ≡ selected (λ id. not (get_bucket_index u id == lowest t - 1)) (nodes_at t (lowest t))
  pub moved :
      nodes_at u (lowest t - 1)
      ≡ selected (λ id. get_bucket_index u id == lowest t - 1) (nodes_at t (lowest t))
  pub others : (j : ℕ) → j ≢ lowest t → j ≢ lowest t - 1 → nodes_at u j ≡ nodes_at t j

-- Below the lowest bucket in use there is nothing.
pub empty_below : (t : RoutingTable) (j : ℕ) → IsTable t → j < lowest t → nodes_at t j ≡ []
empty_below t j v h = go (nodes_at t j) (v.placed j)
  where
    go : (nodes : List NodeInfo) → All (λ n. get_bucket_index t n.id ≡ j) nodes → nodes ≡ []
    go [] a = refl
    go (n ∷ nodes) a = absurd (omega (arith, get_bucket_index_bounds t n.id, a.0))

module _ (i new_i : ℕ) (t : RoutingTable) (apart : new_i ≢ i) where
  redistribute_at :
      (j : ℕ)
      → nodes_at (redistribute i new_i t) j ≡ (
          if j == i
          then selected (λ id. not (get_bucket_index t id == new_i)) (nodes_at t i)
          else if j == new_i
          then nodes_at t new_i ++ selected (λ id. get_bucket_index t id == new_i) (nodes_at t i)
          else nodes_at t j)
  unfolding redistribute
  redistribute_at j = rw (nodes_at-set_bucket, nodes_at-set_bucket)

ensure_shape :
    (i : ℕ) (t : RoutingTable)
    → ((ensure_bucket i t).self ≡ t.self)
      × ((ensure_bucket i t).k ≡ t.k)
      × ((ensure_bucket i t).depth ≡ t.depth)
unfolding ensure_bucket set_bucket
ensure_shape i t = ground arith

if_self : (i : ℕ) (x y : List NodeInfo) → (if i == i then x else y) ≡ x
if_self i x y = ground arith

if_ne : (i j : ℕ) (x y : List NodeInfo) → i ≢ j → (if i == j then x else y) ≡ y
if_ne i j x y ne = ground arith

abbrev goes_down : RoutingTable → ℕ → Bytes → Bool
goes_down t new_i id = get_bucket_index t id == new_i

abbrev deeper_table : RoutingTable → RoutingTable
deeper_table t = record t { depth = suc t.depth }

deepen_low : (t : RoutingTable) → t.depth < 255 → deepen (255 - lowest t) t ≡ deeper_table t
unfolding deepen
deepen_low t h = ground arith

split_low :
    (t : RoutingTable)
    → t.depth < 255
    → split_bucket (lowest t) t
      ≡ redistribute (lowest t) (lowest t - 1) (ensure_bucket (lowest t - 1) (deeper_table t))
unfolding split_bucket
split_low t h = ground (
  arith,
  ap (λ (u : RoutingTable). redistribute (lowest t) (lowest t - 1) (ensure_bucket (lowest t - 1) u))
      (deepen_low t h),
)

nodes_at-deeper :
    (t : RoutingTable) (i j : ℕ) → nodes_at (ensure_bucket i (deeper_table t)) j ≡ nodes_at t j
unfolding nodes_at
nodes_at-deeper t i j = nodes_at-ensure_bucket i j (deeper_table t)

pub split_bucket-IsSplitOf :
    (t : RoutingTable) → IsTable t → t.depth < 255 → IsSplitOf t (split_bucket (lowest t) t)
unfolding redistribute set_bucket get_bucket_index
split_bucket-IsSplitOf t v h =
    let low = lowest t in
    let mid = ensure_bucket (low - 1) (deeper_table t) in
    let shape = ensure_shape (low - 1) (deeper_table t) in
    let apart : low - 1 ≢ low = omega arith in
    let at = redistribute_at low (low - 1) mid apart in
    rw (split_low t h) (record {
      same_self = shape.0;
      same_k = shape.1;
      deeper = shape.2;
      kept =
          at low
          ∙ if_self low _ _
          ∙ ap (selected (λ id. not (get_bucket_index mid id == low - 1)))
              (nodes_at-deeper t (low - 1) low);
      moved =
          at (low - 1)
          ∙ if_ne (low - 1) low _ _ apart
          ∙ if_self (low - 1) _ _
          ∙ ap (λ (xs : List NodeInfo). xs ++ selected (goes_down mid (low - 1)) (nodes_at mid low))
              (nodes_at-deeper t (low - 1) (low - 1) ∙ empty_below t (low - 1) v (omega arith))
          ∙ ap (selected (goes_down mid (low - 1))) (nodes_at-deeper t (low - 1) low);
      others = λ j ne ne'.
          at j ∙ if_ne j low _ _ ne ∙ if_ne j (low - 1) _ _ ne' ∙ nodes_at-deeper t (low - 1) j;
    })

module _ (t u : RoutingTable) (v : IsTable t) (room : t.depth < 255) (s : IsSplitOf t u) where
  index_above :
      (id : Bytes)
      → get_bucket_index t id ≢ lowest t
      → get_bucket_index u id ≡ get_bucket_index t id
  unfolding get_bucket_index
  index_above id h = rw (s.same_self, s.deeper) (ground arith)

  index_lowest :
      (id : Bytes)
      → get_bucket_index t id ≡ lowest t
      → (get_bucket_index u id ≡ lowest t) ⊎ (get_bucket_index u id ≡ lowest t - 1)
  unfolding get_bucket_index
  index_lowest id h = rw (s.same_self, s.deeper) (ground arith)

  find-split :
      (key : Bytes)
      → find key (nodes_at u (get_bucket_index u key))
        ≡ find key (nodes_at t (get_bucket_index t key))
  find-split key = elim (Bool-cases (get_bucket_index t key == lowest t)) [
    | inr e ↦
        let above : get_bucket_index t key ≢ lowest t = λ p. cc ((==_iff _ _).1 p) in
        rw (
          index_above key above,
          s.others (get_bucket_index t key) above (omega (arith, get_bucket_index_bounds t key)),
        )
    | inl e ↦
        let at = (==_iff _ _).0 e in
        elim (index_lowest key at) [
          | inl stays ↦ rw (stays, at, s.kept, find-selected) (ground arith)
          | inr falls ↦ rw (falls, at, s.moved, find-selected) (ground arith)
        ]
  ]

  -- Splitting loses no node and moves none out of reach of `Lookup`.
  pub lookup-split : (key : Bytes) → lookup key u ≡ lookup key t
  lookup-split key = elim (Bool-cases (eq_bytes key t.self.id)) [
    | inl e ↦
        let own = (eq_bytes_iff key t.self.id).0 e in
        rw (own) (rw (← s.same_self) (lookup_self u) ∙ sym (lookup_self t))
    | inr e ↦
        let ne = eq_bytes_ne key t.self.id e in
        lookup_other key u (rw s.same_self ne) ∙ find-split key ∙ sym (lookup_other key t ne)
  ]

  -- What holds of the two halves and of the other buckets holds of every bucket.
  each_bucket :
      (P : ℕ → List NodeInfo → Type 0)
      → P (lowest t) (nodes_at u (lowest t))
      → P (lowest t - 1) (nodes_at u (lowest t - 1))
      → ((j : ℕ) → j ≢ lowest t → j ≢ lowest t - 1 → P j (nodes_at t j))
      → (j : ℕ) → P j (nodes_at u j)
  each_bucket P at_low below other j = elim (Bool-cases (j == lowest t)) [
    | inl e ↦ rw ((==_iff _ _).0 e) at_low
    | inr e ↦ elim (Bool-cases (j == lowest t - 1)) [
      | inl f ↦ rw ((==_iff _ _).0 f) below
      | inr f ↦
          let ne : j ≢ lowest t = λ p. cc ((==_iff _ _).1 p) in
          let ne' : j ≢ lowest t - 1 = λ p. cc ((==_iff _ _).1 p) in
          rw (s.others j ne ne') (other j ne ne')
    ]
  ]

  stays_at :
      (id : Bytes)
      → not (get_bucket_index u id == lowest t - 1) ≡ true
      → get_bucket_index t id ≡ lowest t
      → get_bucket_index u id ≡ lowest t
  stays_at id h at = elim (index_lowest id at) [ inl e ↦ e | inr e ↦ absurd (ground arith) ]

  falls_to :
      (id : Bytes)
      → (get_bucket_index u id == lowest t - 1) ≡ true
      → get_bucket_index t id ≡ lowest t
      → get_bucket_index u id ≡ lowest t - 1
  falls_to id h at = (==_iff _ _).0 h

  split_placed : (j : ℕ) → All (λ n. get_bucket_index u n.id ≡ j) (nodes_at u j)
  split_placed =
      each_bucket (λ j nodes. All (λ n. get_bucket_index u n.id ≡ j) nodes)
        (rw s.kept (
          selected-All _ (λ id. get_bucket_index t id ≡ lowest t)
            (λ id. get_bucket_index u id ≡ lowest t) _ stays_at (v.placed (lowest t))))
        (rw s.moved (
          selected-All _ (λ id. get_bucket_index t id ≡ lowest t)
            (λ id. get_bucket_index u id ≡ lowest t - 1) _ falls_to (v.placed (lowest t))))
        (λ j ne _.
          All-map (λ (n : NodeInfo). get_bucket_index t n.id ≡ j) (λ n. get_bucket_index u n.id ≡ j)
            (λ n at. index_above n.id (λ p. ne (sym at ∙ p)) ∙ at) _ (v.placed j))

  split_own : find u.self.id (nodes_at u (lowest u)) ≡ some u.self
  split_own =
      let key : IsKey u.self.id = rw s.same_self v.key in
      let here : find t.self.id (nodes_at u (get_bucket_index u t.self.id)) ≡ some t.self =
        find-split t.self.id ∙ rw (get_bucket_index_self t v.key) v.local in
      sym (ap (λ (j : ℕ). find u.self.id (nodes_at u j)) (get_bucket_index_self u key))
      ∙ subst (λ (n : NodeInfo). find n.id (nodes_at u (get_bucket_index u n.id)) ≡ some n)
          (sym s.same_self) here

  pub split-IsTable : IsTable u
  split-IsTable = record {
    depth_low = omega (arith, s.deeper);
    capacity = rw s.same_k v.capacity;
    key = rw s.same_self v.key;
    placed = split_placed;
    bounded =
        each_bucket (λ j nodes. length nodes ≤ u.k)
          (rw s.kept (
            omega (
              arith,
              s.same_k,
              length-selected (λ id. not (get_bucket_index u id == lowest t - 1))
                  (nodes_at t (lowest t)),
              v.bounded (lowest t),
            )))
          (rw s.moved (
            omega (
              arith,
              s.same_k,
              length-selected (λ id. get_bucket_index u id == lowest t - 1) (nodes_at t (lowest t)),
              v.bounded (lowest t),
            )))
          (λ j _ _. omega (arith, s.same_k, v.bounded j));
    nodup =
        each_bucket (λ j nodes. NodupIds nodes)
          (rw s.kept (selected-NodupIds _ _ (v.nodup (lowest t))))
          (rw s.moved (selected-NodupIds _ _ (v.nodup (lowest t)))) (λ j _ _. v.nodup j);
    local = split_own;
  }

split_full : (t : RoutingTable) → ¬ (t.depth < 255) → split_bucket (lowest t) t ≡ t
unfolding split_bucket
split_full t h = ground arith

-- `splitBucket` keeps the table in order, and `Lookup` sees nothing of it.
pub split_effect :
    (t : RoutingTable)
    → IsTable t
    → let u = split_bucket (lowest t) t in
      IsTable u × (u.self ≡ t.self) × ((key : Bytes) → lookup key u ≡ lookup key t)
split_effect t v = elim (dec_lt t.depth 255) [
  | yes room ↦
      let s = split_bucket-IsSplitOf t v room in
      (split-IsTable t _ v room s, s.same_self, lookup-split t _ v room s)
  | no full ↦ rw (split_full t full) (v, refl, λ key. refl)
]
