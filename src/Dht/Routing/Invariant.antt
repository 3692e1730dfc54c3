-- ===== src/Dht/Routing/Invariant.antt =====
-- What holds of every table: each node stands in the one bucket where `Lookup` searches for it, no
-- bucket is over-full, and the table's own node stands in the lowest bucket in use.
use Prim.Native.Nat.{◌-◌}
use mini_ipfs.Prelude.{
  ℕ, ◌≤◌, ◌<◌, ◌≡◌, refl, ap, inl, inr, none, some, List, [], ◌∷◌, arith, ◌==◌, ==_iff, length,
  if◌then◌else◌, Bytes, Bool-cases, All, ok, pos, ◌⊎◌, ltb, ltb→lt,
}
use mathlib.Core.Path.{subst}
use mini_ipfs.Dht.Types.{NodeInfo, IsKey}
use mini_ipfs.Dht.Distance.Metric.{distance_bucket_self}
use mini_ipfs.Dht.Routing.{
  RoutingTable, nodes_at, set_bucket, ensure_bucket, new_routing_table, get_bucket_index, find,
}
use mini_ipfs.Dht.Routing.Bucket.{NodupIds, find_same, find-empty}

abbrev pub lowest : RoutingTable → ℕ
lowest t = 255 - t.depth

pub record IsTable (t : RoutingTable) : Type 0 where
  pub depth_low : t.depth ≤ 255
  pub capacity : 0 < t.k
  pub key : IsKey t.self.id
  pub placed : (i : ℕ) → All (λ n. get_bucket_index t n.id ≡ i) (nodes_at t i)
  pub bounded : (i : ℕ) → length (nodes_at t i) ≤ t.k
  pub nodup : (i : ℕ) → NodupIds (nodes_at t i)
  pub local : find t.self.id (nodes_at t (lowest t)) ≡ some t.self

pub nodes_at-set_bucket :
    (i j : ℕ) (nodes : List NodeInfo) (t : RoutingTable)
    → nodes_at (set_bucket i nodes t) j ≡ (if j == i then nodes else nodes_at t j)
unfolding nodes_at set_bucket
nodes_at-set_bucket i j nodes t = ground arith

pub get_bucket_index-set_bucket :
    (i : ℕ) (nodes : List NodeInfo) (t : RoutingTable) (id : Bytes)
    → get_bucket_index (set_bucket i nodes t) id ≡ get_bucket_index t id
unfolding get_bucket_index set_bucket
get_bucket_index-set_bucket i nodes t id = refl

-- Any statement about a table that sees its buckets through `nodes_at` only.
pub nodes_at-ensure_bucket :
    (i j : ℕ) (t : RoutingTable) → nodes_at (ensure_bucket i t) j ≡ nodes_at t j
unfolding nodes_at ensure_bucket
nodes_at-ensure_bucket i j t = ground arith

-- The index is one of the buckets in use.
pub get_bucket_index_bounds :
    (t : RoutingTable) (id : Bytes)
    → (255 - t.depth ≤ get_bucket_index t id) × (get_bucket_index t id < 256)
unfolding get_bucket_index
get_bucket_index_bounds t id = ground arith

-- The table's own key belongs in the lowest bucket in use.
pub get_bucket_index_self :
    (t : RoutingTable) → IsKey t.self.id → get_bucket_index t t.self.id ≡ lowest t
unfolding get_bucket_index
get_bucket_index_self t v = rw (distance_bucket_self t.self.id v.bytes) (ground arith)

-- Giving a bucket new content.
pub set_bucket-IsTable :
    (i : ℕ) (nodes : List NodeInfo) (t : RoutingTable)
    → All (λ n. get_bucket_index t n.id ≡ i) nodes
    → length nodes ≤ t.k
    → NodupIds nodes
    → (lowest t ≡ i → find t.self.id nodes ≡ some t.self)
    → IsTable t
    → IsTable (set_bucket i nodes t)
unfolding set_bucket nodes_at get_bucket_index
set_bucket-IsTable i nodes t here fits u own v = record {
  depth_low = v.depth_low;
  capacity = v.capacity;
  key = v.key;
  placed = λ j. elim (Bool-cases (j == i)) [
    | inl e ↦ rw ((==_iff _ _).0 e, (==_iff i i).1 refl) here
    | inr e ↦ rw e (v.placed j)
  ];
  bounded = λ j. elim (Bool-cases (j == i)) [ inl e ↦ rw e fits | inr e ↦ rw e (v.bounded j) ];
  nodup = λ j. elim (Bool-cases (j == i)) [ inl e ↦ rw e u | inr e ↦ rw e (v.nodup j) ];
  local = elim (Bool-cases (lowest t == i)) [
    | inl e ↦ rw e (own ((==_iff _ _).0 e))
    | inr e ↦ rw e v.local
  ];
}

pub ensure_bucket_cases :
    (i : ℕ) (t : RoutingTable)
    → (ensure_bucket i t ≡ t) ⊎ ((nodes_at t i ≡ []) × (ensure_bucket i t ≡ set_bucket i [] t))
unfolding ensure_bucket nodes_at
ensure_bucket_cases i t = ground arith

pub ensure_bucket-IsTable : (i : ℕ) (t : RoutingTable) → IsTable t → IsTable (ensure_bucket i t)
ensure_bucket-IsTable i t v = elim (ensure_bucket_cases i t) [
  | inl e ↦ rw e v
  | inr e ↦ rw e.1 (
      set_bucket-IsTable i [] t tt (omega arith) tt
        (λ low. cc (v.local, e.0, ap (λ (j : ℕ). find t.self.id (nodes_at t j)) low)) v)
]

initial-IsTable :
    (node : NodeInfo) (k : ℕ)
    → IsKey node.id
    → 0 < k
    → IsTable
        (set_bucket 255 (node ∷ []) (record { self = node; k = k; buckets = λ _. none; depth = 0 }))
unfolding set_bucket nodes_at
initial-IsTable node k v h = record {
  depth_low = omega arith;
  capacity = h;
  key = v;
  placed = λ j. elim (Bool-cases (j == 255)) [
    | inl e ↦ rw ((==_iff _ _).0 e) (omega (arith, get_bucket_index_bounds _ node.id), tt)
    | inr e ↦ rw e tt
  ];
  bounded = λ j. elim (Bool-cases (j == 255)) [ inl e ↦ rw e h | inr e ↦ rw e (omega arith) ];
  nodup =
      λ j. elim (Bool-cases (j == 255)) [ inl e ↦ rw e (find-empty node.id, tt) | inr e ↦ rw e tt ];
  local = find_same node.id node [] refl;
}

-- A new table holds its own node and nothing else.
pub new_routing_table-IsTable :
    (node : NodeInfo) (k : ℕ) (t : RoutingTable)
    → IsKey node.id
    → new_routing_table (some node) (pos k) ≡ ok t
    → IsTable t
unfolding new_routing_table
new_routing_table-IsTable node k t v e = elim (Bool-cases (ltb 0 k)) [
  | inl positive ↦
      let made = initial-IsTable node k v (ltb→lt 0 k positive) in subst IsTable (ground arith) made
  | inr zero_k ↦ absurd (ground (arith, v.size))
]
