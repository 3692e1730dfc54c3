-- ===== src/Dht/Routing.antt =====
-- internal/dht/routing.go: the table of known peers. `buckets[i]` is `buckets i`, nil as `none`; the
-- table never leaves the indices below 256, as Routing/Invariant shows. The lock makes each method one step.
pub mod Bucket
pub mod Invariant
pub mod Place
pub mod Split
pub mod Insert
pub mod Remove
use Prim.Native.Nat.{◌-◌}
use mini_ipfs.Prelude.{
  ℕ, zero, suc, ◌+◌, Bool, true, false, not, ◌&&◌, ◌||◌, Option, none, some, List, [], ◌∷◌, ◌++◌,
  ◌==◌, ltb, leb, length, eq_bytes, if◌then◌else◌, Bytes, Result, ok, err, ℤ, pos, negsuc,
}
use mini_ipfs.Dht.Types.{NodeInfo, key_bytes, TableError, invalid_node, not_found, k_not_positive}
use mini_ipfs.Dht.Distance.{xor_distance, distance_bucket}

abbrev pub Buckets : Type 0
Buckets = ℕ → Option (List NodeInfo)

pub record RoutingTable : Type 0 where
  pub self : NodeInfo
  pub k : ℕ
  pub buckets : Buckets
  pub depth : ℕ

-- `rt.buckets[i]`, and the nodes in it: none for nil.
abbrev pub nodes_of : Option (List NodeInfo) → List NodeInfo
nodes_of none = []
nodes_of (some nodes) = nodes

unfoldable pub nodes_at : RoutingTable → ℕ → List NodeInfo
nodes_at t i = nodes_of (t.buckets i)

unfoldable pub set_bucket : ℕ → List NodeInfo → RoutingTable → RoutingTable
set_bucket i nodes t = record t { buckets = λ j. if j == i then some nodes else t.buckets j }

-- `NewRoutingTable`, where nil is `none`.
unfoldable pub new_routing_table : Option NodeInfo → ℤ → Result TableError RoutingTable
unfolding set_bucket
new_routing_table none k = err invalid_node
new_routing_table (some node) (negsuc _) =
    if length node.id == key_bytes then err k_not_positive else err invalid_node
new_routing_table (some node) (pos k) =
    if length node.id == key_bytes
    then (if ltb 0 k
        then ok (
            set_bucket 255 (node ∷ [])
              (record { self = node; k = k; buckets = λ _. none; depth = 0 }))
        else err k_not_positive)
    else err invalid_node

pub ensure_bucket : ℕ → RoutingTable → RoutingTable
unfolding set_bucket
ensure_bucket i t = elim (t.buckets i) [ none ↦ set_bucket i [] t | some _ ↦ t ]

-- The bucket of a distance while the buckets from `255 - depth` on are in use.
abbrev pub active_bucket : ℕ → ℕ → ℕ
active_bucket depth standard =
    if leb (255 - depth) standard && leb standard 255
    then standard
    else if ltb 255 standard
    then 255
    else 255 - depth

unfoldable pub get_bucket_index : RoutingTable → Bytes → ℕ
get_bucket_index t id = active_bucket t.depth (distance_bucket (xor_distance t.self.id id))

-- The loop that updates an existing node, if there is one.
pub replace_node : NodeInfo → List NodeInfo → Option (List NodeInfo)
replace_node node [] = none
replace_node node (existing ∷ nodes) =
    let rest : Option (List NodeInfo) = elim (replace_node node nodes) [
      | none ↦ none
      | some updated ↦ some (existing ∷ updated)
    ] in
    if eq_bytes existing.id node.id then some (node ∷ nodes) else rest

-- What `InsertNode` and `insertNodeInternal` try first: update the node, or add it if there is
-- space. `none` means that the bucket is full.
pub place : NodeInfo → ℕ → RoutingTable → Option RoutingTable
unfolding replace_node nodes_at set_bucket
place node i t = elim (replace_node node (nodes_at t i)) [
  | some nodes ↦ some (set_bucket i nodes t)
  | none ↦
      if ltb (length (nodes_at t i)) t.k
      then some (set_bucket i (nodes_at t i ++ node ∷ []) t)
      else none
]

-- `insertNodeInternal`
pub insert_node_internal : NodeInfo → RoutingTable → RoutingTable
insert_node_internal node t =
    let i = get_bucket_index t node.id in
    let t' = ensure_bucket i t in elim (place node i t') [ some placed ↦ placed | none ↦ t' ]

-- The nodes that pass a test on their identifier, in order.
pub selected : (Bytes → Bool) → List NodeInfo → List NodeInfo
selected test [] = []
selected test (node ∷ nodes) =
    let rest = selected test nodes in if test node.id then node ∷ rest else rest

-- `if currentDepth >= rt.depth { rt.depth = currentDepth + 1 }`
pub deepen : ℕ → RoutingTable → RoutingTable
deepen current_depth t = record t {
  depth = if leb t.depth current_depth then current_depth + 1 else t.depth;
}

-- The loop of `splitBucket`: the nodes of bucket `i` that belong in bucket `new_i` move there.
pub redistribute : (i new_i : ℕ) → RoutingTable → RoutingTable
redistribute i new_i t =
    let goes_down = λ (id : Bytes). get_bucket_index t id == new_i in
    set_bucket i (selected (λ id. not (goes_down id)) (nodes_at t i))
      (set_bucket new_i (nodes_at t new_i ++ selected goes_down (nodes_at t i)) t)

-- `splitBucket`
pub split_bucket : ℕ → RoutingTable → RoutingTable
split_bucket i t =
    let current_depth = 255 - i in
    if leb 255 current_depth
    then t
    else redistribute i (i - 1) (ensure_bucket (i - 1) (deepen current_depth t))

-- Some node of the bucket has the identifier.
unfoldable pub contains_id : Bytes → List NodeInfo → Bool
contains_id id [] = false
contains_id id (node ∷ nodes) = eq_bytes node.id id || contains_id id nodes

-- `InsertNode`
unfoldable pub insert_node : NodeInfo → RoutingTable → RoutingTable
insert_node node t =
    let i = get_bucket_index t node.id in
    let t' = ensure_bucket i t in
    if eq_bytes node.id t.self.id then t else elim (place node i t') [
      | some placed ↦ placed
      | none ↦
          if contains_id t.self.id (nodes_at t' i)
          then insert_node_internal node (split_bucket i t')
          else t'
    ]

-- The loop of `RemoveNode`.
pub remove_first : Bytes → List NodeInfo → Option (List NodeInfo)
remove_first key [] = none
remove_first key (node ∷ nodes) =
    let rest : Option (List NodeInfo) = elim (remove_first key nodes) [
      | none ↦ none
      | some left ↦ some (node ∷ left)
    ] in
    if eq_bytes node.id key then some nodes else rest

-- `RemoveNode`
unfoldable pub remove_node : Bytes → RoutingTable → Result TableError (Unit {0}) × RoutingTable
unfolding remove_first nodes_at set_bucket
remove_node key t =
    let i = get_bucket_index t key in
    if eq_bytes key t.self.id
    then (err invalid_node, t)
    else elim (remove_first key (nodes_at t i)) [
      | none ↦ (err not_found, t)
      | some left ↦ (ok tt, set_bucket i left t)
    ]

-- The loop of `Lookup`.
unfoldable pub find : Bytes → List NodeInfo → Option NodeInfo
find key [] = none
find key (node ∷ nodes) = if eq_bytes key node.id then some node else find key nodes

-- `Lookup`
unfoldable pub lookup : Bytes → RoutingTable → Option NodeInfo
unfolding find nodes_at
lookup key t =
    if eq_bytes t.self.id key then some t.self else find key (nodes_at t (get_bucket_index t key))

-- `GetNodes`
unfoldable pub get_nodes : ℤ → RoutingTable → List NodeInfo
unfolding nodes_at
get_nodes (negsuc _) t = []
get_nodes (pos i) t = if leb 256 i then [] else nodes_at t i

-- `Buckets`: how many of the first `n` buckets hold nodes; the method counts all 256.
pub count_buckets : ℕ → RoutingTable → ℕ
unfolding nodes_at
count_buckets zero t = 0
count_buckets (suc n) t = (if ltb 0 (length (nodes_at t n)) then 1 else 0) + count_buckets n t

unfoldable pub bucket_count : RoutingTable → ℕ
unfolding count_buckets
bucket_count t = count_buckets 256 t
