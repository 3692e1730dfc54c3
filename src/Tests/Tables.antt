-- ===== src/Tests/Tables.antt =====
-- Tables made from a node of its own, with another node inserted.
use Prim.Native.Nat.{min}
use mini_ipfs.Prelude.{
  ◌+◌, ◌≤◌, ◌⊎◌, All, ℕ, ◌≡◌, ◌≢◌, ◌<◌, ◌⊎◌, refl, ap, none, some, List, [], ◌∷◌, ◌++◌, replicate,
  length, All, ok, pos, Bytes, arith, ◌==◌, if◌then◌else◌,
}
use mathlib.Core.List.{Perm}
use mini_ipfs.Dht.Types.{NodeInfo, IsKey}
use mini_ipfs.Dht.Distance.{distance_bucket, xor_distance}
use mini_ipfs.Dht.Routing.{
  get_bucket_index, RoutingTable, new_routing_table, set_bucket, insert_node, lookup,
}
use mini_ipfs.Dht.Routing.Invariant.{IsTable, new_routing_table-IsTable}
use mini_ipfs.Dht.Routing.Insert.{Stored, Dropped, insert_node_effect}
use mini_ipfs.Dht.Routing.Remove.{Step, Reach, Reach-IsTable}
use mini_ipfs.Dht.Closest.{closest_k, candidates}
use mini_ipfs.Dht.Closest.Nearest.{InOrder, closest_k-InOrder}
use mini_ipfs.Dht.Closest.Known.{closest_k_known}
use mini_ipfs.Dht.Closest.Blind.{closest_k_blind}
use mini_ipfs.Tests.{replicate-IsBytes}

abbrev node_of : ℕ → NodeInfo
node_of b = record { id = b ∷ replicate {A = ℕ} 31 0; addr = []; http = [] }

node_of-IsKey : (b : ℕ) → b < 256 → IsKey (node_of b).id
node_of-IsKey b h = record { bytes = (h, replicate-IsBytes 31 0 (omega arith)); size = refl }

abbrev pub start : RoutingTable
start = record {
  self = node_of 1;
  k = 2;
  buckets = λ j. if j == 255 then some (node_of 1 ∷ []) else none;
  depth = 0;
}

created : new_routing_table (some (node_of 1)) (pos 2) ≡ ok start
unfolding new_routing_table set_bucket
created = refl

pub start-IsTable : IsTable start
start-IsTable =
    new_routing_table-IsTable (node_of 1) 2 start (node_of-IsKey 1 (omega arith)) created

abbrev other-ne : (node_of 2).id ≢ (node_of 1).id
other-ne e = absurd (omega (arith, ap first e))
  where
    first : Bytes → ℕ
    first [] = 0
    first (b ∷ bytes) = b

abbrev two_nodes : RoutingTable
two_nodes = insert_node (node_of 2) start

two_nodes-IsTable : IsTable two_nodes
two_nodes-IsTable = (insert_node_effect (node_of 2) start other-ne start-IsTable).0

insert_node_effect_example :
    IsTable two_nodes × (Stored (node_of 2) start two_nodes ⊎ Dropped (node_of 2) start two_nodes)
insert_node_effect_example = insert_node_effect (node_of 2) start other-ne start-IsTable

Reach-IsTable_example : IsTable two_nodes
Reach-IsTable_example =
    Reach-IsTable start-IsTable (Reach.next Reach.here (Step.insert (node_of 2) start))

closest_k_known_example :
    All (λ n. lookup n.id two_nodes ≡ some n) (closest_k (node_of 3).id two_nodes)
closest_k_known_example = closest_k_known two_nodes two_nodes-IsTable (node_of 3).id

closest_k-InOrder_example :
    (rest : List NodeInfo) × Perm
      (closest_k (node_of 3).id start ++ rest)
      (candidates (node_of 3).id start)
    × InOrder (node_of 3).id (closest_k (node_of 3).id start ++ rest)
    × (length (closest_k (node_of 3).id start) ≡ min 2 (length (candidates (node_of 3).id start)))
unfolding candidates distance_bucket xor_distance
closest_k-InOrder_example = closest_k-InOrder (node_of 3).id start (refl, tt)

-- A key far below the buckets in use.
abbrev near_key : Bytes
near_key = 1 ∷ replicate {A = ℕ} 30 0 ++ (7 ∷ [])

closest_k_blind_example :
    All
      (λ n.
        (n ≡ two_nodes.self)
        ⊎ ((get_bucket_index two_nodes n.id
              ≤ distance_bucket (xor_distance two_nodes.self.id near_key) + 128)
            × (distance_bucket (xor_distance two_nodes.self.id near_key)
                ≤ get_bucket_index two_nodes n.id + 128)))
      (closest_k near_key two_nodes)
closest_k_blind_example = closest_k_blind two_nodes two_nodes-IsTable near_key
