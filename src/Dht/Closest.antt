-- ===== src/Dht/Closest.antt =====
-- `ClosestK` and its helpers, of internal/dht/routing.go: candidates from the buckets around the
-- key's own, in order of their distance to the key.
pub mod Sort
pub mod Nearest
pub mod Known
pub mod Blind
use Prim.Native.Nat.{◌-◌}
use mini_ipfs.Prelude.{
  ℕ, zero, suc, ◌+◌, ◌*◌, Bool, true, false, ◌||◌, Option, none, some, List, [], ◌∷◌, ◌++◌, map,
  ◌==◌, ltb, leb, length, take, eq_bytes, if◌then◌else◌, Bytes,
}
use mini_ipfs.Dht.Types.{NodeInfo}
use mini_ipfs.Dht.Distance.{xor_distance, distance_bucket, is_distance_smaller}
use mini_ipfs.Dht.Routing.{RoutingTable, nodes_at}

-- `bucketsToCheck` of a round.
pub buckets_to_check : (start radius : ℕ) → List ℕ
buckets_to_check start radius =
    if radius == 0
    then start ∷ []
    else (if ltb (start + radius) 256 then (start + radius) ∷ [] else [])
      ++ (if leb radius start then (start - radius) ∷ [] else [])

abbrev visited_has : ℕ → List ℕ → Bool
visited_has i [] = false
visited_has i (j ∷ visited) = i == j || visited_has i visited

abbrev is_nil : Option (List NodeInfo) → Bool
is_nil none = true
is_nil (some nodes) = false

-- The nodes of a bucket but the table's own.
pub without : Bytes → List NodeInfo → List NodeInfo
without id [] = []
without id (node ∷ nodes) =
    let rest = without id nodes in if eq_bytes id node.id then rest else node ∷ rest

-- The visited buckets and the candidates.
abbrev pub Gathered : Type 0
Gathered = List ℕ × List NodeInfo

-- The loop over the buckets of a round.
pub visit : RoutingTable → List ℕ → Gathered → Gathered
unfolding without nodes_at
visit t [] g = g
visit t (i ∷ buckets) (visited, candidates) = visit t buckets (
    if visited_has i visited || is_nil (t.buckets i)
    then (visited, candidates)
    else (i ∷ visited, candidates ++ without t.self.id (nodes_at t i)))

-- The loop over the radius, with the number of rounds that are left.
pub gather : RoutingTable → ℕ → (rounds radius : ℕ) → Gathered → List NodeInfo
unfolding visit buckets_to_check
gather t start zero radius g = g.1
gather t start (suc rounds) radius g =
    let more = gather t start rounds (suc radius) (visit t (buckets_to_check start radius) g) in
    if ltb (length g.1) (t.k * 3) then more else g.1

-- The candidates of `ClosestK`; the radius runs from 0 to 128.
unfoldable pub candidates : Bytes → RoutingTable → List NodeInfo
unfolding gather
candidates key t = gather t (distance_bucket (xor_distance t.self.id key)) 129 0 ([], t.self ∷ [])

pub record NodeDistance : Type 0 where
  pub node : NodeInfo
  pub distance : Bytes

abbrev pub with_distance : Bytes → NodeInfo → NodeDistance
with_distance key node = record { node = node; distance = xor_distance key node.id }

-- The inner loop of the sort: `current` is the element at `i`, and the list those at `j`, ….
pub sweep : NodeDistance → List NodeDistance → NodeDistance × List NodeDistance
sweep current [] = (current, [])
sweep current (other ∷ others) =
    let swap = is_distance_smaller other.distance current.distance in
    let (best, rest) = sweep (if swap then other else current) others in
    (best, (if swap then current else other) ∷ rest)

-- The outer loop, for as many rounds as there are elements.
pub exchange_sort : ℕ → List NodeDistance → List NodeDistance
unfolding sweep
exchange_sort (suc rounds) (current ∷ others) =
    let (best, rest) = sweep current others in best ∷ exchange_sort rounds rest
exchange_sort _ elements = elements

abbrev pub node_of : NodeDistance → NodeInfo
node_of e = e.node

-- `ClosestK`
unfoldable pub closest_k : Bytes → RoutingTable → List NodeInfo
unfolding candidates exchange_sort
closest_k key t =
    let elements = map (with_distance key) (candidates key t) in
    map node_of (take t.k (exchange_sort (length elements) elements))
