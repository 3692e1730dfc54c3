-- ===== src/Dht/Closest/Nearest.antt =====
-- `ClosestK` returns the nearest of its candidates, nearest first.
use mini_ipfs.Prelude.{
  suc, ◌≡◌, refl, sym, ap, ◌∙◌, List, [], ◌∷◌, ◌++◌, map, arith, length, take, drop,
  take-append-drop, length-take, min, All, Bytes,
}
use mathlib.Core.Path.{subst}
use mathlib.Core.List.{Perm, map-append}
use mathlib.Core.List.Perm
use mini_ipfs.Dht.Types.{NodeInfo}
use mini_ipfs.Dht.Distance.{xor_distance}
use mini_ipfs.Dht.Distance.Metric.{Nearer, length-xor_distance}
use mini_ipfs.Dht.Routing.{RoutingTable}
use mini_ipfs.Dht.Closest.{
  NodeDistance, with_distance, node_of, candidates, closest_k, exchange_sort,
}
use mini_ipfs.Dht.Closest.Sort.{
  IsSorted, Uniform, exchange_sort-All, exchange_sort-perm, exchange_sort-IsSorted,
  length-exchange_sort,
}

-- Each node is at least as near to the key as those behind it.
abbrev pub InOrder : Bytes → List NodeInfo → Type 0
InOrder key [] = Unit
InOrder key (n ∷ ns) =
    All (λ m. Nearer (xor_distance key n.id) (xor_distance key m.id)) ns × InOrder key ns

module _ (key : Bytes) where
  abbrev Paired : NodeDistance → Type 0
  Paired e = e.distance ≡ xor_distance key e.node.id

  Nearer-nodes :
      (d : Bytes) (es : List NodeDistance)
      → All Paired es
      → All (λ f. Nearer d f.distance) es
      → All (λ (n : NodeInfo). Nearer d (xor_distance key n.id)) (map node_of es)
  Nearer-nodes d [] p a = tt
  Nearer-nodes d (e ∷ es) p a = (subst (Nearer d) p.0 a.0, Nearer-nodes d es p.1 a.1)

  InOrder-map :
      (es : List NodeDistance) → All Paired es → IsSorted es → InOrder key (map node_of es)
  InOrder-map [] p s = tt
  InOrder-map (e ∷ es) p s = (
    Nearer-nodes (xor_distance key e.node.id) es p.1
        (subst (λ d. All (λ f. Nearer d f.distance) es) p.0 s.0),
    InOrder-map es p.1 s.1,
  )

  Paired-map : (ns : List NodeInfo) → All Paired (map (with_distance key) ns)
  Paired-map [] = tt
  Paired-map (n ∷ ns) = (refl, Paired-map ns)

  node_of-with_distance : (ns : List NodeInfo) → map node_of (map (with_distance key) ns) ≡ ns
  node_of-with_distance [] = refl
  node_of-with_distance (n ∷ ns) = ap (◌∷◌ n) (node_of-with_distance ns)

  Uniform-map :
      (ns : List NodeInfo)
      → All (λ n. length n.id ≡ length key) ns
      → Uniform (length key) (map (with_distance key) ns)
  Uniform-map [] h = tt
  Uniform-map (n ∷ ns) h = (length-xor_distance key n.id (sym h.0), Uniform-map ns h.1)

length-map_nodes : (es : List NodeDistance) → length (map node_of es) ≡ length es
length-map_nodes [] = refl
length-map_nodes (e ∷ es) = ap suc (length-map_nodes es)

-- If the candidates have identifiers as long as the key, `ClosestK` returns k of them, or all if
-- there are fewer. They are in order of distance to the key, and each is at least as near as every
-- candidate that is left out. No candidate is lost or made up.
pub closest_k-InOrder :
    (key : Bytes) (t : RoutingTable)
    → All (λ n. length n.id ≡ length key) (candidates key t)
    → (rest : List NodeInfo) × Perm (closest_k key t ++ rest) (candidates key t)
      × InOrder key (closest_k key t ++ rest)
      × (length (closest_k key t) ≡ min t.k (length (candidates key t)))
unfolding closest_k
closest_k-InOrder key t h =
    let cs = candidates key t in
    let es = map (with_distance key) cs in
    let sorted = exchange_sort (length es) es in
    let whole : map node_of (take t.k sorted) ++ map node_of (drop t.k sorted)
        ≡ map node_of sorted =
      sym (map-append node_of (take t.k sorted) (drop t.k sorted))
      ∙ ap (map node_of) (take-append-drop t.k sorted) in
    (
      map node_of (drop t.k sorted),
      rw whole (
          subst (Perm (map node_of sorted)) (node_of-with_distance key cs)
            (Perm.map node_of (exchange_sort-perm (length es) es))),
      rw whole (
          InOrder-map key sorted (exchange_sort-All (Paired key) (length es) es (Paired-map key cs))
            (exchange_sort-IsSorted (length key) (length es) es (omega arith)
              (Uniform-map key cs h))),
      omega (
        arith,
        length-map_nodes (take t.k sorted),
        length-take t.k sorted,
        length-exchange_sort (length es) es,
        length-map_nodes es,
        ap length (node_of-with_distance key cs),
      ),
    )
