-- ===== src/Dht/Closest/Known.antt =====
-- `ClosestK` returns nodes of the table only.
use mini_ipfs.Prelude.{
  ℕ, zero, suc, ◌*◌, ◌≡◌, ◌≢◌, refl, sym, ap, ◌∙◌, inl, inr, ◌||◌, some, List, [], ◌∷◌, map, length,
  take, ltb, All, All-append, All-map, Bytes, Bool-cases, eq_bytes, eq_bytes_ne,
}
use mini_ipfs.Dht.Types.{NodeInfo}
use mini_ipfs.Dht.Routing.{RoutingTable, nodes_at, get_bucket_index, find, lookup}
use mini_ipfs.Dht.Routing.Bucket.{NodupIds, find_same, find_skip}
use mini_ipfs.Dht.Routing.Invariant.{IsTable}
use mini_ipfs.Dht.Routing.Place.{lookup_other, lookup_self}
use mini_ipfs.Dht.Closest.{
  Gathered, visited_has, is_nil, without, visit, gather, buckets_to_check, closest_k, NodeDistance,
  with_distance, node_of,
}
use mini_ipfs.Dht.Closest.Sort.{exchange_sort-All}

find_own : (nodes : List NodeInfo) → NodupIds nodes → All (λ n. find n.id nodes ≡ some n) nodes
find_own [] u = tt
find_own (n ∷ nodes) u = (
  find_same n.id n nodes refl,
  All-map (λ (m : NodeInfo). find m.id nodes ≡ some m) (λ m. find m.id (n ∷ nodes) ≡ some m)
      (λ m e.
        find_skip m.id n nodes (λ same. cc (u.0, ap (λ (id : Bytes). find id nodes) same)) ∙ e)
      nodes (find_own nodes u.1),
)

All-both :
    (P Q : NodeInfo → Type 0) (ns : List NodeInfo) → All P ns → All Q ns → All (λ n. P n × Q n) ns
All-both P Q [] p q = tt
All-both P Q (n ∷ ns) p q = ((p.0, q.0), All-both P Q ns p.1 q.1)

pub All-without :
    (P : NodeInfo → Type 0) (id : Bytes) (ns : List NodeInfo)
    → All (λ n. n.id ≢ id → P n) ns
    → All P (without id ns)
unfolding without
All-without P id [] h = tt
All-without P id (n ∷ ns) h = elim (Bool-cases (eq_bytes id n.id)) [
  | inl e ↦ rw e (All-without P id ns h.1)
  | inr e ↦ rw e (h.0 (λ same. eq_bytes_ne id n.id e (sym same)), All-without P id ns h.1)
]

pub All-take :
    (P : NodeDistance → Type 0) (k : ℕ) (es : List NodeDistance) → All P es → All P (take k es)
All-take P zero es a = tt
All-take P (suc k) [] a = tt
All-take P (suc k) (e ∷ es) a = (a.0, All-take P k es a.1)

pub All-nodes :
    (P : NodeInfo → Type 0) (es : List NodeDistance)
    → All (λ e. P e.node) es
    → All P (map node_of es)
All-nodes P [] a = tt
All-nodes P (e ∷ es) a = (a.0, All-nodes P es a.1)

pub All-elements :
    (P : NodeInfo → Type 0) (key : Bytes) (ns : List NodeInfo)
    → All P ns
    → All (λ e. P e.node) (map (with_distance key) ns)
All-elements P key [] a = tt
All-elements P key (n ∷ ns) a = (a.0, All-elements P key ns a.1)

module _ (t : RoutingTable) (v : IsTable t) where
  abbrev Known : NodeInfo → Type 0
  Known n = lookup n.id t ≡ some n

  bucket-Known : (i : ℕ) → All Known (without t.self.id (nodes_at t i))
  bucket-Known i = All-without Known t.self.id (nodes_at t i) (
      All-map
        (λ (n : NodeInfo). (get_bucket_index t n.id ≡ i) × (find n.id (nodes_at t i) ≡ some n))
        (λ n. n.id ≢ t.self.id → Known n)
        (λ n h ne. lookup_other n.id t ne ∙ ap (λ (j : ℕ). find n.id (nodes_at t j)) h.0 ∙ h.1)
        (nodes_at t i)
        (All-both _ _ (nodes_at t i) (v.placed i) (find_own (nodes_at t i) (v.nodup i))))

  visit-Known : (buckets : List ℕ) (g : Gathered) → All Known g.1 → All Known (visit t buckets g).1
  unfolding visit
  visit-Known [] g a = a
  visit-Known (i ∷ buckets) (visited, cs) a =
      visit-Known buckets _ (elim (Bool-cases (visited_has i visited || is_nil (t.buckets i))) [
        | inl e ↦ rw e a
        | inr e ↦ rw e (All-append Known cs _ a (bucket-Known i))
      ])

  gather-Known :
      (start rounds radius : ℕ) (g : Gathered)
      → All Known g.1
      → All Known (gather t start rounds radius g)
  unfolding gather
  gather-Known start zero radius g a = a
  gather-Known start (suc rounds) radius g a = elim (Bool-cases (ltb (length g.1) (t.k * 3))) [
    | inl e ↦
        rw e (
          gather-Known start rounds (suc radius) _
            (visit-Known (buckets_to_check start radius) g a))
    | inr e ↦ rw e a
  ]

  -- Of a table in order, every node that `ClosestK` returns is the one that `Lookup` finds under its
  -- identifier.
  pub closest_k_known : (key : Bytes) → All (λ n. lookup n.id t ≡ some n) (closest_k key t)
  unfolding closest_k
  closest_k_known key =
      let cs = gather-Known _ 129 0 ([], t.self ∷ []) (lookup_self t, tt) in
      All-nodes Known _ (
        All-take (λ e. Known e.node) t.k _
          (exchange_sort-All (λ e. Known e.node) _ _ (All-elements Known key _ cs)))
