-- ===== src/Dht/FindNode/Laws.antt =====
-- What `FindNode` leaves behind and returns.
use mini_ipfs.Prelude.{
  ℕ, zero, suc, ◌≡◌, ◌≤◌, ◌<◌, ◌⊎◌, refl, ap, false, length, All, List, [], ◌∷◌, take, ltb,
  eq_bytes_refl, Bytes, ok, arith,
}
use mathlib.Core.Path.{subst}
use mini_ipfs.Dht.Types.{NodeInfo}
use mini_ipfs.Dht.Routing.{RoutingTable, insert_node}
use mini_ipfs.Dht.Routing.Invariant.{IsTable}
use mini_ipfs.Dht.Closest.{closest_k}
use mini_ipfs.Dht.Closest.Blind.{closest_k_self}
use mini_ipfs.Dht.Providers.Search.{cut}
use mini_ipfs.Dht.Rpc.Laws.{insert-IsTable}
use mini_ipfs.Dht.FindNode.{select_nodes, insert_all, find_rounds, find_node}
use mini_ipfs.Dht.FindNode.Select.{
  with_asked, IsSpent, AllFresh, Among, Selection, select_nodes-Selection,
}

insert_all-IsTable :
    (nodes : List NodeInfo) (t : RoutingTable) → IsTable t → IsTable (insert_all nodes t)
unfolding insert_all
insert_all-IsTable [] t v = v
insert_all-IsTable (node ∷ nodes) t v =
    insert_all-IsTable nodes (insert_node node t) (insert-IsTable node t v)

module _ (alpha : ℕ) (answers : ℕ → List NodeInfo → List NodeInfo) (target : Bytes) where
  -- A search, by the number of rounds that it may still take, the nodes asked so far, and the table
  -- before and after. It ends when no round is left, or when every candidate was asked or is the
  -- node itself (or no node may be asked at once). Else it asks between 1 and `alpha` candidates that
  -- may be asked, and puts all that they answer into the table.
  pub data Search : ℕ → List Bytes → RoutingTable → RoutingTable → Type 0 where
    out_of_rounds : (contacted : List Bytes) (t : RoutingTable) → Search zero contacted t t
    all_asked :
        (rounds : ℕ) (contacted : List Bytes) (t : RoutingTable)
        → (alpha ≡ 0) ⊎ All (IsSpent t.self.id contacted) (closest_k target t)
        → Search rounds contacted t t
    round :
        (rounds : ℕ) (contacted : List Bytes) (asked : List NodeInfo) (t after : RoutingTable)
        → 1 ≤ length asked
        → length asked ≤ alpha
        → Among asked (closest_k target t)
        → AllFresh t.self.id contacted asked
        → Search rounds (with_asked asked contacted) (insert_all (answers rounds asked) t) after
        → Search (suc rounds) contacted t after

  -- The table stays in order, the candidates are those of the last table, and a search leads to it.
  abbrev Found : ℕ → List Bytes → RoutingTable → RoutingTable × List NodeInfo → Type 0
  Found rounds contacted t r =
      IsTable r.0 × (r.1 ≡ closest_k target r.0) × Search rounds contacted t r.0

  find_rounds-Found :
      (rounds : ℕ) (contacted : List Bytes) (candidates : List NodeInfo) (t : RoutingTable)
      → IsTable t
      → candidates ≡ closest_k target t
      → Found rounds contacted t (find_rounds alpha answers target rounds contacted candidates t)
  unfolding find_rounds
  find_rounds-Found zero contacted candidates t v e = (v, e, Search.out_of_rounds contacted t)
  find_rounds-Found (suc rounds) contacted candidates t v e =
      let r = select_nodes t.self.id alpha contacted candidates in
      let t' = insert_all (answers rounds r.0) t in
      step r.0 r.1 _ (select_nodes-Selection t.self.id alpha contacted candidates)
        (λ v'. find_rounds-Found rounds r.1 (closest_k target t') t' v' refl)
    where
      step :
          (asked : List NodeInfo) (contacted' : List Bytes) (more : RoutingTable × List NodeInfo)
          → Selection t.self.id alpha contacted candidates (asked, contacted')
          → (IsTable (insert_all (answers rounds asked) t)
              → Found rounds contacted' (insert_all (answers rounds asked) t) more)
          → Found (suc rounds) contacted t (elim asked [ [] ↦ (t, candidates) | _ ∷ _ ↦ more ])
      step [] contacted' more s h = (
        v,
        e,
        Search.all_asked (suc rounds) contacted t (
            subst (λ (cs : List NodeInfo). (alpha ≡ 0) ⊎ All (IsSpent t.self.id contacted) cs) e
              (s.none_left refl)),
      )
      step (n ∷ asked) contacted' more s h =
          let (w, f, search) = h (insert_all-IsTable (answers rounds (n ∷ asked)) t v) in
          (
            w,
            f,
            Search.round rounds contacted (n ∷ asked) t more.0 (omega arith) s.few
                (subst (λ (cs : List NodeInfo). Among (n ∷ asked) cs) e s.among) s.fresh
                (subst
                  (λ (c : List Bytes).
                    Search rounds c (insert_all (answers rounds (n ∷ asked)) t) more.0)
                  s.noted search),
          )

  -- `FindNode` of a target with 8 bytes for the log returns, whatever arrives: the table stays in
  -- order, and the result is the first `k` of what `ClosestK` says of the table afterwards. That table
  -- is made by at most ten rounds. A round asks at least one and at most `alpha` of the closest nodes,
  -- never the node itself and no node twice, and inserts all that they answer. Fewer than ten rounds
  -- are made only if every one of the closest nodes was asked or is the node itself, or `alpha` is 0.
  pub find_node_effect :
      (k capacity : ℕ) (t : RoutingTable)
      → 8 ≤ capacity
      → IsTable t
      → (after : RoutingTable) × (find_node alpha k capacity answers target t
          ≡ ok (after, take k (closest_k target after)))
        × IsTable after
        × Search 10 [] t after
  unfolding find_node
  find_node_effect k capacity t wide v =
      let enough : ltb capacity 8 ≡ false = ground arith in
      let (w, e, search) = find_rounds-Found 10 [] (closest_k target t) t v refl in
      (
        (find_rounds alpha answers target 10 [] (closest_k target t) t).0,
        rw (enough, cut k _, e) refl,
        w,
        search,
      )

no_candidate : (alpha : ℕ) (node : NodeInfo) → select_nodes node.id alpha [] (node ∷ []) ≡ ([], [])
unfolding select_nodes
no_candidate zero node = refl
no_candidate (suc alpha) node = rw (eq_bytes_refl node.id) refl

no_one :
    (alpha : ℕ) (answers : ℕ → List NodeInfo → List NodeInfo) (target : Bytes) (rounds : ℕ)
    (t : RoutingTable)
    → find_rounds alpha answers target (suc rounds) [] (t.self ∷ []) t ≡ (t, t.self ∷ [])
unfolding find_rounds
no_one alpha answers target rounds t = rw (find_rounds, no_candidate alpha t.self) refl

-- The search of a node for itself, with which it joins the network, asks no one and leaves a table
-- in order as it is, as long as the depth of the table is below 127.
pub find_node_self :
    (alpha k capacity : ℕ) (answers : ℕ → List NodeInfo → List NodeInfo) (t : RoutingTable)
    → 8 ≤ capacity
    → IsTable t
    → t.depth < 127
    → find_node alpha k capacity answers t.self.id t ≡ ok (t, take k (t.self ∷ []))
unfolding find_node
find_node_self alpha k capacity answers t wide v d =
    let enough : ltb capacity 8 ≡ false = ground arith in
    rw (enough, closest_k_self t v d, no_one alpha answers t.self.id 9 t)
      (ap (λ (nodes : List NodeInfo). ok (t, nodes)) (cut k (t.self ∷ [])))
