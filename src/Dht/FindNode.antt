-- ===== src/Dht/FindNode.antt =====
-- `FindNode` of internal/dht/node.go: the search through other nodes in rounds. What the nodes that
-- a round asks have answered when the round ends, in the order of arrival, is an argument.
pub mod Select
pub mod Laws
use mini_ipfs.Prelude.{
  ℕ, zero, suc, Bool, true, false, ◌||◌, List, [], ◌∷◌, length, take, leb, ltb, eq_bytes,
  if◌then◌else◌, Bytes, Result, ok, panic,
}
use mini_ipfs.Dht.Types.{NodeInfo}
use mini_ipfs.Dht.Remote.{RemoteError}
use mini_ipfs.Dht.Routing.{RoutingTable, insert_node}
use mini_ipfs.Dht.Closest.{closest_k}

abbrev pub was_contacted : Bytes → List Bytes → Bool
was_contacted id [] = false
was_contacted id (c ∷ contacted) = eq_bytes id c || was_contacted id contacted

-- The loop that selects up to `alpha` nodes, with those it has room for, and the contacted nodes.
unfoldable pub select_nodes :
    (self : Bytes) (room : ℕ) → List Bytes → List NodeInfo → List NodeInfo × List Bytes
select_nodes self zero contacted candidates = ([], contacted)
select_nodes self (suc room) contacted [] = ([], contacted)
select_nodes self (suc room) contacted (node ∷ candidates) =
    let skipped = select_nodes self (suc room) contacted candidates in
    let (nodes, contacted') = select_nodes self room (node.id ∷ contacted) candidates in
    if was_contacted node.id contacted || eq_bytes node.id self
    then skipped
    else (node ∷ nodes, contacted')

-- The loop over the new nodes.
unfoldable pub insert_all : List NodeInfo → RoutingTable → RoutingTable
insert_all [] t = t
insert_all (node ∷ nodes) t = insert_all nodes (insert_node node t)

-- The rounds, as many as are left: the table and the candidates afterwards.
unfoldable pub find_rounds :
    (alpha : ℕ) (answers : ℕ → List NodeInfo → List NodeInfo)
    → Bytes
    → (rounds : ℕ) → List Bytes
    → List NodeInfo
    → RoutingTable
    → RoutingTable × List NodeInfo
unfolding select_nodes insert_all
find_rounds alpha answers target zero contacted candidates t = (t, candidates)
find_rounds alpha answers target (suc rounds) contacted candidates t =
    let (to_contact, contacted') = select_nodes t.self.id alpha contacted candidates in
    let t' = insert_all (answers rounds to_contact) t in
    let more = find_rounds alpha answers target rounds contacted' (closest_k target t') t' in
    elim to_contact [ [] ↦ (t, candidates) | _ ∷ _ ↦ more ]

-- `FindNode`, with the `Alpha` and the `K` of the configuration and the capacity of the target's
-- slice, of which the log takes 8 bytes.
unfoldable pub find_node :
    (alpha k capacity : ℕ) (answers : ℕ → List NodeInfo → List NodeInfo)
    → Bytes
    → RoutingTable
    → Result RemoteError (RoutingTable × List NodeInfo)
find_node alpha k capacity answers target t =
    let (t', candidates) = find_rounds alpha answers target 10 [] (closest_k target t) t in
    if ltb capacity 8
    then panic
    else ok (t', if ltb k (length candidates) then take k candidates else candidates)
