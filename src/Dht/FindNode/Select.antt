-- ===== src/Dht/FindNode/Select.antt =====
-- Whom a round of `FindNode` asks.
use mini_ipfs.Prelude.{
  ℕ, zero, suc, ◌≡◌, ◌≤◌, ◌⊎◌, inl, inr, ◌||◌, refl, true, false, length, All, Bool-cases, eq_bytes,
  List, [], ◌∷◌, Bytes, arith,
}
use mini_ipfs.Dht.Types.{NodeInfo}
use mini_ipfs.Dht.FindNode.{was_contacted, select_nodes}

-- The identifiers of the nodes that a round asked, on top of those asked before.
abbrev pub with_asked : List NodeInfo → List Bytes → List Bytes
with_asked [] contacted = contacted
with_asked (node ∷ nodes) contacted = with_asked nodes (node.id ∷ contacted)

-- The node may be asked: it is not the searching one, and was not asked before.
abbrev pub IsFresh : Bytes → List Bytes → NodeInfo → Type 0
IsFresh self contacted node =
    (was_contacted node.id contacted ≡ false) × (eq_bytes node.id self ≡ false)

-- The node need not be asked any more.
abbrev pub IsSpent : Bytes → List Bytes → NodeInfo → Type 0
IsSpent self contacted node =
    (was_contacted node.id contacted ≡ true) ⊎ (eq_bytes node.id self ≡ true)

-- Each node may be asked after those before it.
abbrev pub AllFresh : Bytes → List Bytes → List NodeInfo → Type 0
AllFresh self contacted [] = Unit
AllFresh self contacted (node ∷ nodes) =
    IsFresh self contacted node × AllFresh self (node.id ∷ contacted) nodes

-- The nodes of a round are among the candidates, in their order.
pub data Among : List NodeInfo → List NodeInfo → Type 0 where
  no_more : (cs : List NodeInfo) → Among [] cs
  passed : (c : NodeInfo) (ns cs : List NodeInfo) → Among ns cs → Among ns (c ∷ cs)
  taken : (c : NodeInfo) (ns cs : List NodeInfo) → Among ns cs → Among (c ∷ ns) (c ∷ cs)

-- What a selection gives.
pub record Selection (self : Bytes) (room : ℕ) (contacted : List Bytes) (cs : List NodeInfo)
    (r : List NodeInfo × List Bytes) : Type 0 where
  pub few : length r.0 ≤ room
  pub noted : r.1 ≡ with_asked r.0 contacted
  pub fresh : AllFresh self contacted r.0
  pub among : Among r.0 cs
  pub none_left : r.0 ≡ [] → (room ≡ 0) ⊎ All (IsSpent self contacted) cs

pub select_nodes-Selection :
    (self : Bytes) (room : ℕ) (contacted : List Bytes) (cs : List NodeInfo)
    → Selection self room contacted cs (select_nodes self room contacted cs)
unfolding select_nodes
select_nodes-Selection self zero contacted cs = record {
  few = omega arith;
  noted = refl;
  fresh = tt;
  among = Among.no_more cs;
  none_left = λ e. inl refl;
}
select_nodes-Selection self (suc room) contacted [] = record {
  few = omega arith;
  noted = refl;
  fresh = tt;
  among = Among.no_more [];
  none_left = λ e. inr tt;
}
select_nodes-Selection self (suc room) contacted (node ∷ cs) =
    let skip = select_nodes-Selection self (suc room) contacted cs in
    let take_it = select_nodes-Selection self room (node.id ∷ contacted) cs in
    elim (Bool-cases (was_contacted node.id contacted || eq_bytes node.id self)) [
      | inl e ↦
          rw (select_nodes, e)
            (record {
              few = skip.few;
              noted = skip.noted;
              fresh = skip.fresh;
              among = Among.passed node _ cs skip.among;
              none_left = λ none. elim (skip.none_left none) [
                | inl z ↦ inl z
                | inr all ↦ inr (ground arith, all)
              ];
            })
      | inr e ↦
          rw (select_nodes, e)
            (record {
              few = omega (arith, take_it.few);
              noted = take_it.noted;
              fresh = ((ground arith, ground arith), take_it.fresh);
              among = Among.taken node _ cs take_it.among;
              none_left = λ none. cc none;
            })
    ]
