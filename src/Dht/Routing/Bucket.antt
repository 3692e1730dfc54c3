-- ===== src/Dht/Routing/Bucket.antt =====
-- The loops over one bucket: what they find, replace, drop and move.
use mini_ipfs.Prelude.{
  suc, ◌≤◌, ◌≡◌, ◌≢◌, refl, sym, ap, ◌∙◌, inl, inr, Bool, true, false, Option, none, some, List, [],
  ◌∷◌, ◌++◌, arith, length, if◌then◌else◌, Bytes, eq_bytes, eq_bytes_iff, eq_bytes_ne,
  eq_bytes_refl, Bool-cases, Option-cases, All,
}
use mathlib.Core.Path.{subst}
use mathlib.Core.Option.{some-injective}
use mini_ipfs.Dht.Types.{NodeInfo}
use mini_ipfs.Dht.Routing.{replace_node, selected, contains_id, remove_first, find}

-- No identifier stands in a bucket twice.
abbrev pub NodupIds : List NodeInfo → Type 0
NodupIds [] = Unit
NodupIds (node ∷ nodes) = (find node.id nodes ≡ none) × NodupIds nodes

abbrev pub is_node : Option NodeInfo → Bool
is_node none = false
is_node (some node) = true

pub find-contains_id :
    (key : Bytes) (nodes : List NodeInfo) → contains_id key nodes ≡ is_node (find key nodes)
unfolding contains_id find
find-contains_id key [] = refl
find-contains_id key (n ∷ nodes) =
    ground (arith, eq_bytes_iff n.id key, eq_bytes_iff key n.id, find-contains_id key nodes)

pub find-append :
    (key : Bytes) (xs ys : List NodeInfo)
    → find key (xs ++ ys) ≡ elim (find key xs) [ none ↦ find key ys | some n ↦ some n ]
unfolding find
find-append key [] ys = refl
find-append key (x ∷ xs) ys = ground (arith, find-append key xs ys)

pub find_same :
    (key : Bytes) (n : NodeInfo) (nodes : List NodeInfo)
    → n.id ≡ key
    → find key (n ∷ nodes) ≡ some n
unfolding find
find_same key n nodes e = ground (arith, eq_bytes_iff key n.id)

pub find_skip :
    (key : Bytes) (n : NodeInfo) (nodes : List NodeInfo)
    → n.id ≢ key
    → find key (n ∷ nodes) ≡ find key nodes
unfolding find
find_skip key n nodes ne = ground (arith, eq_bytes_iff key n.id)

pub find-empty : (key : Bytes) → find key [] ≡ none
unfolding find
find-empty key = refl

-- The first node with the identifier of `node` gave way to `node`.
pub data Replaced (node : NodeInfo) : List NodeInfo → List NodeInfo → Type 0 where
  here :
      (old : NodeInfo) (rest : List NodeInfo)
      → old.id ≡ node.id
      → Replaced node (old ∷ rest) (node ∷ rest)
  there :
      (n : NodeInfo) {xs ys : List NodeInfo}
      → n.id ≢ node.id
      → Replaced node xs ys
      → Replaced node (n ∷ xs) (n ∷ ys)

-- The first node with the identifier is gone.
pub data Removed (key : Bytes) : List NodeInfo → List NodeInfo → Type 0 where
  here : (old : NodeInfo) (rest : List NodeInfo) → old.id ≡ key → Removed key (old ∷ rest) rest
  there :
      (n : NodeInfo) {xs ys : List NodeInfo}
      → n.id ≢ key
      → Removed key xs ys
      → Removed key (n ∷ xs) (n ∷ ys)

pub replace_node-none :
    (node : NodeInfo) (nodes : List NodeInfo)
    → replace_node node nodes ≡ none
    → find node.id nodes ≡ none
unfolding replace_node find
replace_node-none node [] h = refl
replace_node-none node (n ∷ nodes) h =
    ground
      (arith, eq_bytes_iff n.id node.id, eq_bytes_iff node.id n.id, replace_node-none node nodes)

pub replace_node-Replaced :
    (node : NodeInfo) (nodes new : List NodeInfo)
    → replace_node node nodes ≡ some new
    → Replaced node nodes new
unfolding replace_node
replace_node-Replaced node [] new h = cc
replace_node-Replaced node (n ∷ nodes) new h = elim (Bool-cases (eq_bytes n.id node.id)) [
  | inl e ↦
      subst (Replaced node (n ∷ nodes)) (some-injective _ _ (rw e at h))
        (Replaced.here n nodes ((eq_bytes_iff _ _).0 e))
  | inr e ↦ elim (Option-cases (replace_node node nodes)) [
    | inl f ↦ cc (rw (e, f) at h)
    | inr f ↦
        subst (Replaced node (n ∷ nodes)) (some-injective _ _ (rw (e, f.1) at h))
          (Replaced.there n (eq_bytes_ne _ _ e) (replace_node-Replaced node nodes f.0 f.1))
  ]
]

pub remove_first-none :
    (key : Bytes) (nodes : List NodeInfo) → remove_first key nodes ≡ none → find key nodes ≡ none
unfolding remove_first find
remove_first-none key [] h = refl
remove_first-none key (n ∷ nodes) h =
    ground (arith, eq_bytes_iff n.id key, eq_bytes_iff key n.id, remove_first-none key nodes)

pub remove_first-Removed :
    (key : Bytes) (nodes left : List NodeInfo)
    → remove_first key nodes ≡ some left
    → Removed key nodes left
unfolding remove_first
remove_first-Removed key [] left h = cc
remove_first-Removed key (n ∷ nodes) left h = elim (Bool-cases (eq_bytes n.id key)) [
  | inl e ↦
      subst (Removed key (n ∷ nodes)) (some-injective _ _ (rw e at h))
        (Removed.here n nodes ((eq_bytes_iff _ _).0 e))
  | inr e ↦ elim (Option-cases (remove_first key nodes)) [
    | inl f ↦ cc (rw (e, f) at h)
    | inr f ↦
        subst (Removed key (n ∷ nodes)) (some-injective _ _ (rw (e, f.1) at h))
          (Removed.there n (eq_bytes_ne _ _ e) (remove_first-Removed key nodes f.0 f.1))
  ]
]

module _ (node : NodeInfo) where
  pub Replaced-find_self :
      {xs ys : List NodeInfo} → Replaced node xs ys → find node.id ys ≡ some node
  Replaced-find_self (Replaced.here old rest e) = find_same node.id node rest refl
  Replaced-find_self (Replaced.there n {ys = ys} ne r) =
      find_skip node.id n ys ne ∙ Replaced-find_self r

  pub Replaced-find_other :
      {xs ys : List NodeInfo} (key : Bytes)
      → key ≢ node.id
      → Replaced node xs ys
      → find key ys ≡ find key xs
  unfolding find
  Replaced-find_other key ne (Replaced.here old rest e) =
      ground (arith, eq_bytes_iff key node.id, eq_bytes_iff key old.id)
  Replaced-find_other key ne (Replaced.there n d r) = ground (arith, Replaced-find_other key ne r)

  pub Replaced-length : {xs ys : List NodeInfo} → Replaced node xs ys → length ys ≡ length xs
  Replaced-length (Replaced.here old rest e) = refl
  Replaced-length (Replaced.there n d r) = ap suc (Replaced-length r)

  pub Replaced-NodupIds : {xs ys : List NodeInfo} → Replaced node xs ys → NodupIds xs → NodupIds ys
  Replaced-NodupIds (Replaced.here old rest e) u = (rw (← e) u.0, u.1)
  Replaced-NodupIds (Replaced.there n ne r) u =
      (Replaced-find_other n.id ne r ∙ u.0, Replaced-NodupIds r u.1)

  -- A property of identifiers.
  pub Replaced-All :
      {xs ys : List NodeInfo} (P : Bytes → Type 0)
      → Replaced node xs ys
      → All (λ n. P n.id) xs
      → All (λ n. P n.id) ys
  Replaced-All P (Replaced.here old rest e) h = (subst P e h.0, h.1)
  Replaced-All P (Replaced.there n ne r) h = (h.0, Replaced-All P r h.1)

module _ (key : Bytes) where
  pub Removed-find_other :
      {xs ys : List NodeInfo} (other : Bytes)
      → other ≢ key
      → Removed key xs ys
      → find other ys ≡ find other xs
  unfolding find
  Removed-find_other other ne (Removed.here old rest e) = ground (arith, eq_bytes_iff other old.id)
  Removed-find_other other ne (Removed.there n d r) = ground (arith, Removed-find_other other ne r)

  pub Removed-find_self :
      {xs ys : List NodeInfo} → Removed key xs ys → NodupIds xs → find key ys ≡ none
  Removed-find_self (Removed.here old rest e) u = rw (← e) u.0
  Removed-find_self (Removed.there n {ys = ys} ne r) u =
      find_skip key n ys ne ∙ Removed-find_self r u.1

  pub Removed-length : {xs ys : List NodeInfo} → Removed key xs ys → length ys ≤ length xs
  Removed-length (Removed.here old rest e) = omega arith
  Removed-length (Removed.there n ne r) = omega (arith, Removed-length r)

  pub Removed-NodupIds : {xs ys : List NodeInfo} → Removed key xs ys → NodupIds xs → NodupIds ys
  Removed-NodupIds (Removed.here old rest e) u = u.1
  Removed-NodupIds (Removed.there n ne r) u =
      (Removed-find_other n.id ne r ∙ u.0, Removed-NodupIds r u.1)

  pub Removed-All :
      {xs ys : List NodeInfo} (P : Bytes → Type 0)
      → Removed key xs ys
      → All (λ n. P n.id) xs
      → All (λ n. P n.id) ys
  Removed-All P (Removed.here old rest e) h = h.1
  Removed-All P (Removed.there n ne r) h = (h.0, Removed-All P r h.1)

module _ (test : Bytes → Bool) where
  pub find-selected :
      (key : Bytes) (nodes : List NodeInfo)
      → find key (selected test nodes) ≡ (if test key then find key nodes else none)
  unfolding find selected
  find-selected key [] = ground arith
  find-selected key (n ∷ nodes) = elim (Bool-cases (eq_bytes key n.id)) [
    | inl e ↦
        rw ((eq_bytes_iff key n.id).0 e)
          (ground (arith, eq_bytes_refl n.id, find-selected n.id nodes))
    | inr e ↦ ground (arith, find-selected key nodes)
  ]

  pub length-selected : (nodes : List NodeInfo) → length (selected test nodes) ≤ length nodes
  unfolding selected
  length-selected [] = omega arith
  length-selected (n ∷ nodes) = ground (arith, length-selected nodes)

  pub selected-NodupIds : (nodes : List NodeInfo) → NodupIds nodes → NodupIds (selected test nodes)
  unfolding selected
  selected-NodupIds [] u = tt
  selected-NodupIds (n ∷ nodes) u =
      ground (arith, selected-NodupIds nodes u.1, find-selected n.id nodes, u.0)

  pub selected-All :
      (P Q : Bytes → Type 0) (nodes : List NodeInfo)
      → ((id : Bytes) → test id ≡ true → P id → Q id)
      → All (λ n. P n.id) nodes
      → All (λ n. Q n.id) (selected test nodes)
  unfolding selected
  selected-All P Q [] h a = tt
  selected-All P Q (n ∷ nodes) h a = elim (Bool-cases (test n.id)) [
    | inl e ↦ rw e (h n.id e a.0, selected-All P Q nodes h a.1)
    | inr e ↦ rw e (selected-All P Q nodes h a.1)
  ]

pub append_node-NodupIds :
    (nodes : List NodeInfo) (node : NodeInfo)
    → NodupIds nodes
    → find node.id nodes ≡ none
    → NodupIds (nodes ++ node ∷ [])
append_node-NodupIds [] node u h = (find-empty node.id, tt)
append_node-NodupIds (n ∷ nodes) node u h = elim (Bool-cases (eq_bytes node.id n.id)) [
  | inl e ↦ cc (find_same node.id n nodes (sym ((eq_bytes_iff _ _).0 e)))
  | inr e ↦
      let apart : n.id ≢ node.id = λ p. eq_bytes_ne _ _ e (sym p) in
      (
        find-append n.id nodes (node ∷ [])
            ∙ rw (u.0) (find_skip n.id node [] (λ p. apart (sym p)) ∙ find-empty n.id),
        append_node-NodupIds nodes node u.1 (sym (find_skip node.id n nodes apart) ∙ h),
      )
]

pub contains_id-All :
    (P : Bytes → Type 0) (key : Bytes) (nodes : List NodeInfo)
    → contains_id key nodes ≡ true
    → All (λ n. P n.id) nodes
    → P key
unfolding contains_id
contains_id-All P key [] h a = cc
contains_id-All P key (n ∷ nodes) h a = elim (Bool-cases (eq_bytes n.id key)) [
  | inl e ↦ subst P ((eq_bytes_iff n.id key).0 e) a.0
  | inr e ↦ contains_id-All P key nodes (rw e at h) a.1
]
