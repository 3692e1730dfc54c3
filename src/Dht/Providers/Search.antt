-- ===== src/Dht/Providers/Search.antt =====
-- What `FindProviders` returns.
use mini_ipfs.Prelude.{
  ℕ, ◌≡◌, ◌≤◌, refl, sym, ap, inl, inr, Bool-cases, ◌∙◌, true, false, Bool, Option, none, some,
  List, [], ◌∷◌, arith, length, take, take-all, eq_bytes, if◌then◌else◌, ltb, Bytes, ok,
}
use mini_ipfs.Hex.{encode_to_string}
use mini_ipfs.Hex.RoundTrip.{length-encode_to_string}
use mini_ipfs.Dht.Types.{NodeInfo}
use mini_ipfs.Dht.Routing.{RoutingTable, find}
use mini_ipfs.Dht.Routing.Bucket.{NodupIds}
use mini_ipfs.Dht.Closest.{closest_k}
use mini_ipfs.Dht.Providers.{
  Providers, load_providers, add_provider, merge_providers, query_nodes, find_providers,
}
use mini_ipfs.Dht.Providers.Laws.{
  add_provider-NodupIds, find-add_provider, or_else, or_else-none, only, NodupProviders,
}

pub merge_providers-NodupIds :
    (all new : List NodeInfo) → NodupIds all → NodupIds (merge_providers all new)
unfolding merge_providers
merge_providers-NodupIds all [] u = u
merge_providers-NodupIds all (p ∷ new) u =
    merge_providers-NodupIds (add_provider p all) new (add_provider-NodupIds p all u)

find-merge_providers :
    (id : Bytes) (all new : List NodeInfo)
    → find id (merge_providers all new) ≡ or_else (find id all) (find id new)
unfolding merge_providers find
find-merge_providers id all [] = sym (or_else-none (find id all))
find-merge_providers id all (p ∷ new) =
    find-merge_providers id (add_provider p all) new
    ∙ ap (λ o. or_else o (find id new)) (find-add_provider id p all)
    ∙ first (find id all)
  where
    first :
        (o : Option NodeInfo)
        → or_else (or_else o (only p id)) (find id new) ≡ or_else o (find id (p ∷ new))
    first none = elim (Bool-cases (eq_bytes id p.id)) [ inl e ↦ rw e refl | inr e ↦ rw e refl ]
    first (some n) = refl

-- The provider with the identifier that the first of the nodes which names one sends; the node
-- itself is not asked.
abbrev pub named_by :
    (ask : Bytes → Option (List NodeInfo)) → Bytes → List NodeInfo → Bytes → Option NodeInfo
named_by ask self [] id = none
named_by ask self (node ∷ nodes) id =
    or_else
      (if eq_bytes node.id self
        then none
        else elim (ask node.addr) [ none ↦ none | some new ↦ find id new ])
      (named_by ask self nodes id)

or_else_assoc : (a b c : Option NodeInfo) → or_else (or_else a b) c ≡ or_else a (or_else b c)
or_else_assoc none b c = refl
or_else_assoc (some n) b c = refl

module _ (ask : Bytes → Option (List NodeInfo)) (self : Bytes) where
  query_nodes-NodupIds :
      (nodes all : List NodeInfo) → NodupIds all → NodupIds (query_nodes ask self nodes all)
  unfolding query_nodes
  query_nodes-NodupIds [] all u = u
  query_nodes-NodupIds (node ∷ nodes) all u =
      query_nodes-NodupIds nodes _ (step (eq_bytes node.id self) (ask node.addr))
    where
      step :
          (own : Bool) (answer : Option (List NodeInfo))
          → NodupIds (
              if own
              then all
              else elim answer [ none ↦ all | some providers ↦ merge_providers all providers ])
      step true answer = u
      step false none = u
      step false (some new) = merge_providers-NodupIds all new u

  find-query_nodes :
      (nodes all : List NodeInfo) (id : Bytes)
      → find id (query_nodes ask self nodes all)
        ≡ or_else (find id all) (named_by ask self nodes id)
  unfolding query_nodes
  find-query_nodes [] all id = sym (or_else-none (find id all))
  find-query_nodes (node ∷ nodes) all id =
      find-query_nodes nodes _ id
      ∙ ap (λ o. or_else o (named_by ask self nodes id))
          (step (eq_bytes node.id self) (ask node.addr))
      ∙ or_else_assoc (find id all) _ (named_by ask self nodes id)
    where
      step :
          (own : Bool) (answer : Option (List NodeInfo))
          → find id (
              if own
              then all
              else elim answer [ none ↦ all | some providers ↦ merge_providers all providers ])
            ≡ or_else
                (find id all)
                (if own then none else elim answer [ none ↦ none | some new ↦ find id new ])
      step true answer = sym (or_else-none (find id all))
      step false none = sym (or_else-none (find id all))
      step false (some new) = find-merge_providers id all new

pub cut :
    (k : ℕ) (nodes : List NodeInfo)
    → (if ltb k (length nodes) then take k nodes else nodes) ≡ take k nodes
cut k nodes = ground (arith, take-all k nodes)

first_k :
    {E : Type 0} (ask : Bytes → Option (List NodeInfo)) (k : ℕ) (hash : Bytes) (t : RoutingTable)
    (providers : Providers)
    → 8 ≤ length hash
    → find_providers {E = E} ask k hash t providers
      ≡ ok (
          query_nodes ask t.self.id (take k (closest_k hash t)) (providers (encode_to_string hash)))
unfolding find_providers
first_k ask k hash t providers long =
    let enough : ltb (length (encode_to_string hash)) 16 ≡ false =
      ground (arith, length-encode_to_string hash) in
    rw (enough, cut k (closest_k hash t)) refl

-- `FindProviders` of a hash of at least 8 bytes returns exactly the providers that the node itself
-- knows or that one of the first `k` closest nodes, itself left out, names in an answer, each
-- identifier once. Each is returned whole, as the node knows it or else as the first node that names
-- it sends it. Nodes that do not answer are passed over.
pub find_providers_effect :
    {E : Type 0} (ask : Bytes → Option (List NodeInfo)) (k : ℕ) (hash : Bytes) (t : RoutingTable)
    (providers : Providers)
    → 8 ≤ length hash
    → NodupProviders providers
    → (found : List NodeInfo) × (find_providers {E = E} ask k hash t providers ≡ ok found)
      × NodupIds found
      × ((id : Bytes)
          → find id found
            ≡ or_else
                (find id (load_providers (encode_to_string hash) providers))
                (named_by ask t.self.id (take k (closest_k hash t)) id))
find_providers_effect ask k hash t providers long u = (
  query_nodes ask t.self.id (take k (closest_k hash t)) (providers (encode_to_string hash)),
  first_k ask k hash t providers long,
  query_nodes-NodupIds ask t.self.id (take k (closest_k hash t)) _ (u (encode_to_string hash)),
  find-query_nodes ask t.self.id (take k (closest_k hash t)) _,
)
