-- ===== src/Dht/Providers.antt =====
-- The provider records of a node, of internal/dht/node.go: `storeProviderLocal`, `loadProviders`
-- and `FindProviders`. The reading of a map without the key gives no providers.
pub mod Laws
pub mod Search
use mini_ipfs.Prelude.{
  ℕ, ◌≡◌, Bool, true, false, ◌||◌, Option, none, some, List, [], ◌∷◌, ◌++◌, length, take, ltb,
  eq_bytes, if◌then◌else◌, Bytes, Result, ok, panic, ◌>>=◌,
}
use mini_ipfs.Hex.{encode_to_string}
use mini_ipfs.Dht.Types.{NodeInfo}
use mini_ipfs.Dht.Routing.{RoutingTable, contains_id}
use mini_ipfs.Dht.Closest.{closest_k}

-- The providers by the hash in hexadecimal.
abbrev pub Providers : Type 0
Providers = Bytes → List NodeInfo

-- `loadProviders`
abbrev pub load_providers : Bytes → Providers → List NodeInfo
load_providers hash_hex providers = providers hash_hex

abbrev pub set_providers : Bytes → List NodeInfo → Providers → Providers
set_providers hash_hex nodes providers = λ h. if eq_bytes h hash_hex then nodes else providers h

-- The providers with the new one, unless one with its identifier is there.
pub add_provider : NodeInfo → List NodeInfo → List NodeInfo
add_provider provider nodes =
    if contains_id provider.id nodes then nodes else nodes ++ (provider ∷ [])

-- `storeProviderLocal`, with the capacity of the slice of the provider's identifier. The log
-- entry after the update takes 16 bytes of the hash and 8 of the identifier, and panics without.
unfoldable pub store_provider_local :
    {E : Type 0} → (capacity : ℕ) → Bytes → NodeInfo → Providers → Result E Providers
store_provider_local capacity hash_hex provider providers =
    if contains_id provider.id (providers hash_hex)
    then ok providers
    else if ltb (length hash_hex) 16 || ltb capacity 8
    then panic
    else ok (set_providers hash_hex (providers hash_hex ++ (provider ∷ [])) providers)

-- The loop of `FindProviders` over the providers that one node sent.
unfoldable pub merge_providers : List NodeInfo → List NodeInfo → List NodeInfo
unfolding add_provider
merge_providers all [] = all
merge_providers all (p ∷ providers) = merge_providers (add_provider p all) providers

-- The loop of `FindProviders` over the closest nodes; `ask` is what `findProvidersRemote` gets from
-- an address.
unfoldable pub query_nodes :
    (ask : Bytes → Option (List NodeInfo)) → Bytes → List NodeInfo → List NodeInfo → List NodeInfo
query_nodes ask self [] all = all
query_nodes ask self (node ∷ nodes) all = query_nodes ask self nodes (
    if eq_bytes node.id self
    then all
    else elim (ask node.addr) [ none ↦ all | some providers ↦ merge_providers all providers ])

-- `FindProviders`, with the `K` of the configuration.
unfoldable pub find_providers :
    {E : Type 0}
    → (ask : Bytes → Option (List NodeInfo)) → (k : ℕ) → Bytes
    → RoutingTable
    → Providers
    → Result E (List NodeInfo)
find_providers ask k hash t providers =
    let hash_hex = encode_to_string hash in
    let closest = closest_k hash t in
    let queried = if ltb k (length closest) then take k closest else closest in
    if ltb (length hash_hex) 16
    then panic
    else ok (query_nodes ask t.self.id queried (load_providers hash_hex providers))
