-- ===== src/Dht/Providers/Laws.antt =====
-- What `storeProviderLocal` does to the provider records.
use mini_ipfs.Prelude.{
  ℕ, ◌≡◌, ◌<◌, refl, sym, inl, inr, ◌⊎◌, true, false, Option, none, some, List, [], ◌∷◌, ◌++◌,
  arith, length, eq_bytes, eq_bytes_refl, if◌then◌else◌, eq_bytes_iff, Bytes, Bool-cases,
  Option-cases, ok, panic,
}
use mathlib.Core.Path.{subst}
use mini_ipfs.Dht.Types.{NodeInfo}
use mini_ipfs.Dht.Routing.{contains_id, find}
use mini_ipfs.Dht.Routing.Bucket.{NodupIds, append_node-NodupIds, find-append, find-contains_id}
use mini_ipfs.Dht.Providers.{
  Providers, load_providers, set_providers, add_provider, store_provider_local,
}

-- No list of providers has an identifier twice.
abbrev pub NodupProviders : Providers → Type 0
NodupProviders providers = (h : Bytes) → NodupIds (load_providers h providers)

pub add_provider-NodupIds :
    (p : NodeInfo) (all : List NodeInfo) → NodupIds all → NodupIds (add_provider p all)
unfolding add_provider
add_provider-NodupIds p all u = elim (Bool-cases (contains_id p.id all)) [
  | inl e ↦ rw e u
  | inr e ↦ rw e (append_node-NodupIds all p u (absent e))
]
  where
    absent : contains_id p.id all ≡ false → find p.id all ≡ none
    absent e = ground (arith, find-contains_id p.id all)

-- The first of two entries that is there.
abbrev pub or_else {ℓ} : {A : Type ℓ} → Option A → Option A → Option A
or_else none b = b
or_else (some a) b = some a

-- The provider, for its own identifier.
abbrev pub only : NodeInfo → Bytes → Option NodeInfo
only provider id = if eq_bytes id provider.id then some provider else none

pub or_else-none {ℓ} : {A : Type ℓ} → (a : Option A) → or_else a none ≡ a
or_else-none none = refl
or_else-none (some a) = refl

-- What is found after a provider was added at the end.
find_appended :
    (id : Bytes) (p : NodeInfo) (all : List NodeInfo)
    → find id (all ++ (p ∷ [])) ≡ or_else (find id all) (only p id)
unfolding find
find_appended id p all = elim (Option-cases (find id all)) [
  | inl e ↦ rw (find-append id all (p ∷ []), e) refl
  | inr (n, e) ↦ rw (find-append id all (p ∷ []), e) refl
]

-- What is found where there was a provider with the identifier.
find_known :
    (id : Bytes) (p : NodeInfo) (all : List NodeInfo)
    → contains_id p.id all ≡ true
    → find id all ≡ or_else (find id all) (only p id)
find_known id p all h = elim (Bool-cases (eq_bytes id p.id)) [
  | inr e ↦ rw e (sym (or_else-none (find id all)))
  | inl e ↦ elim (Option-cases (find id all)) [
    | inr (n, f) ↦ rw f refl
    | inl f ↦
        let same : find p.id all ≡ none =
          subst (λ (i : Bytes). find i all ≡ none) ((eq_bytes_iff id p.id).0 e) f in
        cc (h, find-contains_id p.id all, same)
  ]
]

pub find-add_provider :
    (id : Bytes) (p : NodeInfo) (all : List NodeInfo)
    → find id (add_provider p all) ≡ or_else (find id all) (only p id)
unfolding add_provider
find-add_provider id p all = elim (Bool-cases (contains_id p.id all)) [
  | inl e ↦ rw (add_provider, e) (find_known id p all e)
  | inr e ↦ rw (add_provider, e) (find_appended id p all)
]

-- What a reader of the records sees. The hash has the provider under its identifier, whole, unless
-- there was one with that identifier, which stays; all other entries of that hash stay, and so do the
-- lists of other hashes.
abbrev pub Provided : Bytes → NodeInfo → Providers → Providers → Type 0
Provided hash_hex provider before after =
    ((id : Bytes)
      → find id (load_providers hash_hex after)
        ≡ or_else (find id (load_providers hash_hex before)) (only provider id))
    × ((h : Bytes) → eq_bytes h hash_hex ≡ false → load_providers h after ≡ load_providers h before)

module _ (hash_hex : Bytes) (provider : NodeInfo) (providers : Providers) where
  Provided-already :
      contains_id provider.id (providers hash_hex) ≡ true
      → Provided hash_hex provider providers providers
  Provided-already e = (λ id. find_known id provider (providers hash_hex) e, λ h ne. refl)

  Provided-new :
      Provided hash_hex provider providers
        (set_providers hash_hex (providers hash_hex ++ (provider ∷ [])) providers)
  Provided-new = (
    λ id. rw (eq_bytes_refl hash_hex) (find_appended id provider (providers hash_hex)),
    λ h ne. rw ne refl,
  )

  new-NodupProviders :
      NodupProviders providers
      → contains_id provider.id (providers hash_hex) ≡ false
      → NodupProviders (set_providers hash_hex (providers hash_hex ++ (provider ∷ [])) providers)
  new-NodupProviders u e h = elim (Bool-cases (eq_bytes h hash_hex)) [
    | inl f ↦ rw f (append_node-NodupIds (providers hash_hex) provider (u hash_hex) (absent e))
    | inr f ↦ rw f (u h)
  ]
    where
      absent :
          contains_id provider.id (providers hash_hex) ≡ false
          → find provider.id (providers hash_hex) ≡ none
      absent e = ground (arith, find-contains_id provider.id (providers hash_hex))

module _ {E : Type 0} (capacity : ℕ) (hash_hex : Bytes) (provider : NodeInfo)
    (providers : Providers) where
  stored_cases :
      ((contains_id provider.id (providers hash_hex) ≡ true)
        × (store_provider_local {E = E} capacity hash_hex provider providers ≡ ok providers))
      ⊎ ((contains_id provider.id (providers hash_hex) ≡ false)
          × (((length hash_hex < 16) ⊎ (capacity < 8))
                × (store_provider_local {E = E} capacity hash_hex provider providers ≡ panic)
              ⊎ (store_provider_local {E = E} capacity hash_hex provider providers
                  ≡ ok (set_providers hash_hex (providers hash_hex ++ (provider ∷ [])) providers))))
  unfolding store_provider_local
  stored_cases = ground arith

  pub store_provider_local_effect :
      NodupProviders providers
      → ((contains_id provider.id (load_providers hash_hex providers) ≡ false)
          × ((length hash_hex < 16) ⊎ (capacity < 8))
          × (store_provider_local {E = E} capacity hash_hex provider providers ≡ panic))
        ⊎ ((after : Providers) × (store_provider_local {E = E} capacity hash_hex provider providers
              ≡ ok after)
            × NodupProviders after
            × Provided hash_hex provider providers after)
  store_provider_local_effect u = elim stored_cases [
    | inl known ↦ inr (providers, known.1, u, Provided-already hash_hex provider providers known.0)
    | inr new ↦ elim new.1 [
      | inl short ↦ inl (new.0, short.0, short.1)
      | inr e ↦ inr (
        _,
        e,
        new-NodupProviders hash_hex provider providers u new.0,
        Provided-new hash_hex provider providers,
      )
    ]
  ]
