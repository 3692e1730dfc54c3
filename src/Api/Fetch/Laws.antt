-- ===== src/Api/Fetch/Laws.antt =====
-- What `fetchChunkFromNetwork` and `handleGetChunk` bring back.
use mini_ipfs.Prelude.{
  ℕ, ◌≡◌, ◌≢◌, ◌≤◌, refl, sym, ap, ◌∙◌, ◌⊎◌, inl, inr, false, some, List, [], ◌∷◌, ◌++◌, ltb,
  length, eq_bytes, eq_bytes_iff, eq_bytes_ne, Bytes, Bool-cases, Option-cases, Result, ok, err,
  panic, running, arith,
}
use mathlib.Core.Option.{some-injective}
use mini_ipfs.Hex.RoundTrip.{length-encode_to_string}
use mini_ipfs.Dht.Types.{NodeInfo}
use mini_ipfs.Dht.Rpc.{StoreFailure}
use mini_ipfs.Dht.Providers.{find_providers}
use mini_ipfs.Storage.Store.{ChunkStore, get_chunk}
use mini_ipfs.Storage.Store.Paths.{IsDigest}
use mini_ipfs.Storage.Store.Contents.{get_chunk-hash}
use mini_ipfs.Api.State.{Server, Settings, World, value_of}
use mini_ipfs.Api.Fetch.{
  Fetched, fetched, not_fetched, crashed, provider_http, fetch_chunk_from_http, try_providers,
  fetch_chunk_from_network,
}

pub Fetched-cases :
    (r : Fetched) → (r ≡ crashed) ⊎ (r ≡ not_fetched) ⊎ ((b : Bytes) × (r ≡ fetched b))
Fetched-cases crashed = inl refl
Fetched-cases not_fetched = inr (inl refl)
Fetched-cases (fetched b) = inr (inr (b, refl))

pub value_of-some : {E A : Type 0} (r : Result E A) (a : A) → value_of r ≡ some a → r ≡ ok a
value_of-some (ok b) a h = ap ok (cc h)
value_of-some (err b) a h = cc h
value_of-some panic a h = cc h
value_of-some running a h = cc h

pub value_of-get_chunk :
    (sha256 : Bytes → Bytes) (w : World) (call : ℕ) (h b : Bytes) (s : ChunkStore)
    → IsDigest sha256
    → value_of (get_chunk sha256 (w.io call) h s) ≡ some b
    → sha256 b ≡ h
value_of-get_chunk sha256 w call h b s digest e =
    get_chunk-hash sha256 digest (w.io call) h b s (value_of-some _ b e)

module _ (sha256 : Bytes → Bytes) (w : World) (hash hash_hex : Bytes) where
  -- The provider has an address, and what is served there is the chunk.
  pub record Serves (p : NodeInfo) : Type 0 where
    pub addr : Bytes
    pub reachable : provider_http p ≡ some addr
    pub bytes : Bytes
    pub served : fetch_chunk_from_http w addr hash_hex ≡ some bytes
    pub right : sha256 bytes ≡ hash

  same_bytes :
      (p : NodeInfo) (addr bytes : Bytes)
      → provider_http p ≡ some addr
      → fetch_chunk_from_http w addr hash_hex ≡ some bytes
      → (v : Serves p) → bytes ≡ v.bytes
  same_bytes p addr bytes f g v =
      let at = some-injective addr v.addr (sym f ∙ v.reachable) in
      some-injective bytes v.bytes
        (sym g ∙ ap (λ (a : Bytes). fetch_chunk_from_http w a hash_hex) at ∙ v.served)

  -- Either the chunk comes from the first provider, or that one does not serve it and the loop goes on.
  first_provider :
      (p : NodeInfo) (ps : List NodeInfo)
      → ((b : Bytes) × ((try_providers sha256 w hash hash_hex (p ∷ ps)).0 ≡ some b)
          × (sha256 b ≡ hash))
        ⊎ (((try_providers sha256 w hash hash_hex (p ∷ ps)).0
              ≡ (try_providers sha256 w hash hash_hex ps).0)
            × ¬ (Serves p))
  unfolding try_providers
  first_provider p ps = elim (Option-cases (provider_http p)) [
    | inl f ↦ inr (rw (try_providers, f) refl, λ v. cc (v.reachable, f))
    | inr (addr, f) ↦ elim (Option-cases (fetch_chunk_from_http w addr hash_hex)) [
      | inl g ↦ inr (
        rw (try_providers, f, g) refl,
        λ v. cc (g, v.served, some-injective _ _ (sym f ∙ v.reachable)),
      )
      | inr (bytes, g) ↦ elim (Bool-cases (eq_bytes hash (sha256 bytes))) [
        | inr v ↦ inr (
          rw (try_providers, f, g, v) refl,
          λ served.
              eq_bytes_ne _ _ v
                (sym served.right ∙ ap sha256 (sym (same_bytes p addr bytes f g served))),
        )
        | inl v ↦
            inl (
              bytes,
              rw (try_providers, f, g, v) refl,
              sym ((eq_bytes_iff hash (sha256 bytes)).0 v),
            )
      ]
    ]
  ]

  try_providers_sound :
      (ps : List NodeInfo) (b : Bytes)
      → (try_providers sha256 w hash hash_hex ps).0 ≡ some b
      → sha256 b ≡ hash
  unfolding try_providers
  try_providers_sound [] b e = cc e
  try_providers_sound (p ∷ ps) b e = elim (first_provider p ps) [
    | inl (c, f, h) ↦ cc (e, f, h)
    | inr (f, _) ↦ try_providers_sound ps b (sym f ∙ e)
  ]

  try_providers-Serves :
      (before after : List NodeInfo) (p : NodeInfo)
      → Serves p
      → (b : Bytes) × ((try_providers sha256 w hash hash_hex (before ++ (p ∷ after))).0 ≡ some b)
  try_providers-Serves [] after p v = elim (first_provider p after) [
    | inl (b, e, _) ↦ (b, e)
    | inr (_, not_served) ↦ absurd (not_served v)
  ]
  try_providers-Serves (q ∷ before) after p v = elim (first_provider q (before ++ (p ∷ after))) [
    | inl (b, e, _) ↦ (b, e)
    | inr (e, _) ↦ let (b, ih) = try_providers-Serves before after p v in (b, e ∙ ih)
  ]

  module _ (cfg : Settings) (s : Server) where
    fetch_chunk_from_network-of :
        (r : Result StoreFailure (List NodeInfo)) (b : Bytes)
        → find_providers (w.ask hash) cfg.k hash s.node.table s.node.providers ≡ r
        → (fetch_chunk_from_network sha256 w hash hash_hex cfg s).0 ≡ fetched b
        → sha256 b ≡ hash
    unfolding fetch_chunk_from_network
    fetch_chunk_from_network-of (err x) b f e = cc (rw (fetch_chunk_from_network, f) at e)
    fetch_chunk_from_network-of panic b f e = cc (rw (fetch_chunk_from_network, f) at e)
    fetch_chunk_from_network-of running b f e = cc (rw (fetch_chunk_from_network, f) at e)
    fetch_chunk_from_network-of (ok []) b f e = cc (rw (fetch_chunk_from_network, f) at e)
    fetch_chunk_from_network-of (ok (p ∷ ps)) b f e = elim (Bool-cases (ltb (length hash_hex) 16)) [
      | inl short ↦ cc (rw (fetch_chunk_from_network, f, short) at e)
      | inr long ↦ elim (Option-cases (try_providers sha256 w hash hash_hex (p ∷ ps)).0) [
        | inl none_found ↦ cc (rw (fetch_chunk_from_network, f, long, none_found) at e)
        | inr (c, found) ↦ cc (
          rw (fetch_chunk_from_network, f, long, found) at e,
          try_providers_sound (p ∷ ps) c found,
        )
      ]
    ]

    -- What the network brings has the hash that was asked for.
    pub fetch_chunk_from_network_sound :
        (b : Bytes)
        → (fetch_chunk_from_network sha256 w hash hash_hex cfg s).0 ≡ fetched b
        → sha256 b ≡ hash
    fetch_chunk_from_network_sound b e = fetch_chunk_from_network-of _ b refl e

    pub fetch_chunk_from_network-Serves :
        (before after : List NodeInfo) (p : NodeInfo)
        → 16 ≤ length hash_hex
        → find_providers {E = StoreFailure} (w.ask hash) cfg.k hash s.node.table s.node.providers
          ≡ ok (before ++ (p ∷ after))
        → Serves p
        → (b : Bytes) × ((fetch_chunk_from_network sha256 w hash hash_hex cfg s).0 ≡ fetched b)
    unfolding fetch_chunk_from_network
    fetch_chunk_from_network-Serves [] after p long e v =
        let (b, got) = try_providers-Serves [] after p v in
        let short : ltb (length hash_hex) 16 ≡ false = ground arith in
        (b, rw (fetch_chunk_from_network, e, short, got) refl)
    fetch_chunk_from_network-Serves (q ∷ before) after p long e v =
        let (b, got) = try_providers-Serves (q ∷ before) after p v in
        let short : ltb (length hash_hex) 16 ≡ false = ground arith in
        (b, rw (fetch_chunk_from_network, e, short, got) refl)

    -- It does not panic on a hash and a text that are long enough for the log.
    pub fetch_chunk_from_network-ne-crashed :
        8 ≤ length hash
        → 16 ≤ length hash_hex
        → (fetch_chunk_from_network sha256 w hash hash_hex cfg s).0 ≢ crashed
    unfolding fetch_chunk_from_network find_providers
    fetch_chunk_from_network-ne-crashed long wide e = ground (arith, length-encode_to_string hash)
