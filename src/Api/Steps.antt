-- ===== src/Api/Steps.antt =====
-- Every request changes the store by calls of `PutChunk` and `DeleteChunk` only.
pub mod Uploads
pub mod Downloads
pub mod Kept
use mini_ipfs.Prelude.{
  ℕ, zero, suc, ◌+◌, ◌*◌, ◌≡◌, ◌≢◌, refl, sym, ap, ◌∙◌, ◌⊎◌, inl, inr, Bool, true, false, not, ◌&&◌,
  Option, none, some, List, [], ◌∷◌, ◌++◌, ◌==◌, ==_iff, ltb, length, if◌then◌else◌, Bytes,
  Bool-cases, Option-cases, Result, ok, err, panic, running, arith, All, pos, negsuc,
}
use mathlib.Core.Path.{subst}
use mini_ipfs.Hex.{encode_to_string, decode_string}
use mini_ipfs.Hex.RoundTrip.{IsBytes, decode_string-IsBytes}
use mini_ipfs.Dht.Rpc.{StoreFailure}
use mini_ipfs.Dht.Providers.{find_providers}
use mini_ipfs.Storage.Chunker.{ChunkInfo, FileManifest}
use mini_ipfs.Storage.Store.{ChunkStore, put_chunk, get_chunk, delete_chunk}
use mini_ipfs.Storage.Store.Paths.{IsHash, IsDigest}
use mini_ipfs.Storage.Store.Invariant.{Step, Reach, put, delete, here, next}
use mini_ipfs.Api.State.{
  Server, Settings, World, ManifestCodec, Body, Answer, Event, announce, with_store, emit, value_of,
  read_limited, exceeds, is_on,
}
use mini_ipfs.Api.Fetch.{Fetched, fetched, not_fetched, crashed, fetch_chunk_from_network}
use mini_ipfs.Api.Fetch.Laws.{Fetched-cases}
use mini_ipfs.Api.Chunks.Laws.{parse_hash-IsHash}
use mini_ipfs.Api.Chunks.{
  max_chunk, parse_hash, become_provider, cache_chunk, store_posted, handle_post_chunk, get_remote,
  handle_get_chunk, ask_providers, handle_delete_chunk,
}

-- `os.Stat` tells truly whether files are there.
abbrev pub IsTruthful : World → Type 0
IsTruthful w = (i : ℕ) → (w.io i).stat_fails ≡ false

module _ (sha256 : Bytes → Bytes) where
  pub Reach-trans : {s t u : ChunkStore} → Reach sha256 s t → Reach sha256 t u → Reach sha256 s u
  Reach-trans r Reach.here = r
  Reach-trans r (Reach.next q st) = Reach.next (Reach-trans r q) st

  pub Reach-eq : {s t : ChunkStore} → s ≡ t → Reach sha256 s t
  Reach-eq {s} e = subst (Reach sha256 s) e Reach.here

  module _ (w : World) (truly : IsTruthful w) where
    pub Reach-put :
        (i : ℕ) (b : Bytes) (s : ChunkStore) → Reach sha256 s (put_chunk sha256 (w.io i) b s).1
    Reach-put i b s = Reach.next Reach.here (Step.put (w.io i) b s (truly i))

    pub Reach-delete :
        (i : ℕ) (h : Bytes) (s : ChunkStore)
        → IsBytes h
        → Reach sha256 s (delete_chunk (w.io i) h s).1
    unfolding delete_chunk
    Reach-delete i h s v = elim (Bool-cases (length h == 32)) [
      | inl e ↦
          Reach.next Reach.here
            (Step.delete (w.io i) h s (record { bytes = v; size = (==_iff (length h) 32).0 e }))
      | inr e ↦ rw e Reach.here
    ]

  module _ (w : World) (cfg : Settings) where
    pub fetch_chunk_from_network-store :
        (hash hex : Bytes) (s : Server)
        → (fetch_chunk_from_network sha256 w hash hex cfg s).1.store ≡ s.store
    unfolding fetch_chunk_from_network
    fetch_chunk_from_network-store hash hex s = ground arith

    become_provider-store :
        (hash : Bytes) (s : Server) → (become_provider cfg hash s).store ≡ s.store
    unfolding become_provider
    become_provider-store hash s = ground arith

    pub cache_chunk-store :
        (i : ℕ) (hash hex b : Bytes) (s : Server)
        → (cache_chunk sha256 w cfg i hash hex b s).store ≡ (put_chunk sha256 (w.io i) b s.store).1
    unfolding cache_chunk
    cache_chunk-store i hash hex b s = ground (arith)

    store_posted-store :
        (b : Bytes) (s : Server)
        → (store_posted sha256 w cfg b s).1.store ≡ (put_chunk sha256 (w.io 0) b s.store).1
    unfolding store_posted
    store_posted-store b s = ground arith

    get_remote-store :
        (hash hex : Bytes) (s : Server)
        → ((get_remote sha256 w cfg hash hex s).1.store ≡ s.store)
          ⊎ ((b : Bytes) × ((get_remote sha256 w cfg hash hex s).1.store
                ≡ (put_chunk sha256 (w.io 1) b s.store).1))
    unfolding get_remote
    get_remote-store hash hex s =
        let kept = fetch_chunk_from_network-store hash hex s in
        elim (Fetched-cases (fetch_chunk_from_network sha256 w hash hex cfg s).0) [
          | inl e ↦ inl (rw (get_remote, e) kept)
          | inr (inl e) ↦ inl (rw (get_remote, e) kept)
          | inr (inr (b, e)) ↦ inr (
            b,
            rw (get_remote, e)
                (cache_chunk-store 1 hash hex b _
                  ∙ ap (λ (t : ChunkStore). (put_chunk sha256 (w.io 1) b t).1) kept),
          )
        ]

    handle_delete_chunk-store :
        (hex global propagate : Bytes) (s : Server)
        → ((handle_delete_chunk sha256 w cfg hex global propagate s).1.store ≡ s.store)
          ⊎ ((h : Bytes) × (parse_hash hex ≡ some h)
              × ((handle_delete_chunk sha256 w cfg hex global propagate s).1.store
                  ≡ (delete_chunk (w.io 0) h s.store).1))
    unfolding handle_delete_chunk
    handle_delete_chunk-store hex global propagate s = elim (Option-cases (parse_hash hex)) [
      | inl e ↦ inl (rw (handle_delete_chunk, e) refl)
      | inr e ↦ inr (e.0, e.1, ground (arith, e.1))
    ]

module _ (sha256 : Bytes → Bytes) (w : World) (cfg : Settings) (truly : IsTruthful w) where
  -- A request that left the store alone, or made one call of `PutChunk`.
  put_or_kept :
      (i : ℕ) (s t : ChunkStore)
      → (t ≡ s) ⊎ ((b : Bytes) × (t ≡ (put_chunk sha256 (w.io i) b s).1))
      → Reach sha256 s t
  put_or_kept i s t (inl e) = Reach-eq sha256 (sym e)
  put_or_kept i s t (inr (b, e)) = subst (Reach sha256 s) (sym e) (Reach-put sha256 w truly i b s)

  pub handle_post_chunk-Reach :
      (body : Body) (s : Server)
      → Reach sha256 s.store (handle_post_chunk sha256 w cfg body s).1.store
  unfolding handle_post_chunk
  handle_post_chunk-Reach body s =
      put_or_kept 0 s.store _ (elim (Option-cases (read_limited max_chunk body)) [
        | inl e ↦ inl (ground (arith))
        | inr ([], e) ↦ inl (ground (arith))
        | inr (b ∷ bytes, e) ↦ elim (Bool-cases (exceeds body.declared max_chunk)) [
          | inl f ↦ inl (rw (f, handle_post_chunk) refl)
          | inr f ↦ inr (
            b ∷ bytes,
            rw (f, e, handle_post_chunk) (store_posted-store sha256 w cfg (b ∷ bytes) s),
          )
        ]
      ])

  pub handle_get_chunk-Reach :
      (hex remote : Bytes) (s : Server)
      → Reach sha256 s.store (handle_get_chunk sha256 w cfg hex remote s).1.store
  unfolding handle_get_chunk
  handle_get_chunk-Reach hex remote s =
      put_or_kept 1 s.store _ (elim (Option-cases (parse_hash hex)) [
        | inl e ↦ inl (ground arith)
        | inr (h, e) ↦ elim (Option-cases (value_of (get_chunk sha256 (w.io 0) h s.store))) [
          | inr f ↦ inl (ground (arith, e, f.1))
          | inl f ↦ elim (Bool-cases (is_on remote)) [
            | inl r ↦ rw (handle_get_chunk, e, f, r) (get_remote-store sha256 w cfg h hex s)
            | inr r ↦ inl (rw (handle_get_chunk, e, f, r) refl)
          ]
        ]
      ])

  pub handle_delete_chunk-Reach :
      (hex global propagate : Bytes) (s : Server)
      → Reach sha256 s.store (handle_delete_chunk sha256 w cfg hex global propagate s).1.store
  handle_delete_chunk-Reach hex global propagate s =
      elim (handle_delete_chunk-store sha256 w cfg hex global propagate s) [
        | inl e ↦ Reach-eq sha256 (sym e)
        | inr (h, p, e) ↦
            subst (Reach sha256 s.store) (sym e)
              (Reach-delete sha256 w truly 0 h s.store (parse_hash-IsHash hex h p).bytes)
      ]
