-- ===== src/Api/Chunks/Laws.antt =====
-- How `handleGetChunk` and `handlePostChunk` answer.
use mini_ipfs.Prelude.{
  ◌≡◌, refl, ◌⊎◌, inl, inr, true, none, some, List, ◌∷◌, ◌++◌, ◌==◌, ==_iff, length, Bytes,
  Bool-cases, Option-cases, ok, arith,
}
use mini_ipfs.Hex.RoundTrip.{decode_string-IsBytes}
use mini_ipfs.Dht.Types.{NodeInfo}
use mini_ipfs.Dht.Rpc.{StoreFailure}
use mini_ipfs.Dht.Providers.{find_providers}
use mini_ipfs.Storage.Store.{get_chunk}
use mini_ipfs.Storage.Store.Paths.{IsHash, IsDigest}
use mini_ipfs.Api.State.{Server, Settings, World, Answer, refuse, respond, raw, value_of, is_on}
use mini_ipfs.Api.Fetch.{fetch_chunk_from_network}
use mini_ipfs.Api.Fetch.Laws.{
  Fetched-cases, fetch_chunk_from_network-ne-crashed, Serves, value_of-get_chunk,
  fetch_chunk_from_network_sound, fetch_chunk_from_network-Serves,
}
use mini_ipfs.Api.Chunks.{parse_hash, get_remote, handle_get_chunk}

pub parse_hash-length : (hex h : Bytes) → parse_hash hex ≡ some h → length hex ≡ 64
unfolding parse_hash
parse_hash-length hex h e = elim (Bool-cases (length hex == 64)) [
  | inr f ↦ cc (rw f at e)
  | inl f ↦ (==_iff (length hex) 64).0 f
]

pub parse_hash-IsHash : (hex h : Bytes) → parse_hash hex ≡ some h → IsHash h
unfolding parse_hash
parse_hash-IsHash hex h e = elim (Bool-cases (length hex == 64)) [
  | inr f ↦ cc (rw f at e)
  | inl f ↦
      let (small, long) = decode_string-IsBytes hex h (rw f at e) in
      let whole = (==_iff (length hex) 64).0 f in record { bytes = small; size = omega arith }
]

module _ (sha256 : Bytes → Bytes) where
  -- The answers to a request for the chunk of a hash.
  pub data ChunkAnswer (hash : Bytes) : Answer → Type 0 where
    served : (b : Bytes) → sha256 b ≡ hash → ChunkAnswer hash (respond 200 (raw b))
    missing : ChunkAnswer hash (refuse 404)

module _ (sha256 : Bytes → Bytes) (w : World) (cfg : Settings) where
  get_remote-ChunkAnswer :
      (hash hex : Bytes) (s : Server)
      → parse_hash hex ≡ some hash
      → ChunkAnswer sha256 hash (get_remote sha256 w cfg hash hex s).0
  unfolding get_remote
  get_remote-ChunkAnswer hash hex s p =
      elim (Fetched-cases (fetch_chunk_from_network sha256 w hash hex cfg s).0) [
        | inl e ↦ absurd (
            fetch_chunk_from_network-ne-crashed sha256 w hash hex cfg s
              (omega (arith, (parse_hash-IsHash hex hash p).size))
              (omega (arith, parse_hash-length hex hash p)) e)
        | inr (inl e) ↦ rw (get_remote, e) missing
        | inr (inr (b, e)) ↦
            rw (get_remote, e)
              (served b (fetch_chunk_from_network_sound sha256 w hash hex cfg s b e))
      ]

  -- A request for a chunk whose hash is no 64 hexadecimal digits is refused with 400 and changes
  -- nothing. Any other is answered: with bytes of that hash, whether they come from the store or from a
  -- provider and whatever either holds, or with 404.
  pub handle_get_chunk-ChunkAnswer :
      (hex remote : Bytes) (s : Server)
      → IsDigest sha256
      → ((parse_hash hex ≡ none) × (handle_get_chunk sha256 w cfg hex remote s ≡ (refuse 400, s)))
        ⊎ ((hash : Bytes) × (parse_hash hex ≡ some hash)
            × ChunkAnswer sha256 hash (handle_get_chunk sha256 w cfg hex remote s).0)
  unfolding handle_get_chunk
  handle_get_chunk-ChunkAnswer hex remote s digest = elim (Option-cases (parse_hash hex)) [
    | inl e ↦ inl (e, rw (handle_get_chunk, e) refl)
    | inr (hash, e) ↦ inr (
      hash,
      e,
      elim (Option-cases (value_of (get_chunk sha256 (w.io 0) hash s.store))) [
        | inr (b, f) ↦
            rw (handle_get_chunk, e, f)
              (served b (value_of-get_chunk sha256 w 0 hash b s.store digest f))
        | inl f ↦ elim (Bool-cases (is_on remote)) [
          | inl r ↦ rw (handle_get_chunk, e, f, r) (get_remote-ChunkAnswer hash hex s e)
          | inr r ↦ rw (handle_get_chunk, e, f, r) missing
        ]
      ],
    )
  ]

  -- If one of the providers that `FindProviders` names serves the chunk, a request that allows remote
  -- chunks is answered with bytes of that hash, whatever the other providers do.
  pub handle_get_chunk-Serves :
      (hex remote hash : Bytes) (s : Server) (before after : List NodeInfo) (p : NodeInfo)
      → IsDigest sha256
      → parse_hash hex ≡ some hash
      → is_on remote ≡ true
      → find_providers {E = StoreFailure} (w.ask hash) cfg.k hash s.node.table s.node.providers
        ≡ ok (before ++ (p ∷ after))
      → Serves sha256 w hash hex p
      → (b : Bytes) × ((handle_get_chunk sha256 w cfg hex remote s).0 ≡ respond 200 (raw b))
        × (sha256 b ≡ hash)
  unfolding handle_get_chunk get_remote
  handle_get_chunk-Serves hex remote hash s before after p digest e r listed v =
      elim (Option-cases (value_of (get_chunk sha256 (w.io 0) hash s.store))) [
        | inr (b, f) ↦ (
          b,
          rw (handle_get_chunk, e, f) refl,
          value_of-get_chunk sha256 w 0 hash b s.store digest f,
        )
        | inl f ↦
            let (b, got) =
              fetch_chunk_from_network-Serves sha256 w hash hex cfg s before after p
                (omega (arith, parse_hash-length hex hash e)) listed v in
            (
              b,
              rw (handle_get_chunk, get_remote, e, f, r, got) refl,
              fetch_chunk_from_network_sound sha256 w hash hex cfg s b got,
            )
      ]
