-- ===== src/Api/Chunks.antt =====
-- The handlers of single chunks of internal/api/server.go.
pub mod Laws
use mini_ipfs.Prelude.{
  ℕ, zero, suc, ◌+◌, ◌*◌, ◌≡◌, Bool, true, false, not, ◌&&◌, ◌||◌, Option, none, some, List, [],
  ◌∷◌, ◌++◌, ◌==◌, ltb, leb, length, eq_bytes, if◌then◌else◌, Bytes, Result, ok, err, panic,
  running,
}
use mini_ipfs.Hex.{encode_to_string, decode_string}
use mini_ipfs.Dht.Types.{NodeInfo}
use mini_ipfs.Dht.Rpc.{StoreFailure}
use mini_ipfs.Dht.Providers.{find_providers}
use mini_ipfs.Storage.Store.{ChunkStore, Faults, put_chunk, get_chunk, delete_chunk}
use mini_ipfs.Net.{advertised_http_addr}
use mini_ipfs.Api.State.{
  Server, Settings, World, Body, Answer, Content, Event, aborted, respond, refuse, emit, announce,
  with_store, value_of, is_on, is_off, exceeds, read_limited, Reply, no_request, failed, replied,
  chunk_info, raw, chunk_gone, chunk_stored, chunk_deleted, chunk_cached,
}
use mini_ipfs.Api.Fetch.{
  Fetched, fetched, not_fetched, crashed, provider_http, fetch_chunk_from_network,
}

-- A hash of 64 hexadecimal digits.
unfoldable pub parse_hash : Bytes → Option Bytes
parse_hash hash_hex = if length hash_hex == 64 then decode_string hash_hex else none

-- `httpAddr` where the error is only logged.
abbrev pub http_addr_or_empty : Settings → Bytes
http_addr_or_empty cfg = elim (advertised_http_addr cfg.advertise_host cfg.http_addr) [
  | none ↦ []
  | some addr ↦ addr
]

abbrev pub max_chunk : ℕ
max_chunk = 10 * 1024 * 1024

-- The call of `StoreProvider` that a node makes where it knows its HTTP address.
unfoldable pub become_provider : Settings → Bytes → Server → Server
become_provider cfg hash s = elim (advertised_http_addr cfg.advertise_host cfg.http_addr) [
  | none ↦ s
  | some addr ↦ announce hash addr s
]

abbrev is_success : ℕ → Bool
is_success status = leb 200 status && ltb status 300

-- One provider more was asked, and more or less answered with success.
abbrev pub count_reply : Reply → Option (ℕ × ℕ) → Option (ℕ × ℕ)
count_reply no_request counts = none
count_reply failed none = none
count_reply failed (some (contacted, deleted)) = some (contacted + 1, deleted)
count_reply (replied status) none = none
count_reply (replied status) (some (contacted, deleted)) =
    some (contacted + 1, if is_success status then deleted + 1 else deleted)

-- The deletions that a handler asks of the providers: how many were asked, and how many did it,
-- unless it panics.
unfoldable pub ask_to_delete :
    (delete : Bytes → Reply) → (self : Bytes) → List NodeInfo → Option (ℕ × ℕ)
ask_to_delete delete self [] = some (0, 0)
ask_to_delete delete self (p ∷ providers) =
    let counts = ask_to_delete delete self providers in
    if ltb 0 (length p.id) && ltb 0 (length self) && eq_bytes p.id self
    then counts
    else elim (provider_http p) [ none ↦ counts | some addr ↦ count_reply (delete addr) counts ]

-- The same for one hash, by the providers that `FindProviders` names.
unfoldable pub ask_providers :
    World → (delete : Bytes → Reply) → Settings → Bytes → Server → Option (ℕ × ℕ)
ask_providers w delete cfg hash s =
    elim (find_providers {E = StoreFailure} (w.ask hash) cfg.k hash s.node.table s.node.providers) [
      | ok providers ↦ ask_to_delete delete s.node.table.self.id providers
      | err _ ↦ some (0, 0)
      | panic ↦ none
      | running ↦ none
    ]

module _ (sha256 : Bytes → Bytes) (w : World) (cfg : Settings) where
  -- `handlePostChunk`, once the body is read.
  unfoldable pub store_posted : Bytes → Server → Answer × Server
  store_posted bytes s =
      let (stored, store) = put_chunk sha256 (w.io 0) bytes s.store in
      elim (value_of stored) [
        | none ↦ (refuse 500, with_store store s)
        | some hash ↦ (
          respond 201 (chunk_info (encode_to_string hash) (length bytes)),
          emit (chunk_stored (encode_to_string hash) (length bytes) ∷ [])
              (announce hash (http_addr_or_empty cfg) (with_store store s)),
        )
      ]

  unfoldable pub handle_post_chunk : Body → Server → Answer × Server
  unfolding store_posted
  handle_post_chunk body s =
      if exceeds body.declared max_chunk
      then (refuse 413, s)
      else elim (read_limited max_chunk body) [
        | none ↦ (refuse 400, s)
        | some [] ↦ (refuse 400, s)
        | some (b ∷ bytes) ↦ store_posted (b ∷ bytes) s
      ]

  -- What both file and chunk handlers do with a chunk from the network: it is kept, and if that
  -- works the node becomes a provider.
  unfoldable pub cache_chunk : (call : ℕ) (hash hash_hex bytes : Bytes) → Server → Server
  unfolding become_provider
  cache_chunk call hash hash_hex bytes s =
      let (stored, store) = put_chunk sha256 (w.io call) bytes s.store in
      elim (value_of stored) [
        | none ↦ with_store store s
        | some _ ↦ become_provider cfg hash (emit (chunk_cached hash_hex ∷ []) (with_store store s))
      ]

  -- `handleGetChunk`, after the store had no answer.
  unfoldable pub get_remote : (hash hash_hex : Bytes) → Server → Answer × Server
  unfolding cache_chunk
  get_remote hash hash_hex s =
      let (result, s') = fetch_chunk_from_network sha256 w hash hash_hex cfg s in
      elim result [
        | crashed ↦ (aborted, s')
        | not_fetched ↦ (refuse 404, s')
        | fetched bytes ↦ (respond 200 (raw bytes), cache_chunk 1 hash hash_hex bytes s')
      ]

  unfoldable pub handle_get_chunk : (hash_hex remote : Bytes) → Server → Answer × Server
  unfolding get_remote
  handle_get_chunk hash_hex remote s = elim (parse_hash hash_hex) [
    | none ↦ (refuse 400, s)
    | some hash ↦ elim (value_of (get_chunk sha256 (w.io 0) hash s.store)) [
      | some bytes ↦ (respond 200 (raw bytes), s)
      | none ↦ if is_on remote then get_remote hash hash_hex s else (refuse 404, s)
    ]
  ]

  -- The end of `handleDeleteChunk`: its answer and event.
  abbrev chunk_deleted_answer : Bytes → Server → Option (ℕ × ℕ) → Answer × Server
  chunk_deleted_answer hash_hex s none = (aborted, s)
  chunk_deleted_answer hash_hex s (some (contacted, deleted)) = (
    respond 200 (chunk_gone contacted deleted),
    emit (chunk_deleted hash_hex contacted deleted ∷ []) s,
  )

  unfoldable pub handle_delete_chunk :
      (hash_hex global propagate : Bytes) → Server → Answer × Server
  unfolding ask_providers
  handle_delete_chunk hash_hex global propagate s = elim (parse_hash hash_hex) [
    | none ↦ (refuse 400, s)
    | some hash ↦
        let s' = with_store (delete_chunk (w.io 0) hash s.store).1 s in
        chunk_deleted_answer hash_hex s' (
          if is_on global && not (is_off propagate)
          then ask_providers w (λ addr. w.delete_chunk addr hash_hex) cfg hash s'
          else some (0, 0))
  ]
