-- ===== src/Api/Files.antt =====
-- The handlers of whole files of internal/api/server.go.
pub mod Stream
pub mod Load
pub mod Served
pub mod Kept
pub mod Reload
pub mod RoundTrip
pub mod Deleted
pub mod Streamed
use mini_ipfs.Prelude.{
  ℕ, zero, suc, ◌+◌, ◌*◌, ◌-◌, ◌≡◌, Bool, true, false, not, ◌&&◌, ◌||◌, Option, none, some, List,
  [], ◌∷◌, ◌++◌, ◌==◌, ltb, leb, length, map, eq_bytes, if◌then◌else◌, Bytes, ℤ, pos, negsuc,
  Result, ok, err, panic, running,
}
use mini_ipfs.Hex.{encode_to_string, decode_string}
use mini_ipfs.Dht.Types.{NodeInfo}
use mini_ipfs.Storage.Chunker.{
  Chunker, ChunkInfo, FileManifest, Read, ReadError, no_error, end_of_file, failed, chunk_data,
  reconstruct_data,
}
use mini_ipfs.Storage.Store.{ChunkStore, Faults, put_chunk, get_chunk, delete_chunk}
use mini_ipfs.Net.{advertised_http_addr}
use mini_ipfs.Api.State.{
  Server, Settings, World, ManifestCodec, Body, Answer, Content, Event, aborted, unfinished,
  respond, refuse, emit, announce, with_store, value_of, is_on, is_off, exceeds, read_limited,
  file_info, raw, file_gone, file_stored, file_served, file_deleted, manifest_cached,
}
use mini_ipfs.Api.Fetch.{Fetched, fetched, not_fetched, crashed, fetch_chunk_from_network}
use mini_ipfs.Api.Chunks.{parse_hash, http_addr_or_empty, cache_chunk, ask_providers}

abbrev pub max_file : ℕ
max_file = 100 * 1024 * 1024

abbrev pub info_of : (hash chunk : Bytes) → ChunkInfo
info_of hash chunk = record { hash = hash; size = pos (length chunk) }

abbrev pub manifest_of : Settings → (now : ℤ) → (size : ℕ) → List ChunkInfo → FileManifest
manifest_of cfg now size infos = record {
  original_size = pos size;
  chunk_size = cfg.chunker.chunk_size;
  chunks = infos;
  created_at = now;
}

module _ (sha256 : Bytes → Bytes) where
  -- The loop of `handlePostFile`: every chunk is put, and the entries of the manifest, unless a put
  -- fails.
  unfoldable pub store_chunks :
      (io : ℕ → Faults) (call : ℕ) → List Bytes → ChunkStore → Option (List ChunkInfo) × ChunkStore
  store_chunks io call [] store = (some [], store)
  store_chunks io call (chunk ∷ chunks) store =
      let (stored, store') = put_chunk sha256 (io call) chunk store in
      let (infos, store'') = store_chunks io (suc call) chunks store' in
      elim (value_of stored) [
        | none ↦ (none, store')
        | some hash ↦
            (elim infos [ none ↦ none | some is ↦ some (info_of hash chunk ∷ is) ], store'')
      ]

-- The loop of `handleDeleteFile`: how many chunks were removed.
unfoldable pub delete_chunks :
    (io : ℕ → Faults) (call : ℕ) → List ChunkInfo → ChunkStore → ℕ × ChunkStore
delete_chunks io call [] store = (0, store)
delete_chunks io call (info ∷ infos) store =
    let (deleted, store') = delete_chunk (io call) info.hash store in
    let (removed, store'') = delete_chunks io (suc call) infos store' in
    (elim (value_of deleted) [ none ↦ removed | some _ ↦ removed + 1 ], store'')

-- The calls of `StoreProvider` for the chunks of a manifest.
unfoldable pub announce_all : Bytes → List ChunkInfo → Server → Server
announce_all addr [] s = s
announce_all addr (info ∷ infos) s = announce_all addr infos (announce info.hash addr s)

module _ (sha256 : Bytes → Bytes) (codec : ManifestCodec) (w : World) (cfg : Settings) where
  -- The end of both uploads: the manifest is put and announced as `announce_manifest` does.
  unfoldable pub store_manifest :
      (call : ℕ) (announce_manifest : Bytes → Server → Server) (size : ℕ)
      → FileManifest
      → Server
      → Answer × Server
  store_manifest call announce_manifest size manifest s =
      let bytes = codec.marshal manifest in
      let (stored, store) = put_chunk sha256 (w.io call) bytes s.store in
      elim (value_of stored) [
        | none ↦ (refuse 500, with_store store s)
        | some hash ↦ (
          respond 201
              (file_info (encode_to_string hash) size (length manifest.chunks) (length bytes)),
          emit (file_stored (encode_to_string hash) size (length manifest.chunks) ∷ [])
              (announce_manifest hash (with_store store s)),
        )
      ]

  -- `handlePostFile`, once the chunks are made.
  unfoldable pub store_file : (size : ℕ) → List Bytes → Server → Answer × Server
  unfolding store_manifest announce_all
  store_file size chunks s =
      let (infos, store) = store_chunks sha256 w.io 0 chunks s.store in
      let addr = http_addr_or_empty cfg in
      elim infos [
        | none ↦ (refuse 500, with_store store s)
        | some is ↦
            store_manifest (length chunks) (λ hash. announce hash addr) size
              (manifest_of cfg w.now size is) (announce_all addr is (with_store store s))
      ]

  -- What `handlePostFile` does with the outcome of `ChunkData`.
  abbrev pub chunked : {E : Type 0} → (size : ℕ) → Result E (List Bytes) → Server → Answer × Server
  chunked size (ok chunks) s = store_file size chunks s
  chunked size (err _) s = (refuse 500, s)
  chunked size panic s = (aborted, s)
  chunked size running s = (unfinished, s)

  -- `fuel` bounds the rounds of `ChunkData`.
  unfoldable pub handle_post_file : (fuel : ℕ) → Body → Server → Answer × Server
  unfolding store_file
  handle_post_file fuel body s =
      if exceeds body.declared max_file
      then (refuse 413, s)
      else elim (read_limited max_file body) [
        | none ↦ (refuse 400, s)
        | some [] ↦ (refuse 400, s)
        | some (b ∷ bytes) ↦
            chunked (length (b ∷ bytes)) (chunk_data fuel cfg.chunker (b ∷ bytes)) s
      ]
