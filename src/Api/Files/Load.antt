-- ===== src/Api/Files/Load.antt =====
-- `handleGetFile` and `handleDeleteFile` of internal/api/server.go.
use mini_ipfs.Prelude.{
  ℕ, suc, ◌+◌, Bool, not, ◌&&◌, Option, none, some, List, [], ◌∷◌, ltb, length, if◌then◌else◌,
  Bytes, Result, ok, err, panic, running,
}
use mini_ipfs.Hex.{encode_to_string}
use mini_ipfs.Storage.Chunker.{ChunkInfo, FileManifest, reconstruct_data}
use mini_ipfs.Storage.Store.{put_chunk, get_chunk, delete_chunk}
use mini_ipfs.Api.State.{
  Server, Settings, World, ManifestCodec, Answer, aborted, unfinished, respond, refuse, emit,
  with_store, value_of, is_on, is_off, raw, file_gone, file_served, file_deleted, manifest_cached,
}
use mini_ipfs.Api.Fetch.{fetched, not_fetched, crashed, fetch_chunk_from_network}
use mini_ipfs.Api.Chunks.{parse_hash, cache_chunk, ask_providers}
use mini_ipfs.Api.Files.{delete_chunks}

-- What a handler loaded, or the answer that it gives instead.
pub data Loaded {ℓ} (A : Type ℓ) : Type ℓ where
  loaded : A → Loaded A
  stopped : Answer → Loaded A

-- One more chunk in front of those that the later rounds load.
abbrev pub prepend_loaded : Bytes → Loaded (List Bytes) × Server → Loaded (List Bytes) × Server
prepend_loaded chunk (loaded chunks, s) = (loaded (chunk ∷ chunks), s)
prepend_loaded chunk (stopped a, s) = (stopped a, s)

module _ (sha256 : Bytes → Bytes) (w : World) (cfg : Settings) where
  -- What `handleGetFile` does with a manifest from the network.
  unfoldable pub cache_manifest : (manifest_hex bytes : Bytes) → Server → Server
  cache_manifest manifest_hex bytes s =
      emit (manifest_cached manifest_hex ∷ [])
        (with_store (put_chunk sha256 (w.io 1) bytes s.store).1 s)

  unfoldable pub load_manifest :
      (hash manifest_hex : Bytes) → (remote : Bool) → Server → Loaded Bytes × Server
  unfolding cache_manifest
  load_manifest hash manifest_hex remote s =
      elim (value_of (get_chunk sha256 (w.io 0) hash s.store)) [
        | some bytes ↦ (loaded bytes, s)
        | none ↦
            let (result, s') = fetch_chunk_from_network sha256 w hash manifest_hex cfg s in
            if remote
            then (elim result [
              | crashed ↦ (stopped aborted, s')
              | not_fetched ↦ (stopped (refuse 404), s')
              | fetched bytes ↦ (loaded bytes, cache_manifest manifest_hex bytes s')
            ])
            else (stopped (refuse 404), s)
      ]

  -- The loop of `handleGetFile` over the chunks of the manifest. Where a chunk is not found, the
  -- first 16 digits of its hash go to the log, and a shorter hash panics.
  unfoldable pub load_chunks :
      (remote : Bool) (call : ℕ) → List ChunkInfo → Server → Loaded (List Bytes) × Server
  load_chunks remote call [] s = (loaded [], s)
  load_chunks remote call (info ∷ infos) s =
      elim (value_of (get_chunk sha256 (w.io call) info.hash s.store)) [
        | some bytes ↦ prepend_loaded bytes (load_chunks remote (suc (suc call)) infos s)
        | none ↦
            let (result, s') =
              fetch_chunk_from_network sha256 w info.hash (encode_to_string info.hash) cfg s in
            if remote
            then (elim result [
              | crashed ↦ (stopped aborted, s')
              | not_fetched ↦ (
                stopped
                    (if ltb (length (encode_to_string info.hash)) 16 then aborted else refuse 404),
                s',
              )
              | fetched bytes ↦ prepend_loaded bytes (
                  load_chunks remote (suc (suc call)) infos (
                    cache_chunk sha256 w cfg (suc call) info.hash (encode_to_string info.hash) bytes
                      s'))
            ])
            else (stopped (refuse 404), s)
      ]

  -- The manifest that `handleDeleteFile` works by; one from the network is not kept.
  unfoldable pub find_manifest :
      (hash manifest_hex : Bytes) → (remote : Bool) → Server → Loaded Bytes × Server
  find_manifest hash manifest_hex remote s =
      elim (value_of (get_chunk sha256 (w.io 0) hash s.store)) [
        | some bytes ↦ (loaded bytes, s)
        | none ↦
            let (result, s') = fetch_chunk_from_network sha256 w hash manifest_hex cfg s in
            if remote
            then (elim result [
              | crashed ↦ (stopped aborted, s')
              | not_fetched ↦ (stopped (refuse 404), s')
              | fetched bytes ↦ (loaded bytes, s')
            ])
            else (stopped (refuse 404), s)
      ]

-- The end of `handleGetFile`.
abbrev pub serve_file :
    {E : Type 0}
    → (manifest_hex : Bytes) (remote : Bool) (chunks : ℕ) → Result E Bytes
    → Server
    → Answer × Server
serve_file manifest_hex remote chunks (ok bytes) s =
    (respond 200 (raw bytes), emit (file_served manifest_hex chunks (length bytes) remote ∷ []) s)
serve_file manifest_hex remote chunks (err _) s = (refuse 500, s)
serve_file manifest_hex remote chunks panic s = (aborted, s)
serve_file manifest_hex remote chunks running s = (unfinished, s)

module _ (sha256 : Bytes → Bytes) where
  abbrev pub rebuild :
      (manifest_hex : Bytes) (remote : Bool)
      → FileManifest
      → Loaded (List Bytes) × Server
      → Answer × Server
  rebuild manifest_hex remote manifest (stopped a, s) = (a, s)
  rebuild manifest_hex remote manifest (loaded chunks, s) =
      serve_file manifest_hex remote (length manifest.chunks)
        (reconstruct_data sha256 chunks manifest) s

-- The end of `handleDeleteFile`.
abbrev pub file_deleted_answer :
    (manifest_hex : Bytes) (removed total : ℕ)
    → Option (ℕ × ℕ)
    → Option (ℕ × ℕ)
    → Server
    → Answer × Server
file_deleted_answer manifest_hex removed total none chunks s = (aborted, s)
file_deleted_answer manifest_hex removed total (some _) none s = (aborted, s)
file_deleted_answer manifest_hex removed total (some (contacted, deleted))
      (some (chunk_contacted, chunk_deleted)) s =
    (
      respond 200 (file_gone removed total contacted deleted chunk_contacted chunk_deleted),
      emit
          (file_deleted manifest_hex removed total contacted deleted chunk_contacted chunk_deleted
            ∷ [])
          s,
    )

module _ (w : World) (cfg : Settings) where
  -- The deletions that are asked of the providers of the chunks.
  unfoldable pub ask_chunk_providers : List ChunkInfo → Server → Option (ℕ × ℕ)
  ask_chunk_providers [] s = some (0, 0)
  ask_chunk_providers (info ∷ infos) s =
      let rest = ask_chunk_providers infos s in
      elim (ask_providers w (λ addr. w.delete_chunk addr (encode_to_string info.hash)) cfg info.hash
        s) [
          | none ↦ none
          | some (contacted, deleted) ↦ elim rest [
            | none ↦ none
            | some (c, d) ↦ some (contacted + c, deleted + d)
          ]
        ]

module _ (sha256 : Bytes → Bytes) (codec : ManifestCodec) (w : World) (cfg : Settings) where
  -- `handleGetFile`, once the manifest's bytes are there.
  unfoldable pub get_by_manifest :
      (manifest_hex : Bytes) (remote : Bool) → Loaded Bytes × Server → Answer × Server
  unfolding load_chunks
  get_by_manifest manifest_hex remote (stopped a, s) = (a, s)
  get_by_manifest manifest_hex remote (loaded bytes, s) = elim (codec.unmarshal bytes) [
    | none ↦ (refuse 400, s)
    | some manifest ↦
        rebuild sha256 manifest_hex remote manifest
          (load_chunks sha256 w cfg remote 2 manifest.chunks s)
  ]

  unfoldable pub handle_get_file : (manifest_hex remote : Bytes) → Server → Answer × Server
  unfolding load_manifest get_by_manifest
  handle_get_file manifest_hex remote s = elim (parse_hash manifest_hex) [
    | none ↦ (refuse 400, s)
    | some hash ↦
        get_by_manifest manifest_hex (is_on remote)
          (load_manifest sha256 w cfg hash manifest_hex (is_on remote) s)
  ]

  -- `handleDeleteFile`, once the manifest's bytes are there.
  unfoldable pub delete_by_manifest :
      (hash manifest_hex : Bytes) (everywhere : Bool) → Loaded Bytes × Server → Answer × Server
  delete_by_manifest hash manifest_hex everywhere (stopped a, s) = (a, s)
  delete_by_manifest hash manifest_hex everywhere (loaded bytes, s) = elim (codec.unmarshal bytes) [
    | none ↦ (refuse 400, s)
    | some manifest ↦
        let (removed, store) = delete_chunks w.io 1 manifest.chunks s.store in
        let s' = with_store (delete_chunk (w.io (suc (length manifest.chunks))) hash store).1 s in
        file_deleted_answer manifest_hex removed (length manifest.chunks)
          (if everywhere
            then ask_providers w (λ addr. w.delete_file addr manifest_hex) cfg hash s'
            else some (0, 0))
          (if everywhere then ask_chunk_providers w cfg manifest.chunks s' else some (0, 0)) s'
  ]

  unfoldable pub handle_delete_file :
      (manifest_hex remote global propagate : Bytes) → Server → Answer × Server
  unfolding find_manifest delete_by_manifest
  handle_delete_file manifest_hex remote global propagate s = elim (parse_hash manifest_hex) [
    | none ↦ (refuse 400, s)
    | some hash ↦
        delete_by_manifest hash manifest_hex (is_on global && not (is_off propagate))
          (find_manifest sha256 w cfg hash manifest_hex (is_on remote) s)
  ]
