-- ===== src/Api/Files/Stream.antt =====
-- `handlePostFileStream` of internal/api/server.go.
use mini_ipfs.Prelude.{
  ℕ, suc, ◌+◌, none, some, List, [], ◌∷◌, ◌==◌, ltb, length, if◌then◌else◌, Bytes, pos, negsuc,
}
use mini_ipfs.Storage.Chunker.{ChunkInfo}
use mini_ipfs.Storage.Store.{put_chunk}
use mini_ipfs.Api.State.{
  Server, Settings, World, ManifestCodec, Answer, aborted, unfinished, refuse, announce, with_store,
  value_of,
}
use mini_ipfs.Api.Chunks.{http_addr_or_empty}
use mini_ipfs.Api.Files.{info_of, manifest_of, store_manifest}

-- With what a `Read` of the body ends: no error, the end, the limit of `MaxBytesReader`, another error.
pub data ReadStatus : Type 0 where
  going ended too_large broken : ReadStatus

-- How the loop ends: with the entries and the size of the manifest, or with an answer.
pub data Streamed : Type 0 where
  whole : List ChunkInfo → ℕ → Streamed
  stopped : Answer → Streamed

abbrev pub add_entry : (hash chunk : Bytes) → Streamed → Streamed
add_entry hash chunk (whole infos size) = whole (info_of hash chunk ∷ infos) (length chunk + size)
add_entry hash chunk (stopped a) = stopped a

abbrev pub announce_if_known : Bytes → Bytes → Server → Server
announce_if_known [] hash s = s
announce_if_known (c ∷ addr) hash s = announce hash (c ∷ addr) s

-- What follows a read: the later rounds, the end, or an answer.
abbrev pub after_read : ReadStatus → (Server → Streamed × Server) → Server → Streamed × Server
after_read going more s = more s
after_read ended more s = (whole [] 0, s)
after_read too_large more s = (stopped (refuse 413), s)
after_read broken more s = (stopped (refuse 400), s)

module _ (sha256 : Bytes → Bytes) (w : World) (addr : Bytes) where
  -- The loop over the reads of the body.
  unfoldable pub stream_loop : (call : ℕ) → List (Bytes × ReadStatus) → Server → Streamed × Server
  stream_loop call [] s = (stopped unfinished, s)
  stream_loop call ((got, status) ∷ reads) s =
      let (stored, store) = put_chunk sha256 (w.io call) got s.store in
      let next = after_read status (stream_loop (suc call) reads) in
      let put : Streamed × Server = elim (value_of stored) [
        | none ↦ (stopped (refuse 500), with_store store s)
        | some hash ↦
            let (rest, s') = next (announce_if_known addr hash (with_store store s)) in
            (add_entry hash got rest, s')
      ] in
      if ltb 0 (length got) then put else next s

module _ (sha256 : Bytes → Bytes) (codec : ManifestCodec) (w : World) (cfg : Settings) where
  -- `handlePostFileStream` after the loop.
  abbrev pub store_streamed : (calls : ℕ) → Streamed × Server → Answer × Server
  store_streamed calls (stopped a, s) = (a, s)
  store_streamed calls (whole infos size, s) =
      if size == 0
      then (refuse 400, s)
      else store_manifest sha256 codec w cfg calls (announce_if_known (http_addr_or_empty cfg)) size
          (manifest_of cfg w.now size infos) s

  -- `make([]byte, chunkSize)` panics for a negative size.
  unfoldable pub handle_post_file_stream : List (Bytes × ReadStatus) → Server → Answer × Server
  unfolding stream_loop store_manifest
  handle_post_file_stream reads s = elim cfg.chunker.chunk_size [
    | negsuc _ ↦ (aborted, s)
    | pos _ ↦
        store_streamed (length reads) (stream_loop sha256 w (http_addr_or_empty cfg) 0 reads s)
  ]
