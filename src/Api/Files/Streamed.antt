-- ===== src/Api/Files/Streamed.antt =====
-- An upload as a stream does the same as an upload at once.
use mini_ipfs.Prelude.{
  ℕ, zero, suc, ◌≡◌, ◌<◌, ◌≤◌, refl, ap, false, some, List, [], ◌∷◌, length, length-append, concat,
  All, Bytes, ◌==◌, lt→ltb, ok, pos, arith,
}
use mini_ipfs.Storage.Chunker.{chunk_data}
use mini_ipfs.Storage.Chunker.Split.{chunk_data-IsSplit}
use mini_ipfs.Storage.Store.{ChunkStore, no_faults, put_chunk}
use mini_ipfs.Storage.Store.Paths.{IsDigest}
use mini_ipfs.Storage.Store.Contents.PutGet.{put_chunk_succeeds}
use mini_ipfs.Api.State.{
  Server, Settings, World, ManifestCodec, Body, announce, with_store, exceeds,
}
use mini_ipfs.Api.Chunks.{http_addr_or_empty}
use mini_ipfs.Api.Files.{
  max_file, store_chunks, announce_all, store_manifest, store_file, handle_post_file, manifest_of,
}
use mini_ipfs.Api.Files.Stream.{
  ReadStatus, going, ended, whole, stream_loop, handle_post_file_stream,
}
use mini_ipfs.Api.Files.Reload.{infos_of}
use mini_ipfs.Api.Files.RoundTrip.{handle_post_file-store_file, IsSplit-nonempty}

-- The reads of a body that bring one chunk each, and then its end.
pub reads_of : List Bytes → List (Bytes × ReadStatus)
reads_of [] = ([], ended) ∷ []
reads_of (c ∷ cs) = (c, going) ∷ reads_of cs

module _ (sha256 : Bytes → Bytes) (digest : IsDigest sha256) (w : World)
    (working : (i : ℕ) → w.io i ≡ no_faults) where
  pub store_chunks-some :
      (call : ℕ) (chunks : List Bytes) (s : ChunkStore)
      → All (λ c. 0 < length c) chunks
      → (store_chunks sha256 w.io call chunks s).0 ≡ some (infos_of sha256 chunks)
  unfolding store_chunks
  store_chunks-some call [] s v = refl
  store_chunks-some call (c ∷ cs) s v =
      let rest = store_chunks-some (suc call) cs (put_chunk sha256 no_faults c s).1 v.1 in
      rw (store_chunks, working call, put_chunk_succeeds sha256 digest c s v.0, working call, rest)
        refl

  stream_loop-reads_of :
      (b : ℕ) (addr : Bytes) (call : ℕ) (chunks : List Bytes) (s : Server)
      → All (λ c. 0 < length c) chunks
      → stream_loop sha256 w (b ∷ addr) call (reads_of chunks) s ≡ (
        whole (infos_of sha256 chunks) (length (concat chunks)),
        announce_all
            (b ∷ addr)
            (infos_of sha256 chunks)
            (with_store (store_chunks sha256 w.io call chunks s.store).1 s),
      )
  unfolding stream_loop reads_of store_chunks announce_all
  stream_loop-reads_of b addr call [] s v = refl
  stream_loop-reads_of b addr call (c ∷ cs) s v =
      let stored = put_chunk_succeeds sha256 digest c s.store v.0 in
      let s' =
        announce (sha256 c) (b ∷ addr) (with_store (put_chunk sha256 no_faults c s.store).1 s) in
      let rest = stream_loop-reads_of b addr (suc call) cs s' v.1 in
      rw
        (
          stream_loop,
          store_chunks,
          working call,
          lt→ltb 0 (length c) v.0,
          stored,
          working call,
          rest,
          length-append c (concat cs),
        )
        refl

  pos→==0 : (n : ℕ) → 0 < n → (n == 0) ≡ false
  pos→==0 zero h = absurd (omega arith)
  pos→==0 (suc n) h = ground arith

  module _ (codec : ManifestCodec) (cfg : Settings) where
    store_streamed-store_file :
        (b : ℕ) (addr : Bytes) (chunks : List Bytes) (s : Server)
        → http_addr_or_empty cfg ≡ b ∷ addr
        → All (λ c. 0 < length c) chunks
        → 0 < length (concat chunks)
        → (size : ℕ) → cfg.chunker.chunk_size ≡ pos size
        → handle_post_file_stream sha256 codec w cfg (reads_of chunks) s
          ≡ store_file sha256 codec w cfg (length (concat chunks)) chunks s
    unfolding handle_post_file_stream store_file store_manifest
    store_streamed-store_file b addr chunks s known nonempty some_bytes size sized =
        let loop = stream_loop-reads_of b addr 0 chunks s nonempty in
        let listed = store_chunks-some 0 chunks s.store nonempty in
        let infos = infos_of sha256 chunks in
        let stored =
          put_chunk_succeeds sha256 digest
            (codec.marshal (manifest_of cfg w.now (length (concat chunks)) infos))
            (announce_all (b ∷ addr) infos
              (with_store (store_chunks sha256 w.io 0 chunks s.store).1 s)).store
            (codec.marshal-nonempty _) in
        let nonzero : (length (concat chunks) == 0) ≡ false =
          pos→==0 (length (concat chunks)) some_bytes in
        rw
          (
            handle_post_file_stream,
            sized,
            known,
            loop,
            store_file,
            listed,
            nonzero,
            store_manifest,
            known,
            working (length (reads_of chunks)),
            working (length chunks),
            stored,
          )
          (rw (working (length (reads_of chunks)), working (length chunks), known) refl)

    -- With a positive chunk size and enough fuel, an upload as a stream whose reads bring the chunks of
    -- `ChunkData` answers and leaves the server as the upload of the same bytes at once does, if the node
    -- knows its HTTP address, the operating system refuses nothing, and the body is whole, not empty and
    -- under the limit.
    pub handle_post_file_stream-handle_post_file :
        (fuel size : ℕ) (body : Body) (b : ℕ) (addr : Bytes) (chunks : List Bytes) (s : Server)
        → 0 < size
        → cfg.chunker ≡ record { chunk_size = pos size }
        → length body.bytes < fuel
        → exceeds body.declared max_file ≡ false
        → body.broken ≡ false
        → 0 < length body.bytes
        → length body.bytes ≤ max_file
        → http_addr_or_empty cfg ≡ b ∷ addr
        → chunk_data fuel cfg.chunker body.bytes ≡ ok chunks
        → handle_post_file_stream sha256 codec w cfg (reads_of chunks) s
          ≡ handle_post_file sha256 codec w cfg fuel body s
    handle_post_file_stream-handle_post_file fuel size body b addr chunks s z sized enough declared
          unbroken some_bytes fits known split =
        let (cs, split', same, shape) = chunk_data-IsSplit fuel size body.bytes z enough in
        let split'' : chunk_data fuel cfg.chunker body.bytes ≡ ok cs = rw sized split' in
        let equal : cs ≡ chunks = cc (split, split'') in
        let whole_body : concat chunks ≡ body.bytes = rw (← equal) same in
        let nonempty : All (λ c. 0 < length c) chunks =
          rw (← equal) (IsSplit-nonempty size cs z shape) in
        rw
          (
            handle_post_file-store_file sha256 digest codec w cfg fuel body chunks s declared
                unbroken some_bytes fits split,
            ← whole_body,
          )
          (store_streamed-store_file b addr chunks s known nonempty (rw whole_body some_bytes) size
            (ap (λ c. c.chunk_size) sized))
