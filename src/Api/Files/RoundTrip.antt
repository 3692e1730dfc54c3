-- ===== src/Api/Files/RoundTrip.antt =====
-- A file that was uploaded is served again.
use mini_ipfs.Prelude.{
  ℕ, ◌≡◌, ◌<◌, ◌≤◌, refl, ap, inl, inr, false, some, List, [], ◌∷◌, length, take-all, concat, All,
  Bytes, Bool-cases, leb, ok, arith, pos,
}
use mini_ipfs.Hex.{encode_to_string}
use mini_ipfs.Storage.Chunker.{chunk_data}
use mini_ipfs.Storage.Chunker.Split.{IsSplit, chunk_data-IsSplit}
use mini_ipfs.Storage.Store.{ChunkStore, no_faults, put_chunk}
use mini_ipfs.Storage.Store.Paths.{IsDigest}
use mini_ipfs.Storage.Store.Contents.PutGet.{put_chunk_succeeds}
use mini_ipfs.Api.State.{
  Server, Settings, World, ManifestCodec, Body, respond, raw, file_info, exceeds, read_limited,
  with_store,
}
use mini_ipfs.Api.Chunks.{http_addr_or_empty}
use mini_ipfs.Api.Files.{max_file, store_chunks, store_manifest, store_file, handle_post_file}
use mini_ipfs.Api.Files.Load.{handle_get_file}
use mini_ipfs.Api.Steps.Uploads.{announce_all-store}
use mini_ipfs.Api.Files.Kept.{
  NoCollision, HoldsOnly, IsKept, store_chunks-Uploaded, put_chunk-IsKept, put_chunk-IsKept_still,
}
use mini_ipfs.Api.Files.Reload.{infos_of, manifest_for, length-infos_of, handle_get_file-IsKept}

read_limited_all :
    (max : ℕ) (body : Body)
    → body.broken ≡ false
    → length body.bytes ≤ max
    → read_limited max body ≡ some body.bytes
unfolding read_limited
read_limited_all max body unbroken fits = elim (Bool-cases (leb max (length body.bytes))) [
  | inl e ↦ rw e (ap some (take-all max body.bytes fits))
  | inr e ↦ rw (e, unbroken) refl
]

pub IsSplit-nonempty :
    (size : ℕ) (chunks : List Bytes)
    → 0 < size
    → IsSplit size chunks
    → All (λ c. 0 < length c) chunks
IsSplit-nonempty size [] z v = tt
IsSplit-nonempty size (c ∷ []) z v = (v.0, tt)
IsSplit-nonempty size (c ∷ d ∷ cs) z v = (omega (arith, v.0), IsSplit-nonempty size (d ∷ cs) z v.1)

module _ (sha256 : Bytes → Bytes) (digest : IsDigest sha256) where
  pub handle_post_file-store_file :
      (codec : ManifestCodec) (w : World) (cfg : Settings) (fuel : ℕ) (body : Body)
      (chunks : List Bytes) (s : Server)
      → exceeds body.declared max_file ≡ false
      → body.broken ≡ false
      → 0 < length body.bytes
      → length body.bytes ≤ max_file
      → chunk_data fuel cfg.chunker body.bytes ≡ ok chunks
      → handle_post_file sha256 codec w cfg fuel body s
        ≡ store_file sha256 codec w cfg (length body.bytes) chunks s
  unfolding handle_post_file
  handle_post_file-store_file codec w cfg fuel body chunks s declared unbroken some_bytes fits
        split =
      let read = read_limited_all max_file body unbroken fits in go body.bytes read split some_bytes
    where
      go :
          (bytes : Bytes)
          → read_limited max_file body ≡ some bytes
          → chunk_data fuel cfg.chunker bytes ≡ ok chunks
          → 0 < length bytes
          → handle_post_file sha256 codec w cfg fuel body s
            ≡ store_file sha256 codec w cfg (length bytes) chunks s
      go [] read split n = absurd (omega arith)
      go (b ∷ bytes) read split n = rw (handle_post_file, declared, read, split) refl

  module _ (P : Bytes → Type 0) (distinct : NoCollision sha256 P) (codec : ManifestCodec)
      (w : World) (cfg : Settings) where
    All-IsKept :
        (chunks : List Bytes) (b : Bytes) (s : ChunkStore)
        → All P chunks
        → P b
        → 0 < length b
        → HoldsOnly sha256 P s
        → All (λ c. IsKept sha256 c s) chunks
        → All (λ c. IsKept sha256 c (put_chunk sha256 no_faults b s).1) chunks
    All-IsKept [] b s ps p n only kept = tt
    All-IsKept (c ∷ cs) b s (q, ps) p n only (k, kept) = (
      put_chunk-IsKept_still sha256 P digest distinct c b s q p n only k,
      All-IsKept cs b s ps p n only kept,
    )

    store_file-IsKept :
        (chunks : List Bytes) (s : Server)
        → ((i : ℕ) → w.io i ≡ no_faults)
        → HoldsOnly sha256 P s.store
        → All P chunks
        → All (λ c. 0 < length c) chunks
        → P (codec.marshal (manifest_for sha256 cfg w.now chunks))
        → let bytes = codec.marshal (manifest_for sha256 cfg w.now chunks) in
          let (answer, t) = store_file sha256 codec w cfg (length (concat chunks)) chunks s in
          (answer
            ≡ respond 201 (
                file_info
                  (encode_to_string (sha256 bytes))
                  (length (concat chunks))
                  (length chunks)
                  (length bytes)))
          × All (λ c. IsKept sha256 c t.store) chunks
          × IsKept sha256 bytes t.store
    unfolding store_file store_manifest
    store_file-IsKept chunks s working only ps nonempty p =
        let up =
          store_chunks-Uploaded sha256 P digest distinct w.io 0 chunks s.store working ps nonempty
            only in
        let bytes = codec.marshal (manifest_for sha256 cfg w.now chunks) in
        let store = (store_chunks sha256 w.io 0 chunks s.store).1 in
        let stored = put_chunk_succeeds sha256 digest bytes store (codec.marshal-nonempty _) in
        let same =
          announce_all-store (http_addr_or_empty cfg) (infos_of sha256 chunks)
            (with_store store s) in
        rw (store_file, up.listed, store_manifest, same, working (length chunks), stored)
          (rw (working (length chunks), same)
            (
              ap
                  (λ (n : ℕ). respond 201 (
                    file_info (encode_to_string (sha256 bytes)) (length (concat chunks)) n
                      (length bytes)))
                  (length-infos_of sha256 chunks),
              All-IsKept chunks bytes store ps p (codec.marshal-nonempty _) up.only up.kept,
              put_chunk-IsKept sha256 P digest distinct bytes store p (codec.marshal-nonempty _)
                  up.only,
            ))

    -- A file that is uploaded whole, under the limit and with nothing refused by the operating system
    -- is served again, byte for byte, under the hash that the upload returned, if no two of the texts in
    -- play share a hash: the chunks that the store holds before, those of the file, and its manifest.
    pub handle_get_file-handle_post_file :
        (fuel size : ℕ) (body : Body) (w' : World) (remote : Bytes) (s : Server)
        → 0 < size
        → cfg.chunker ≡ record { chunk_size = pos size }
        → length body.bytes < fuel
        → exceeds body.declared max_file ≡ false
        → body.broken ≡ false
        → 0 < length body.bytes
        → length body.bytes ≤ max_file
        → ((i : ℕ) → w.io i ≡ no_faults)
        → ((i : ℕ) → (w'.io i).read_fails ≡ false)
        → HoldsOnly sha256 P s.store
        → ((chunks : List Bytes)
            → chunk_data fuel cfg.chunker body.bytes ≡ ok chunks
            → All P chunks × P (codec.marshal (manifest_for sha256 cfg w.now chunks)))
        → let (answer, t) = handle_post_file sha256 codec w cfg fuel body s in
          (hash : Bytes) × (n z : ℕ) × (answer
            ≡ respond 201 (file_info (encode_to_string hash) (length body.bytes) n z))
          × ((handle_get_file sha256 codec w' cfg (encode_to_string hash) remote t).0
              ≡ respond 200 (raw body.bytes))
    unfolding handle_post_file
    handle_get_file-handle_post_file fuel size body w' remote s z sized enough declared unbroken
          some_bytes fits working reads only inside =
        let (chunks, split, whole, shape) = chunk_data-IsSplit fuel size body.bytes z enough in
        let split' : chunk_data fuel cfg.chunker body.bytes ≡ ok chunks = rw sized split in
        let (ps, p) = inside chunks split' in
        let (answer, kept, there) =
          store_file-IsKept chunks s working only ps (IsSplit-nonempty size chunks z shape) p in
        let posted =
          handle_post_file-store_file codec w cfg fuel body chunks s declared unbroken some_bytes
            fits split' in
        rw (posted, ← whole)
          (
            sha256 (codec.marshal (manifest_for sha256 cfg w.now chunks)),
            length chunks,
            length (codec.marshal (manifest_for sha256 cfg w.now chunks)),
            answer,
            handle_get_file-IsKept sha256 digest codec cfg w.now chunks w' remote _ reads kept
                there,
          )
