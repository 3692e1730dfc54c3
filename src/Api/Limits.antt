-- ===== src/Api/Limits.antt =====
-- What the uploads do with a body past their limit.
use mini_ipfs.Prelude.{
  ℕ, ◌<◌, [], ◌∷◌, List, All, concat, ok, pos, ◌≡◌, ◌≤◌, refl, sym, ap, true, false, some, length,
  length-take, take, take-all, leb, ap, ◌∙◌, Bytes, arith,
}
use mathlib.Core.Path.{subst}
use mini_ipfs.Hex.{encode_to_string}
use mini_ipfs.Storage.Chunker.{chunk_data}
use mini_ipfs.Storage.Chunker.Split.{chunk_data-IsSplit}
use mini_ipfs.Storage.Store.{no_faults}
use mini_ipfs.Storage.Store.Paths.{IsDigest}
use mini_ipfs.Storage.Store.Contents.PutGet.{put_chunk_succeeds}
use mini_ipfs.Api.State.{
  Server, Settings, World, ManifestCodec, Body, read_limited, exceeds, respond, chunk_info,
  file_info, with_store,
}
use mini_ipfs.Api.Chunks.{max_chunk, store_posted, handle_post_chunk, http_addr_or_empty}
use mini_ipfs.Api.Files.{
  max_file, manifest_of, store_chunks, announce_all, store_manifest, store_file, handle_post_file,
}
use mini_ipfs.Api.Files.Reload.{infos_of, length-infos_of}
use mini_ipfs.Api.Files.RoundTrip.{handle_post_file-store_file, IsSplit-nonempty}
use mini_ipfs.Api.Files.Streamed.{store_chunks-some}

-- The first bytes of a body.
abbrev pub cut_body : ℕ → Body → Body
cut_body max body = record { declared = body.declared; bytes = take max body.bytes; broken = false }

read_limited-cut_body :
    (max : ℕ) (body : Body)
    → max ≤ length body.bytes
    → read_limited max body ≡ read_limited max (cut_body max body)
unfolding read_limited
read_limited-cut_body max body long =
    let there : leb max (length body.bytes) ≡ true = ground arith in
    let cut : leb max (length (take max body.bytes)) ≡ true =
      ground (arith, length-take {A = ℕ} max body.bytes) in
    rw (there, cut)
      (ap some (
        sym
          (take-all max (take max body.bytes) (omega (arith, length-take {A = ℕ} max body.bytes)))))

read_limited_long :
    (max : ℕ) (body : Body)
    → max ≤ length body.bytes
    → read_limited max body ≡ some (take max body.bytes)
unfolding read_limited
read_limited_long max body long =
    let there : leb max (length body.bytes) ≡ true = ground arith in rw there refl

length-cut : (max : ℕ) (bytes : Bytes) → max ≤ length bytes → length (take max bytes) ≡ max
length-cut max bytes long = omega (arith, length-take {A = ℕ} max bytes)

module _ (sha256 : Bytes → Bytes) (codec : ManifestCodec) (w : World) (cfg : Settings)
    (digest : IsDigest sha256) (working : (i : ℕ) → w.io i ≡ no_faults) where
  store_posted-answer :
      (bytes : Bytes) (s : Server)
      → 0 < length bytes
      → (store_posted sha256 w cfg bytes s).0
        ≡ respond 201 (chunk_info (encode_to_string (sha256 bytes)) (length bytes))
  unfolding store_posted
  store_posted-answer bytes s some_bytes =
      rw (store_posted, working 0, put_chunk_succeeds sha256 digest bytes s.store some_bytes) refl

  handle_post_chunk-store_posted :
      (body : Body) (bytes : Bytes) (s : Server)
      → exceeds body.declared max_chunk ≡ false
      → read_limited max_chunk body ≡ some bytes
      → 0 < length bytes
      → handle_post_chunk sha256 w cfg body s ≡ store_posted sha256 w cfg bytes s
  unfolding handle_post_chunk
  handle_post_chunk-store_posted body [] s declared read n = absurd (omega arith)
  handle_post_chunk-store_posted body (b ∷ bytes) s declared read n =
      rw (handle_post_chunk, declared, read) refl

  store_file-answer :
      (chunks : List Bytes) (size : ℕ) (s : Server)
      → All (λ c. 0 < length c) chunks
      → let bytes = codec.marshal (manifest_of cfg w.now size (infos_of sha256 chunks)) in
        (store_file sha256 codec w cfg size chunks s).0
        ≡ respond 201
            (file_info (encode_to_string (sha256 bytes)) size (length chunks) (length bytes))
  unfolding store_file store_manifest
  store_file-answer chunks size s nonempty =
      let infos = infos_of sha256 chunks in
      let bytes = codec.marshal (manifest_of cfg w.now size infos) in
      let listed = store_chunks-some sha256 digest w working 0 chunks s.store nonempty in
      let store = (store_chunks sha256 w.io 0 chunks s.store).1 in
      let before = announce_all (http_addr_or_empty cfg) infos (with_store store s) in
      let stored = put_chunk_succeeds sha256 digest bytes before.store (codec.marshal-nonempty _) in
      rw (store_file, listed, store_manifest, working (length chunks), stored)
        (ap
          (λ (n : ℕ).
            respond 201 (file_info (encode_to_string (sha256 bytes)) size n (length bytes)))
          (length-infos_of sha256 chunks))

  chunk_same :
      (body : Body) (s : Server)
      → max_chunk ≤ length body.bytes
      → handle_post_chunk sha256 w cfg body s
        ≡ handle_post_chunk sha256 w cfg (cut_body max_chunk body) s
  unfolding handle_post_chunk
  chunk_same body s long = rw (handle_post_chunk, read_limited-cut_body max_chunk body long) refl

  file_same :
      (fuel : ℕ) (body : Body) (s : Server)
      → max_file ≤ length body.bytes
      → handle_post_file sha256 codec w cfg fuel body s
        ≡ handle_post_file sha256 codec w cfg fuel (cut_body max_file body) s
  unfolding handle_post_file
  file_same fuel body s long = rw (handle_post_file, read_limited-cut_body max_file body long) refl

  -- Where the operating system refuses nothing and the client declares no length past the limit, a
  -- chunk that reaches 10 MB is handled as its first 10 MB, and a file that reaches 100 MB as its first
  -- 100 MB, for a positive chunk size and enough fuel. What is longer is so cut, and accepted: the
  -- answers are 201, with the hash of the cut chunk, and of the manifest of chunks that make the cut
  -- file.
  pub upload_cut :
      (fuel size : ℕ) (chunk file : Body) (s : Server)
      → exceeds chunk.declared max_chunk ≡ false
      → max_chunk ≤ length chunk.bytes
      → 0 < size
      → cfg.chunker ≡ record { chunk_size = pos size }
      → max_file < fuel
      → exceeds file.declared max_file ≡ false
      → max_file ≤ length file.bytes
      → (handle_post_chunk sha256 w cfg chunk s
          ≡ handle_post_chunk sha256 w cfg (cut_body max_chunk chunk) s)
        × ((handle_post_chunk sha256 w cfg chunk s).0
            ≡ respond 201
                (chunk_info (encode_to_string (sha256 (take max_chunk chunk.bytes))) max_chunk))
        × (handle_post_file sha256 codec w cfg fuel file s
            ≡ handle_post_file sha256 codec w cfg fuel (cut_body max_file file) s)
        × ((chunks : List Bytes) × (concat chunks ≡ take max_file file.bytes)
            × (let bytes =
                  codec.marshal (manifest_of cfg w.now max_file (infos_of sha256 chunks)) in
                (handle_post_file sha256 codec w cfg fuel file s).0
                ≡ respond 201 (
                    file_info
                      (encode_to_string (sha256 bytes))
                      max_file
                      (length chunks)
                      (length bytes))))
  upload_cut fuel size chunk file s declared long z sized enough declared' long' =
      let cut = take max_chunk chunk.bytes in
      let kept = length-cut max_chunk chunk.bytes long in
      let whole = length-cut max_file file.bytes long' in
      let (chunks, split, joined, shape) =
        chunk_data-IsSplit fuel size (take max_file file.bytes) z (omega (arith, whole)) in
      let fits : length (take max_file file.bytes) ≤ max_file = omega (arith, whole) in
      let some_bytes : 0 < length (take max_file file.bytes) = omega (arith, whole) in
      let split' : chunk_data fuel cfg.chunker (take max_file file.bytes) ≡ ok chunks =
        rw sized split in
      let posted : handle_post_file sha256 codec w cfg fuel file s
          ≡ store_file sha256 codec w cfg max_file chunks s =
        file_same fuel file s long'
        ∙ handle_post_file-store_file sha256 digest codec w cfg fuel (cut_body max_file file) chunks
            s declared' refl some_bytes fits split'
        ∙ ap (λ (n : ℕ). store_file sha256 codec w cfg n chunks s) whole in
      (
        chunk_same chunk s long,
        subst
            (λ (n : ℕ).
              (handle_post_chunk sha256 w cfg chunk s).0
              ≡ respond 201 (chunk_info (encode_to_string (sha256 cut)) n))
            kept
            (ap (λ r. r.0)
                (handle_post_chunk-store_posted chunk cut s declared
                  (read_limited_long max_chunk chunk long) (omega (arith, kept)))
              ∙ store_posted-answer cut s (omega (arith, kept))),
        file_same fuel file s long',
        (
          chunks,
          joined,
          ap (λ r. r.0) posted
              ∙ store_file-answer chunks max_file s (IsSplit-nonempty size chunks z shape),
        ),
      )
