-- ===== src/Api/Files/Reload.antt =====
-- `handleGetFile` over a store that keeps the chunks of a file and its manifest.
use mini_ipfs.Prelude.{
  ℕ, suc, ◌≡◌, refl, ap, ◌∙◌, Bool, false, some, List, [], ◌∷◌, ◌++◌, map, length, drop, replicate,
  length-replicate, concat, All, Bytes, ok, arith, ℤ, append-nil, drop-all,
}
use mini_ipfs.Hex.{encode_to_string}
use mini_ipfs.Hex.RoundTrip.{IsBytes, decode_string-encode_to_string, length-encode_to_string}
use mini_ipfs.Storage.Chunker.{ChunkInfo, FileManifest, reconstruct_data}
use mini_ipfs.Storage.Chunker.Rebuild.{Matches}
use mini_ipfs.Storage.Chunker.Rebuild.RoundTrip.{reconstruct_data_complete}
use mini_ipfs.Storage.Store.{ChunkStore, Faults, get_chunk}
use mini_ipfs.Storage.Store.Paths.{IsHash, IsDigest}
use mini_ipfs.Storage.Store.Contents.{get_chunk_intact}
use mini_ipfs.Api.State.{Server, Settings, World, ManifestCodec, respond, raw, is_on}
use mini_ipfs.Api.Chunks.{parse_hash}
use mini_ipfs.Api.Files.{info_of, manifest_of}
use mini_ipfs.Api.Files.Load.{loaded, load_manifest, load_chunks, get_by_manifest, handle_get_file}
use mini_ipfs.Api.Files.Kept.{IsKept}

abbrev pub infos_of : (sha256 : Bytes → Bytes) → List Bytes → List ChunkInfo
infos_of sha256 = map (λ (c : Bytes). info_of (sha256 c) c)

-- The manifest of a file that was cut into the chunks.
abbrev pub manifest_for : (sha256 : Bytes → Bytes) → Settings → ℤ → List Bytes → FileManifest
manifest_for sha256 cfg now chunks =
    manifest_of cfg now (length (concat chunks)) (infos_of sha256 chunks)

parse_hash-encode_to_string : (h : Bytes) → IsHash h → parse_hash (encode_to_string h) ≡ some h
unfolding parse_hash
parse_hash-encode_to_string h v =
    let long : length (encode_to_string h) ≡ 64 =
      omega (arith, length-encode_to_string h, v.size) in
    rw (long) (decode_string-encode_to_string h v.bytes)

Matches-infos_of :
    (sha256 : Bytes → Bytes) (chunks : List Bytes) → Matches sha256 chunks (infos_of sha256 chunks)
Matches-infos_of sha256 [] = tt
Matches-infos_of sha256 (c ∷ cs) = (refl, refl, Matches-infos_of sha256 cs)

pub length-infos_of :
    (sha256 : Bytes → Bytes) (chunks : List Bytes) → length (infos_of sha256 chunks) ≡ length chunks
length-infos_of sha256 [] = refl
length-infos_of sha256 (c ∷ cs) = ap suc (length-infos_of sha256 cs)

infos_of-IsBytes :
    (sha256 : Bytes → Bytes) (chunks : List Bytes)
    → IsDigest sha256
    → All (λ (ci : ChunkInfo). IsBytes ci.hash) (infos_of sha256 chunks)
infos_of-IsBytes sha256 [] digest = tt
infos_of-IsBytes sha256 (c ∷ cs) digest = ((digest c).bytes, infos_of-IsBytes sha256 cs digest)

-- No zeros are needed where the chunks are as long as the file.
filled : (b : Bytes) → b ++ drop (length b) (replicate {A = ℕ} (length b) 0) ≡ b
filled b =
    rw
      (drop-all (length b) (replicate {A = ℕ} (length b) 0)
        (omega (arith, length-replicate {0} {A = ℕ} (length b) 0)))
      (append-nil b)

module _ (sha256 : Bytes → Bytes) (digest : IsDigest sha256) where
  get_kept :
      (io : Faults) (b : Bytes) (s : ChunkStore)
      → io.read_fails ≡ false
      → IsKept sha256 b s
      → get_chunk sha256 io (sha256 b) s ≡ ok b
  get_kept io b s r kept = get_chunk_intact sha256 digest io (sha256 b) b s (digest b) r kept refl

  load_chunks-IsKept :
      (w : World) (cfg : Settings) (remote : Bool) (call : ℕ) (chunks : List Bytes) (s : Server)
      → ((i : ℕ) → (w.io i).read_fails ≡ false)
      → All (λ c. IsKept sha256 c s.store) chunks
      → load_chunks sha256 w cfg remote call (infos_of sha256 chunks) s ≡ (loaded chunks, s)
  unfolding load_chunks
  load_chunks-IsKept w cfg remote call [] s reads kept = refl
  load_chunks-IsKept w cfg remote call (c ∷ cs) s reads (k, kept) =
      rw
        (
          load_chunks,
          get_kept (w.io call) c s.store (reads call) k,
          load_chunks-IsKept w cfg remote (suc (suc call)) cs s reads kept,
        )
        refl

  module _ (codec : ManifestCodec) (cfg : Settings) (now : ℤ) (chunks : List Bytes) where
    pub handle_get_file-IsKept :
        (w : World) (remote : Bytes) (s : Server)
        → ((i : ℕ) → (w.io i).read_fails ≡ false)
        → All (λ c. IsKept sha256 c s.store) chunks
        → IsKept sha256 (codec.marshal (manifest_for sha256 cfg now chunks)) s.store
        → (handle_get_file sha256 codec w cfg
            (encode_to_string (sha256 (codec.marshal (manifest_for sha256 cfg now chunks))))
            remote
            s).0
          ≡ respond 200 (raw (concat chunks))
    unfolding handle_get_file get_by_manifest load_manifest
    handle_get_file-IsKept w remote s reads kept there =
        let parsed =
          parse_hash-encode_to_string _
            (digest (codec.marshal (manifest_for sha256 cfg now chunks))) in
        let got =
          get_kept (w.io 0) (codec.marshal (manifest_for sha256 cfg now chunks)) s.store (reads 0)
            there in
        let decoded =
          codec.unmarshal-marshal (manifest_for sha256 cfg now chunks)
            (infos_of-IsBytes sha256 chunks digest) in
        let more = load_chunks-IsKept w cfg (is_on remote) 2 chunks s reads kept in
        let whole : reconstruct_data sha256 chunks (manifest_for sha256 cfg now chunks)
            ≡ ok (concat chunks) =
          reconstruct_data_complete sha256 chunks (manifest_for sha256 cfg now chunks)
            (length (concat chunks)) (Matches-infos_of sha256 chunks) refl (omega arith)
          ∙ ap ok (filled (concat chunks)) in
        rw (handle_get_file, parsed, load_manifest, got, get_by_manifest, decoded, more, whole) refl
