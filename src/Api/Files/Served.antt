-- ===== src/Api/Files/Served.antt =====
-- What `handleGetFile` answers.
use mini_ipfs.Hex.{encode_to_string}
use mini_ipfs.Prelude.{
  ℕ, suc, ltb, ◌≡◌, refl, ap, ◌⊎◌, inl, inr, Bool, some, List, [], ◌∷◌, ◌++◌, length, take,
  replicate, concat, Bytes, Bool-cases, Option-cases, Result, ok, err, panic, running, pos,
}
use mini_ipfs.Storage.Chunker.{ChunkInfo, ChunkerError, FileManifest}
use mini_ipfs.Storage.Chunker.Rebuild.{Matches}
use mini_ipfs.Storage.Chunker.Rebuild.RoundTrip.{reconstruct_data_sound}
use mini_ipfs.Storage.Store.{get_chunk}
use mini_ipfs.Storage.Store.Paths.{IsDigest}
use mini_ipfs.Api.State.{
  Server, Settings, World, ManifestCodec, Answer, refuse, respond, raw, value_of, is_on,
}
use mini_ipfs.Api.Fetch.{fetch_chunk_from_network}
use mini_ipfs.Api.Fetch.Laws.{Fetched-cases, value_of-get_chunk, fetch_chunk_from_network_sound}
use mini_ipfs.Api.Chunks.{parse_hash}
use mini_ipfs.Api.Files.Load.{
  Loaded, loaded, stopped, prepend_loaded, load_manifest, load_chunks, serve_file, rebuild,
  get_by_manifest, handle_get_file,
}

-- Only a file is answered with 200, and only if its bytes were put together.
serve_file-ok :
    (hex : Bytes) (remote : Bool) (n : ℕ) (r : Result ChunkerError Bytes) (s : Server) (out : Bytes)
    → (serve_file hex remote n r s).0 ≡ respond 200 (raw out)
    → r ≡ ok out
serve_file-ok hex remote n (ok b) s out e = ap ok (cc e)
serve_file-ok hex remote n (err x) s out e = cc e
serve_file-ok hex remote n panic s out e = cc e
serve_file-ok hex remote n running s out e = cc e

module _ (sha256 : Bytes → Bytes) (codec : ManifestCodec) where
  -- The bytes are those of chunks that have the hashes and sizes of a manifest with the given hash, in
  -- its order, as many as its original size, filled up with zeros where the chunks have fewer.
  pub record IsFile (hash out : Bytes) : Type 0 where
    pub manifest_bytes : Bytes
    pub right : sha256 manifest_bytes ≡ hash
    pub manifest : FileManifest
    pub decoded : codec.unmarshal manifest_bytes ≡ some manifest
    pub size : ℕ
    pub original : manifest.original_size ≡ pos size
    pub chunks : List Bytes
    pub matching : Matches sha256 chunks manifest.chunks
    pub whole : out ≡ take size (concat chunks ++ replicate size 0)

  -- What a handler answers where a manifest or a chunk is missing.
  abbrev pub StopsEarly {ℓ} : {A : Type ℓ} → Loaded A → Type 0
  StopsEarly (loaded a) = Unit
  StopsEarly (stopped a) = (a ≡ refuse 404) ⊎ (a ≡ Answer.aborted)

  rebuild-IsFile :
      (hex : Bytes) (remote : Bool) (out hash manifest_bytes : Bytes) (manifest : FileManifest)
      (r : Loaded (List Bytes) × Server)
      → StopsEarly r.0
      → sha256 manifest_bytes ≡ hash
      → codec.unmarshal manifest_bytes ≡ some manifest
      → (rebuild sha256 hex remote manifest r).0 ≡ respond 200 (raw out)
      → IsFile hash out
  rebuild-IsFile hex remote out hash mb m (stopped a, s) (inl f) h d e = cc (f, e)
  rebuild-IsFile hex remote out hash mb m (stopped a, s) (inr f) h d e = cc (f, e)
  rebuild-IsFile hex remote out hash mb m (loaded chunks, s) v h d e =
      let (n, size, matching, whole) =
        reconstruct_data_sound sha256 chunks m out (serve_file-ok hex remote _ _ s out e) in
      record {
        manifest_bytes = mb;
        right = h;
        manifest = m;
        decoded = d;
        size = n;
        original = size;
        chunks = chunks;
        matching = matching;
        whole = whole;
      }

  prepend_loaded-StopsEarly :
      (b : Bytes) (r : Loaded (List Bytes) × Server)
      → StopsEarly r.0
      → StopsEarly (prepend_loaded b r).0
  prepend_loaded-StopsEarly b (loaded bs, s) v = tt
  prepend_loaded-StopsEarly b (stopped a, s) v = v

  module _ (w : World) (cfg : Settings) where
    load_chunks-StopsEarly :
        (remote : Bool) (call : ℕ) (infos : List ChunkInfo) (s : Server)
        → StopsEarly (load_chunks sha256 w cfg remote call infos s).0
    unfolding load_chunks
    load_chunks-StopsEarly remote call [] s = tt
    load_chunks-StopsEarly remote call (info ∷ infos) s =
        let hex = encode_to_string info.hash in
        let more : (t : Server)
            → StopsEarly (load_chunks sha256 w cfg remote (suc (suc call)) infos t).0 =
          load_chunks-StopsEarly remote (suc (suc call)) infos in
        elim (Option-cases (value_of (get_chunk sha256 (w.io call) info.hash s.store))) [
          | inr (b, e) ↦ rw (load_chunks, e) (prepend_loaded-StopsEarly b _ (more s))
          | inl e ↦ elim (Bool-cases remote) [
            | inr r ↦ rw (load_chunks, e, r) (inl refl)
            | inl r ↦
                elim (Fetched-cases (fetch_chunk_from_network sha256 w info.hash hex cfg s).0) [
                  | inl f ↦ rw (load_chunks, e, r, f) (inr refl)
                  | inr (inl f) ↦ elim (Bool-cases (ltb (length hex) 16)) [
                    | inl g ↦ rw (load_chunks, e, r, f, g) (inr refl)
                    | inr g ↦ rw (load_chunks, e, r, f, g) (inl refl)
                  ]
                  | inr (inr (b, f)) ↦
                      rw (load_chunks, e, r, f) (prepend_loaded-StopsEarly b _ (more _))
                ]
          ]
        ]

    -- The manifest's bytes have the hash, or the handler stops.
    load_manifest_sound :
        (hash hex : Bytes) (remote : Bool) (s : Server)
        → IsDigest sha256
        → StopsEarly (load_manifest sha256 w cfg hash hex remote s).0
          × ((b : Bytes)
              → (load_manifest sha256 w cfg hash hex remote s).0 ≡ loaded b
              → sha256 b ≡ hash)
    unfolding load_manifest
    load_manifest_sound hash hex remote s digest =
        elim (Option-cases (value_of (get_chunk sha256 (w.io 0) hash s.store))) [
          | inr (b, e) ↦
              rw (load_manifest, e)
                (tt, λ c f. value_of-get_chunk sha256 w 0 hash c s.store digest (cc (e, f)))
          | inl e ↦ elim (Bool-cases remote) [
            | inr r ↦ rw (load_manifest, e, r) (inl refl, λ c f. cc f)
            | inl r ↦ elim (Fetched-cases (fetch_chunk_from_network sha256 w hash hex cfg s).0) [
              | inl f ↦ rw (load_manifest, e, r, f) (inr refl, λ c g. cc g)
              | inr (inl f) ↦ rw (load_manifest, e, r, f) (inl refl, λ c g. cc g)
              | inr (inr (b, f)) ↦
                  rw (load_manifest, e, r, f)
                    (
                      tt,
                      λ c g. fetch_chunk_from_network_sound sha256 w hash hex cfg s c (cc (f, g)),
                    )
            ]
          ]
        ]

    get_by_manifest-IsFile :
        (hex : Bytes) (remote : Bool) (out hash : Bytes) (r : Loaded Bytes × Server)
        → StopsEarly r.0
        → ((b : Bytes) → r.0 ≡ loaded b → sha256 b ≡ hash)
        → (get_by_manifest sha256 codec w cfg hex remote r).0 ≡ respond 200 (raw out)
        → IsFile hash out
    unfolding get_by_manifest
    get_by_manifest-IsFile hex remote out hash (stopped a, s) (inl f) right e = cc (f, e)
    get_by_manifest-IsFile hex remote out hash (stopped a, s) (inr f) right e = cc (f, e)
    get_by_manifest-IsFile hex remote out hash (loaded b, s) v right e =
        elim (Option-cases (codec.unmarshal b)) [
          | inl d ↦ cc (rw (get_by_manifest, d) at e)
          | inr (m, d) ↦
              rebuild-IsFile hex remote out hash b m (load_chunks sha256 w cfg remote 2 m.chunks s)
                (load_chunks-StopsEarly remote 2 m.chunks s) (right b refl) d
                (rw (get_by_manifest, d) at e)
        ]

    -- A file that is served with 200 is made of chunks that match a manifest of the requested hash, also
    -- where manifest and chunks come from other nodes.
    pub handle_get_file-IsFile :
        (hex remote out : Bytes) (s : Server)
        → IsDigest sha256
        → (handle_get_file sha256 codec w cfg hex remote s).0 ≡ respond 200 (raw out)
        → (hash : Bytes) × (parse_hash hex ≡ some hash) × IsFile hash out
    unfolding handle_get_file
    handle_get_file-IsFile hex remote out s digest e = elim (Option-cases (parse_hash hex)) [
      | inl f ↦ cc (rw (handle_get_file, f) at e)
      | inr (hash, f) ↦
          let (early, right) = load_manifest_sound hash hex (is_on remote) s digest in
          (
            hash,
            f,
            get_by_manifest-IsFile hex (is_on remote) out hash _ early right
                (rw (handle_get_file, f) at e),
          )
    ]
