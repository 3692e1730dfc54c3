-- ===== src/Api/Steps/Downloads.antt =====
-- The same for the requests that serve and delete whole files.
use mini_ipfs.Prelude.{
  ℕ, suc, ◌≡◌, refl, sym, inl, inr, Bool, Option, none, some, List, [], ◌∷◌, length, Bytes,
  Bool-cases, Option-cases, Result, ok, err, panic, running, All,
}
use mini_ipfs.Hex.{encode_to_string}
use mini_ipfs.Hex.RoundTrip.{IsBytes}
use mini_ipfs.Storage.Chunker.{ChunkInfo, FileManifest, reconstruct_data}
use mini_ipfs.Storage.Store.{ChunkStore, get_chunk, delete_chunk}
use mini_ipfs.Storage.Store.Paths.{IsHash}
use mini_ipfs.Storage.Store.Invariant.{Reach}
use mini_ipfs.Api.State.{Server, Settings, World, ManifestCodec, value_of, is_on}
use mini_ipfs.Api.Fetch.{fetch_chunk_from_network}
use mini_ipfs.Api.Chunks.{parse_hash, cache_chunk}
use mini_ipfs.Api.Files.{delete_chunks}
use mini_ipfs.Api.Files.Load.{
  Loaded, loaded, stopped, prepend_loaded, load_manifest, load_chunks, serve_file, rebuild,
  get_by_manifest, handle_get_file, find_manifest, file_deleted_answer, delete_by_manifest,
  handle_delete_file,
}
use mini_ipfs.Api.Fetch.Laws.{Fetched-cases}
use mini_ipfs.Api.Chunks.Laws.{parse_hash-IsHash}
use mini_ipfs.Api.Steps.{
  IsTruthful, Reach-trans, Reach-eq, Reach-put, Reach-delete, fetch_chunk_from_network-store,
  cache_chunk-store,
}

module _ (sha256 : Bytes → Bytes) (w : World) (cfg : Settings) (truly : IsTruthful w) where
  fetch-Reach :
      (hash hex : Bytes) (s : Server)
      → Reach sha256 s.store (fetch_chunk_from_network sha256 w hash hex cfg s).1.store
  fetch-Reach hash hex s =
      Reach-eq sha256 (sym (fetch_chunk_from_network-store sha256 w cfg hash hex s))

  cache_chunk-Reach :
      (i : ℕ) (hash hex b : Bytes) (s : Server)
      → Reach sha256 s.store (cache_chunk sha256 w cfg i hash hex b s).store
  cache_chunk-Reach i hash hex b s =
      Reach-trans sha256 (Reach-put sha256 w truly i b s.store)
        (Reach-eq sha256 (sym (cache_chunk-store sha256 w cfg i hash hex b s)))

  load_manifest-Reach :
      (hash hex : Bytes) (remote : Bool) (s : Server)
      → Reach sha256 s.store (load_manifest sha256 w cfg hash hex remote s).1.store
  unfolding load_manifest
  load_manifest-Reach hash hex remote s =
      let tried = fetch-Reach hash hex s in
      elim (Option-cases (value_of (get_chunk sha256 (w.io 0) hash s.store))) [
        | inr e ↦ rw (load_manifest, e.1) Reach.here
        | inl e ↦ elim (Bool-cases remote) [
          | inr r ↦ rw (load_manifest, e, r) Reach.here
          | inl r ↦ elim (Fetched-cases (fetch_chunk_from_network sha256 w hash hex cfg s).0) [
            | inl f ↦ rw (load_manifest, e, r, f) tried
            | inr (inl f) ↦ rw (load_manifest, e, r, f) tried
            | inr (inr (b, f)) ↦
                rw (load_manifest, e, r, f)
                  (Reach-trans sha256 tried (Reach-put sha256 w truly 1 b _))
          ]
        ]
      ]

  prepend_loaded-store :
      (b : Bytes) (r : Loaded (List Bytes) × Server) → (prepend_loaded b r).1.store ≡ r.1.store
  prepend_loaded-store b (loaded bs, s) = refl
  prepend_loaded-store b (stopped a, s) = refl

  prepend_loaded-Reach :
      (b : Bytes) {t : ChunkStore} (r : Loaded (List Bytes) × Server)
      → Reach sha256 t r.1.store
      → Reach sha256 t (prepend_loaded b r).1.store
  prepend_loaded-Reach b r reach =
      Reach-trans sha256 reach (Reach-eq sha256 (sym (prepend_loaded-store b r)))

  load_chunks-Reach :
      (remote : Bool) (call : ℕ) (infos : List ChunkInfo) (s : Server)
      → Reach sha256 s.store (load_chunks sha256 w cfg remote call infos s).1.store
  unfolding load_chunks
  load_chunks-Reach remote call [] s = Reach.here
  load_chunks-Reach remote call (info ∷ infos) s =
      let hex = encode_to_string info.hash in
      let tried = fetch-Reach info.hash hex s in
      let more : (t : Server)
          → Reach sha256 t.store
              (load_chunks sha256 w cfg remote (suc (suc call)) infos t).1.store =
        load_chunks-Reach remote (suc (suc call)) infos in
      elim (Option-cases (value_of (get_chunk sha256 (w.io call) info.hash s.store))) [
        | inr (b, e) ↦ rw (load_chunks, e) (prepend_loaded-Reach b _ (more s))
        | inl e ↦ elim (Bool-cases remote) [
          | inr r ↦ rw (load_chunks, e, r) Reach.here
          | inl r ↦ elim (Fetched-cases (fetch_chunk_from_network sha256 w info.hash hex cfg s).0) [
            | inl f ↦ rw (load_chunks, e, r, f) tried
            | inr (inl f) ↦ rw (load_chunks, e, r, f) tried
            | inr (inr (b, f)) ↦
                rw (load_chunks, e, r, f)
                  (prepend_loaded-Reach b _ (
                    Reach-trans sha256 tried (
                      Reach-trans sha256 (cache_chunk-Reach (suc call) info.hash hex b _)
                        (more _))))
          ]
        ]
      ]

  find_manifest-Reach :
      (hash hex : Bytes) (remote : Bool) (s : Server)
      → Reach sha256 s.store (find_manifest sha256 w cfg hash hex remote s).1.store
  unfolding find_manifest
  find_manifest-Reach hash hex remote s =
      let tried = fetch-Reach hash hex s in
      elim (Option-cases (value_of (get_chunk sha256 (w.io 0) hash s.store))) [
        | inr e ↦ rw (find_manifest, e.1) Reach.here
        | inl e ↦ elim (Bool-cases remote) [
          | inr r ↦ rw (find_manifest, e, r) Reach.here
          | inl r ↦ elim (Fetched-cases (fetch_chunk_from_network sha256 w hash hex cfg s).0) [
            | inl f ↦ rw (find_manifest, e, r, f) tried
            | inr (inl f) ↦ rw (find_manifest, e, r, f) tried
            | inr (inr (b, f)) ↦ rw (find_manifest, e, r, f) tried
          ]
        ]
      ]

module _ (sha256 : Bytes → Bytes) (w : World) (truly : IsTruthful w) where
  delete_chunks-Reach :
      (call : ℕ) (infos : List ChunkInfo) (store : ChunkStore)
      → All (λ ci. IsBytes ci.hash) infos
      → Reach sha256 store (delete_chunks w.io call infos store).1
  unfolding delete_chunks
  delete_chunks-Reach call [] store v = Reach.here
  delete_chunks-Reach call (info ∷ infos) store v =
      Reach-trans sha256 (Reach-delete sha256 w truly call info.hash store v.0)
        (delete_chunks-Reach (suc call) infos (delete_chunk (w.io call) info.hash store).1 v.1)

serve_file-store :
    {E : Type 0} (hex : Bytes) (remote : Bool) (n : ℕ) (r : Result E Bytes) (s : Server)
    → (serve_file hex remote n r s).1.store ≡ s.store
serve_file-store hex remote n (ok b) s = refl
serve_file-store hex remote n (err e) s = refl
serve_file-store hex remote n panic s = refl
serve_file-store hex remote n running s = refl

file_deleted_answer-store :
    (hex : Bytes) (removed total : ℕ) (a b : Option (ℕ × ℕ)) (s : Server)
    → (file_deleted_answer hex removed total a b s).1.store ≡ s.store
file_deleted_answer-store hex removed total none b s = refl
file_deleted_answer-store hex removed total (some a) none s = refl
file_deleted_answer-store hex removed total (some a) (some b) s = refl

module _ (sha256 : Bytes → Bytes) where
  rebuild-Reach :
      (hex : Bytes) (remote : Bool) (m : FileManifest) (r : Loaded (List Bytes) × Server)
      → Reach sha256 r.1.store (rebuild sha256 hex remote m r).1.store
  rebuild-Reach hex remote m (stopped a, s) = Reach.here
  rebuild-Reach hex remote m (loaded chunks, s) =
      Reach-eq sha256 (sym (serve_file-store hex remote _ (reconstruct_data sha256 chunks m) s))

module _ (sha256 : Bytes → Bytes) (codec : ManifestCodec) (w : World) (cfg : Settings)
    (truly : IsTruthful w) where
  get_by_manifest-Reach :
      (hex : Bytes) (remote : Bool) (r : Loaded Bytes × Server)
      → Reach sha256 r.1.store (get_by_manifest sha256 codec w cfg hex remote r).1.store
  unfolding get_by_manifest
  get_by_manifest-Reach hex remote (stopped a, s) = Reach.here
  get_by_manifest-Reach hex remote (loaded bytes, s) = elim (Option-cases (codec.unmarshal bytes)) [
    | inl e ↦ rw (get_by_manifest, e) Reach.here
    | inr (m, e) ↦
        rw (get_by_manifest, e)
          (Reach-trans sha256 (load_chunks-Reach sha256 w cfg truly remote 2 m.chunks s)
            (rebuild-Reach sha256 hex remote m _))
  ]

  pub handle_get_file-Reach :
      (hex remote : Bytes) (s : Server)
      → Reach sha256 s.store (handle_get_file sha256 codec w cfg hex remote s).1.store
  unfolding handle_get_file
  handle_get_file-Reach hex remote s = elim (Option-cases (parse_hash hex)) [
    | inl e ↦ rw (handle_get_file, e) Reach.here
    | inr (hash, e) ↦
        rw (handle_get_file, e)
          (Reach-trans sha256 (load_manifest-Reach sha256 w cfg truly hash hex (is_on remote) s)
            (get_by_manifest-Reach hex (is_on remote) _))
  ]

  delete_by_manifest-Reach :
      (hash hex : Bytes) (everywhere : Bool) (r : Loaded Bytes × Server)
      → IsHash hash
      → Reach sha256 r.1.store (delete_by_manifest sha256 codec w cfg hash hex everywhere r).1.store
  unfolding delete_by_manifest
  delete_by_manifest-Reach hash hex everywhere (stopped a, s) v = Reach.here
  delete_by_manifest-Reach hash hex everywhere (loaded bytes, s) v =
      elim (Option-cases (codec.unmarshal bytes)) [
        | inl e ↦ rw (delete_by_manifest, e) Reach.here
        | inr (m, e) ↦
            rw (delete_by_manifest, e)
              (Reach-trans sha256
                (delete_chunks-Reach sha256 w truly 1 m.chunks s.store
                  (codec.unmarshal-IsBytes bytes m e))
                (Reach-trans sha256
                  (Reach-delete sha256 w truly (suc (length m.chunks)) hash _ v.bytes)
                  (Reach-eq sha256 (sym (file_deleted_answer-store hex _ _ _ _ _)))))
      ]

  pub handle_delete_file-Reach :
      (hex remote global propagate : Bytes) (s : Server)
      → Reach sha256 s.store
          (handle_delete_file sha256 codec w cfg hex remote global propagate s).1.store
  unfolding handle_delete_file
  handle_delete_file-Reach hex remote global propagate s = elim (Option-cases (parse_hash hex)) [
    | inl e ↦ rw (handle_delete_file, e) Reach.here
    | inr (hash, e) ↦
        rw (handle_delete_file, e)
          (Reach-trans sha256 (find_manifest-Reach sha256 w cfg truly hash hex (is_on remote) s)
            (delete_by_manifest-Reach hash hex _ _ (parse_hash-IsHash hex hash e)))
  ]
