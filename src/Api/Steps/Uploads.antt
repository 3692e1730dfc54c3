-- ===== src/Api/Steps/Uploads.antt =====
-- The same for the requests about whole files.
use mini_ipfs.Prelude.{
  ℕ, suc, ◌≡◌, refl, sym, ◌⊎◌, inl, inr, List, [], ◌∷◌, ◌==◌, length, ltb, Bytes, Bool-cases,
  Option-cases, Result, ok, err, panic, running, ℤ, pos, negsuc,
}
use mini_ipfs.Storage.Chunker.{ChunkInfo, FileManifest, chunk_data}
use mini_ipfs.Storage.Store.{ChunkStore, put_chunk}
use mini_ipfs.Storage.Store.Invariant.{Reach}
use mini_ipfs.Api.State.{
  Server, Settings, World, ManifestCodec, Body, announce, with_store, value_of, read_limited,
  exceeds,
}
use mini_ipfs.Api.Chunks.{http_addr_or_empty}
use mini_ipfs.Api.Files.{
  max_file, store_chunks, announce_all, store_manifest, store_file, chunked, handle_post_file,
}
use mini_ipfs.Api.Files.Stream.{
  whole, ReadStatus, going, ended, too_large, broken, Streamed, announce_if_known, after_read,
  stream_loop, store_streamed, handle_post_file_stream,
}
use mini_ipfs.Api.Steps.{IsTruthful, Reach-trans, Reach-eq, Reach-put}

ℤ-cases : (z : ℤ) → ((n : ℕ) × (z ≡ pos n)) ⊎ ((n : ℕ) × (z ≡ negsuc n))
ℤ-cases (pos n) = inl (n, refl)
ℤ-cases (negsuc n) = inr (n, refl)

pub announce_all-store :
    (addr : Bytes) (infos : List ChunkInfo) (s : Server)
    → (announce_all addr infos s).store ≡ s.store
unfolding announce_all
announce_all-store addr [] s = refl
announce_all-store addr (info ∷ infos) s = announce_all-store addr infos (announce info.hash addr s)

announce_if_known-store :
    (addr hash : Bytes) (s : Server) → (announce_if_known addr hash s).store ≡ s.store
announce_if_known-store [] hash s = refl
announce_if_known-store (c ∷ addr) hash s = refl

module _ (sha256 : Bytes → Bytes) (w : World) (truly : IsTruthful w) where
  store_chunks-Reach :
      (call : ℕ) (chunks : List Bytes) (store : ChunkStore)
      → Reach sha256 store (store_chunks sha256 w.io call chunks store).1
  unfolding store_chunks
  store_chunks-Reach call [] store = Reach.here
  store_chunks-Reach call (chunk ∷ chunks) store =
      let (stored, store') = put_chunk sha256 (w.io call) chunk store in
      let first = Reach-put sha256 w truly call chunk store in
      let rest = store_chunks-Reach (suc call) chunks store' in
      elim (Option-cases (value_of stored)) [
        | inl e ↦ rw (store_chunks, e) first
        | inr e ↦ rw (store_chunks, e.1) (Reach-trans sha256 first rest)
      ]

  after_read-Reach :
      (status : ReadStatus) (more : Server → Streamed × Server) (s : Server)
      → ((t : Server) → Reach sha256 t.store (more t).1.store)
      → Reach sha256 s.store (after_read status more s).1.store
  after_read-Reach going more s h = h s
  after_read-Reach ended more s h = Reach.here
  after_read-Reach too_large more s h = Reach.here
  after_read-Reach broken more s h = Reach.here

  stream_loop-Reach :
      (addr : Bytes) (call : ℕ) (reads : List (Bytes × ReadStatus)) (s : Server)
      → Reach sha256 s.store (stream_loop sha256 w addr call reads s).1.store
  unfolding stream_loop
  stream_loop-Reach addr call [] s = Reach.here
  stream_loop-Reach addr call ((got, status) ∷ reads) s =
      let next : (t : Server)
          → Reach sha256 t.store
              (after_read status (stream_loop sha256 w addr (suc call) reads) t).1.store =
        λ t.
          after_read-Reach status (stream_loop sha256 w addr (suc call) reads) t
            (stream_loop-Reach addr (suc call) reads) in
      let first = Reach-put sha256 w truly call got s.store in
      elim (Bool-cases (ltb 0 (length got))) [
        | inr f ↦ rw (stream_loop, f) (next s)
        | inl f ↦ elim (Option-cases (value_of (put_chunk sha256 (w.io call) got s.store).0)) [
          | inl e ↦ rw (stream_loop, f, e) first
          | inr (hash, e) ↦
              let known =
                announce_if_known-store addr hash
                  (with_store (put_chunk sha256 (w.io call) got s.store).1 s) in
              rw (stream_loop, f, e)
                (Reach-trans sha256 first
                  (Reach-trans sha256 (Reach-eq sha256 (sym known)) (next _)))
        ]
      ]

module _ (sha256 : Bytes → Bytes) (codec : ManifestCodec) (w : World) (cfg : Settings)
    (truly : IsTruthful w) where
  store_manifest-Reach :
      (call : ℕ) (announced : Bytes → Server → Server) (size : ℕ) (m : FileManifest) (s : Server)
      → ((h : Bytes) (t : Server) → (announced h t).store ≡ t.store)
      → Reach sha256 s.store (store_manifest sha256 codec w cfg call announced size m s).1.store
  unfolding store_manifest
  store_manifest-Reach call announced size m s kept =
      let put = Reach-put sha256 w truly call (codec.marshal m) s.store in
      elim (Option-cases (value_of (put_chunk sha256 (w.io call) (codec.marshal m) s.store).0)) [
        | inl e ↦ rw (store_manifest, e) put
        | inr (hash, e) ↦
            rw (store_manifest, e)
              (Reach-trans sha256 put (
                Reach-eq sha256 (
                  sym (
                    kept hash
                      (with_store (put_chunk sha256 (w.io call) (codec.marshal m) s.store).1 s)))))
      ]

  store_file-Reach :
      (size : ℕ) (chunks : List Bytes) (s : Server)
      → Reach sha256 s.store (store_file sha256 codec w cfg size chunks s).1.store
  unfolding store_file
  store_file-Reach size chunks s =
      let stored = store_chunks-Reach sha256 w truly 0 chunks s.store in
      let store = (store_chunks sha256 w.io 0 chunks s.store).1 in
      let addr = http_addr_or_empty cfg in
      elim (Option-cases (store_chunks sha256 w.io 0 chunks s.store).0) [
        | inl e ↦ rw (store_file, e) stored
        | inr (infos, e) ↦
            rw (store_file, e)
              (Reach-trans sha256 stored (
                Reach-trans sha256
                  (Reach-eq sha256 (sym (announce_all-store addr infos (with_store store s))))
                  (store_manifest-Reach (length chunks) (λ h. announce h addr) size _ _
                    (λ h t. refl))))
      ]

  chunked-Reach :
      {E : Type 0} (size : ℕ) (r : Result E (List Bytes)) (s : Server)
      → Reach sha256 s.store (chunked sha256 codec w cfg size r s).1.store
  chunked-Reach size (ok chunks) s = store_file-Reach size chunks s
  chunked-Reach size (err e) s = Reach.here
  chunked-Reach size panic s = Reach.here
  chunked-Reach size running s = Reach.here

  pub handle_post_file-Reach :
      (fuel : ℕ) (body : Body) (s : Server)
      → Reach sha256 s.store (handle_post_file sha256 codec w cfg fuel body s).1.store
  unfolding handle_post_file
  handle_post_file-Reach fuel body s = elim (Bool-cases (exceeds body.declared max_file)) [
    | inl f ↦ rw (handle_post_file, f) Reach.here
    | inr f ↦ elim (Option-cases (read_limited max_file body)) [
      | inl e ↦ rw (handle_post_file, f, e) Reach.here
      | inr ([], e) ↦ rw (handle_post_file, f, e) Reach.here
      | inr (b ∷ bytes, e) ↦
          rw (handle_post_file, f, e)
            (chunked-Reach (length (b ∷ bytes)) (chunk_data fuel cfg.chunker (b ∷ bytes)) s)
    ]
  ]

  store_streamed-Reach :
      (calls : ℕ) (r : Streamed × Server)
      → Reach sha256 r.1.store (store_streamed sha256 codec w cfg calls r).1.store
  store_streamed-Reach calls (Streamed.stopped a, s) = Reach.here
  store_streamed-Reach calls (whole infos size, s) = elim (Bool-cases (size == 0)) [
    | inl f ↦ rw f Reach.here
    | inr f ↦ rw f (
        store_manifest-Reach calls (announce_if_known (http_addr_or_empty cfg)) size _ s
          (λ h t. announce_if_known-store (http_addr_or_empty cfg) h t))
  ]

  pub handle_post_file_stream-Reach :
      (reads : List (Bytes × ReadStatus)) (s : Server)
      → Reach sha256 s.store (handle_post_file_stream sha256 codec w cfg reads s).1.store
  unfolding handle_post_file_stream
  handle_post_file_stream-Reach reads s = elim (ℤ-cases cfg.chunker.chunk_size) [
    | inr (n, e) ↦ rw (handle_post_file_stream, e) Reach.here
    | inl (n, e) ↦
        rw (handle_post_file_stream, e)
          (Reach-trans sha256 (stream_loop-Reach sha256 w truly (http_addr_or_empty cfg) 0 reads s)
            (store_streamed-Reach (length reads)
              (stream_loop sha256 w (http_addr_or_empty cfg) 0 reads s)))
  ]
