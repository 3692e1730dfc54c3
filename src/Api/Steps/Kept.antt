-- ===== src/Api/Steps/Kept.antt =====
-- No request changes the node at once: the calls of `StoreProvider` run in the background.
use mini_ipfs.Prelude.{
  ℕ, suc, ◌≡◌, refl, ◌∙◌, inl, inr, Bool, List, [], ◌∷◌, length, ltb, Bytes, Bool-cases,
  Option-cases, Result, ok, err, panic, running, arith,
}
use mini_ipfs.Storage.Chunker.{ChunkInfo, FileManifest}
use mini_ipfs.Storage.Store.{put_chunk}
use mini_ipfs.Api.State.{Server, Settings, World, ManifestCodec, Body, announce, value_of}
use mini_ipfs.Api.Fetch.{fetch_chunk_from_network}
use mini_ipfs.Api.Chunks.{
  become_provider, cache_chunk, store_posted, handle_post_chunk, get_remote, handle_get_chunk,
  handle_delete_chunk,
}
use mini_ipfs.Api.Files.{announce_all, store_manifest, store_file, chunked, handle_post_file}
use mini_ipfs.Api.Files.Stream.{
  ReadStatus, going, ended, too_large, broken, Streamed, whole, announce_if_known, after_read,
  stream_loop, store_streamed, handle_post_file_stream,
}
use mini_ipfs.Api.Files.Load.{
  Loaded, loaded, stopped, prepend_loaded, load_manifest, load_chunks, rebuild, get_by_manifest,
  handle_get_file, find_manifest, delete_by_manifest, handle_delete_file,
}

module _ (sha256 : Bytes → Bytes) (w : World) (cfg : Settings) where
  fetch_chunk_from_network-node :
      (hash hex : Bytes) (s : Server)
      → (fetch_chunk_from_network sha256 w hash hex cfg s).1.node ≡ s.node
  unfolding fetch_chunk_from_network
  fetch_chunk_from_network-node hash hex s = ground arith

  become_provider-node : (hash : Bytes) (s : Server) → (become_provider cfg hash s).node ≡ s.node
  unfolding become_provider
  become_provider-node hash s = ground arith

  cache_chunk-node :
      (i : ℕ) (hash hex b : Bytes) (s : Server)
      → (cache_chunk sha256 w cfg i hash hex b s).node ≡ s.node
  unfolding cache_chunk
  cache_chunk-node i hash hex b s = ground arith

  store_posted-node : (b : Bytes) (s : Server) → (store_posted sha256 w cfg b s).1.node ≡ s.node
  unfolding store_posted
  store_posted-node b s = ground arith

  pub handle_post_chunk-node :
      (body : Body) (s : Server) → (handle_post_chunk sha256 w cfg body s).1.node ≡ s.node
  unfolding handle_post_chunk store_posted
  handle_post_chunk-node body s = ground arith

  get_remote-node :
      (hash hex : Bytes) (s : Server) → (get_remote sha256 w cfg hash hex s).1.node ≡ s.node
  unfolding get_remote
  get_remote-node hash hex s = grind (arith, fetch_chunk_from_network-node, cache_chunk-node)

  pub handle_get_chunk-node :
      (hex remote : Bytes) (s : Server)
      → (handle_get_chunk sha256 w cfg hex remote s).1.node ≡ s.node
  unfolding handle_get_chunk
  handle_get_chunk-node hex remote s = grind (arith, get_remote-node)

  pub handle_delete_chunk-node :
      (hex global propagate : Bytes) (s : Server)
      → (handle_delete_chunk sha256 w cfg hex global propagate s).1.node ≡ s.node
  unfolding handle_delete_chunk
  handle_delete_chunk-node hex global propagate s = ground arith

announce_all-node :
    (addr : Bytes) (infos : List ChunkInfo) (s : Server) → (announce_all addr infos s).node ≡ s.node
unfolding announce_all
announce_all-node addr [] s = refl
announce_all-node addr (info ∷ infos) s = announce_all-node addr infos (announce info.hash addr s)

announce_if_known-node :
    (addr hash : Bytes) (s : Server) → (announce_if_known addr hash s).node ≡ s.node
announce_if_known-node [] hash s = refl
announce_if_known-node (c ∷ addr) hash s = refl

module _ (sha256 : Bytes → Bytes) (codec : ManifestCodec) (w : World) (cfg : Settings) where
  store_manifest-node :
      (call : ℕ) (announced : Bytes → Server → Server) (size : ℕ) (m : FileManifest) (s : Server)
      → ((h : Bytes) (t : Server) → (announced h t).node ≡ t.node)
      → (store_manifest sha256 codec w cfg call announced size m s).1.node ≡ s.node
  unfolding store_manifest
  store_manifest-node call announced size m s kept = grind (arith, kept)

  store_file-node :
      (size : ℕ) (chunks : List Bytes) (s : Server)
      → (store_file sha256 codec w cfg size chunks s).1.node ≡ s.node
  unfolding store_file
  store_file-node size chunks s = grind (arith, store_manifest-node, announce_all-node)

  chunked-node :
      {E : Type 0} (size : ℕ) (r : Result E (List Bytes)) (s : Server)
      → (chunked sha256 codec w cfg size r s).1.node ≡ s.node
  chunked-node size (ok chunks) s = store_file-node size chunks s
  chunked-node size (err e) s = refl
  chunked-node size panic s = refl
  chunked-node size running s = refl

  pub handle_post_file-node :
      (fuel : ℕ) (body : Body) (s : Server)
      → (handle_post_file sha256 codec w cfg fuel body s).1.node ≡ s.node
  unfolding handle_post_file
  handle_post_file-node fuel body s = grind (arith, chunked-node)

  after_read-node :
      (status : ReadStatus) (more : Server → Streamed × Server) (s : Server)
      → ((t : Server) → (more t).1.node ≡ t.node)
      → (after_read status more s).1.node ≡ s.node
  after_read-node going more s h = h s
  after_read-node ended more s h = refl
  after_read-node too_large more s h = refl
  after_read-node broken more s h = refl

  stream_loop-node :
      (addr : Bytes) (call : ℕ) (reads : List (Bytes × ReadStatus)) (s : Server)
      → (stream_loop sha256 w addr call reads s).1.node ≡ s.node
  unfolding stream_loop
  stream_loop-node addr call [] s = refl
  stream_loop-node addr call ((got, status) ∷ reads) s =
      let next : (t : Server)
          → (after_read status (stream_loop sha256 w addr (suc call) reads) t).1.node ≡ t.node =
        λ t.
          after_read-node status (stream_loop sha256 w addr (suc call) reads) t
            (stream_loop-node addr (suc call) reads) in
      elim (Bool-cases (ltb 0 (length got))) [
        | inr f ↦ rw (stream_loop, f) (next s)
        | inl f ↦ elim (Option-cases (value_of (put_chunk sha256 (w.io call) got s.store).0)) [
          | inl e ↦ rw (stream_loop, f, e) refl
          | inr (hash, e) ↦ rw (stream_loop, f, e) (next _ ∙ announce_if_known-node addr hash _)
        ]
      ]

  store_streamed-node :
      (calls : ℕ) (r : Streamed × Server)
      → (store_streamed sha256 codec w cfg calls r).1.node ≡ r.1.node
  store_streamed-node calls (Streamed.stopped a, s) = refl
  store_streamed-node calls (whole infos size, s) =
      grind (arith, store_manifest-node, announce_if_known-node)

  pub handle_post_file_stream-node :
      (reads : List (Bytes × ReadStatus)) (s : Server)
      → (handle_post_file_stream sha256 codec w cfg reads s).1.node ≡ s.node
  unfolding handle_post_file_stream
  handle_post_file_stream-node reads s = grind (arith, store_streamed-node, stream_loop-node)

  load_manifest-node :
      (hash hex : Bytes) (remote : Bool) (s : Server)
      → (load_manifest sha256 w cfg hash hex remote s).1.node ≡ s.node
  unfolding load_manifest
  load_manifest-node hash hex remote s = grind (arith, fetch_chunk_from_network-node sha256 w cfg)

  prepend_loaded-node :
      (b : Bytes) (r : Loaded (List Bytes) × Server) → (prepend_loaded b r).1.node ≡ r.1.node
  prepend_loaded-node b (loaded bs, s) = refl
  prepend_loaded-node b (stopped a, s) = refl

  load_chunks-node :
      (remote : Bool) (call : ℕ) (infos : List ChunkInfo) (s : Server)
      → (load_chunks sha256 w cfg remote call infos s).1.node ≡ s.node
  unfolding load_chunks
  load_chunks-node remote call [] s = refl
  load_chunks-node remote call (info ∷ infos) s =
      let more : (t : Server)
          → (load_chunks sha256 w cfg remote (suc (suc call)) infos t).1.node ≡ t.node =
        load_chunks-node remote (suc (suc call)) infos in
      grind (
        arith,
        more,
        prepend_loaded-node,
        fetch_chunk_from_network-node sha256 w cfg,
        cache_chunk-node sha256 w cfg,
      )

  find_manifest-node :
      (hash hex : Bytes) (remote : Bool) (s : Server)
      → (find_manifest sha256 w cfg hash hex remote s).1.node ≡ s.node
  unfolding find_manifest
  find_manifest-node hash hex remote s = grind (arith, fetch_chunk_from_network-node sha256 w cfg)

  rebuild-node :
      (hex : Bytes) (remote : Bool) (m : FileManifest) (r : Loaded (List Bytes) × Server)
      → (rebuild sha256 hex remote m r).1.node ≡ r.1.node
  rebuild-node hex remote m (stopped a, s) = refl
  rebuild-node hex remote m (loaded chunks, s) = ground arith

  get_by_manifest-node :
      (hex : Bytes) (remote : Bool) (r : Loaded Bytes × Server)
      → (get_by_manifest sha256 codec w cfg hex remote r).1.node ≡ r.1.node
  unfolding get_by_manifest
  get_by_manifest-node hex remote (stopped a, s) = refl
  get_by_manifest-node hex remote (loaded bytes, s) = grind (arith, rebuild-node, load_chunks-node)

  pub handle_get_file-node :
      (hex remote : Bytes) (s : Server)
      → (handle_get_file sha256 codec w cfg hex remote s).1.node ≡ s.node
  unfolding handle_get_file
  handle_get_file-node hex remote s = grind (arith, get_by_manifest-node, load_manifest-node)

  delete_by_manifest-node :
      (hash hex : Bytes) (everywhere : Bool) (r : Loaded Bytes × Server)
      → (delete_by_manifest sha256 codec w cfg hash hex everywhere r).1.node ≡ r.1.node
  unfolding delete_by_manifest
  delete_by_manifest-node hash hex everywhere (stopped a, s) = refl
  delete_by_manifest-node hash hex everywhere (loaded bytes, s) = ground arith

  pub handle_delete_file-node :
      (hex remote global propagate : Bytes) (s : Server)
      → (handle_delete_file sha256 codec w cfg hex remote global propagate s).1.node ≡ s.node
  unfolding handle_delete_file
  handle_delete_file-node hex remote global propagate s =
      grind (arith, delete_by_manifest-node, find_manifest-node)
