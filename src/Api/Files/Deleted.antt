-- ===== src/Api/Files/Deleted.antt =====
-- What `handleDeleteFile` leaves in the store.
use mini_ipfs.Prelude.{
  ℕ, suc, ◌≡◌, ◌≤◌, refl, sym, ◌⊎◌, inl, inr, Bool, false, not, ◌&&◌, Option, none, some, List, [],
  ◌∷◌, length, All, ◌==◌, Bytes, Bool-cases, Option-cases, arith,
}
use mini_ipfs.Storage.Chunker.{ChunkInfo, FileManifest}
use mini_ipfs.Storage.Disk.{NodupPaths}
use mini_ipfs.Storage.Disk.Laws.{lookup-remove_self}
use mini_ipfs.Storage.Store.{ChunkStore, Faults, get_chunk, delete_chunk, path_of, stat}
use mini_ipfs.Storage.Store.Contents.{chunk_at}
use mini_ipfs.Storage.Store.Contents.Delete.{delete_chunk-NodupPaths, delete_chunk-some}
use mini_ipfs.Storage.Store.Paths.{IsDigest}
use mini_ipfs.Api.State.{
  Server, Settings, World, ManifestCodec, Answer, respond, refuse, file_gone, value_of, is_on,
  is_off, with_store,
}
use mini_ipfs.Api.Fetch.{fetch_chunk_from_network}
use mini_ipfs.Api.Fetch.Laws.{Fetched-cases, value_of-get_chunk, fetch_chunk_from_network_sound}
use mini_ipfs.Api.Steps.{fetch_chunk_from_network-store}
use mini_ipfs.Api.Chunks.{parse_hash}
use mini_ipfs.Api.Files.{delete_chunks}
use mini_ipfs.Api.Files.Load.{
  Loaded, loaded, stopped, find_manifest, file_deleted_answer, delete_by_manifest,
  handle_delete_file,
}

-- No `GetChunk` of the hash succeeds.
abbrev pub IsUnavailable : (sha256 : Bytes → Bytes) → Bytes → ChunkStore → Type 0
IsUnavailable sha256 h s = (io : Faults) → value_of (get_chunk sha256 io h s) ≡ none

-- There is no file for the hash, or it is none of 32 bytes.
abbrev IsGone : Bytes → ChunkStore → Type 0
IsGone h s = (chunk_at h s ≡ none) ⊎ ((length h == 32) ≡ false)

-- The operating system deletes what is there.
abbrev pub CanDelete : World → Type 0
CanDelete w = (i : ℕ) → ((w.io i).stat_fails ≡ false) × ((w.io i).remove_fails ≡ false)

IsGone-IsUnavailable :
    (sha256 : Bytes → Bytes) (h : Bytes) (s : ChunkStore) → IsGone h s → IsUnavailable sha256 h s
unfolding get_chunk chunk_at
IsGone-IsUnavailable sha256 h s gone io = ground arith

delete_chunk-IsGone :
    (io : Faults) (h : Bytes) (s : ChunkStore)
    → io.stat_fails ≡ false
    → io.remove_fails ≡ false
    → NodupPaths s.disk
    → IsGone h (delete_chunk io h s).1
unfolding delete_chunk chunk_at stat
delete_chunk-IsGone io h s stats removes u = elim (Bool-cases (length h == 32)) [
  | inr e ↦ inr e
  | inl e ↦ inl (ground (arith, lookup-remove_self (path_of h) s.disk u))
]

delete_chunk-IsGone_still :
    (io : Faults) (h g : Bytes) (s : ChunkStore)
    → NodupPaths s.disk
    → IsGone g s
    → IsGone g (delete_chunk io h s).1
delete_chunk-IsGone_still io h g s u (inr e) = inr e
delete_chunk-IsGone_still io h g s u (inl e) =
    elim (Option-cases (chunk_at g (delete_chunk io h s).1)) [
      | inl f ↦ inl f
      | inr (c, f) ↦ cc (e, delete_chunk-some io h g c s u f)
    ]

module _ (w : World) (can : CanDelete w) where
  delete_chunks-IsGone :
      (call : ℕ) (infos : List ChunkInfo) (s : ChunkStore)
      → NodupPaths s.disk
      → let (removed, t) = delete_chunks w.io call infos s in
        NodupPaths t.disk
        × All (λ ci. IsGone ci.hash t) infos
        × ((g : Bytes) → IsGone g s → IsGone g t)
        × (removed ≤ length infos)
  unfolding delete_chunks
  delete_chunks-IsGone call [] s u = (u, tt, λ g gone. gone, omega arith)
  delete_chunks-IsGone call (info ∷ infos) s u =
      let s' = (delete_chunk (w.io call) info.hash s).1 in
      let u' = delete_chunk-NodupPaths (w.io call) info.hash s u in
      let (v, all, still, few) = delete_chunks-IsGone (suc call) infos s' u' in
      let first = delete_chunk-IsGone (w.io call) info.hash s (can call).0 (can call).1 u in
      (
        v,
        (still info.hash first, all),
        λ g gone. still g (delete_chunk-IsGone_still (w.io call) info.hash g s u gone),
        ground arith,
      )

-- What is left of a file after its deletion: nothing of its manifest, nothing of its chunks.
pub record IsDeleted (sha256 : Bytes → Bytes) (codec : ManifestCodec) (hash : Bytes)
    (removed total : ℕ) (t : ChunkStore) : Type 0 where
  pub bytes : Bytes
  pub right : sha256 bytes ≡ hash
  pub manifest : FileManifest
  pub decoded : codec.unmarshal bytes ≡ some manifest
  pub manifest_gone : IsUnavailable sha256 hash t
  pub chunks_gone : All (λ ci. IsUnavailable sha256 ci.hash t) manifest.chunks
  pub few : removed ≤ total
  pub all : total ≡ length manifest.chunks

All-map :
    {A : Type 0} {P Q : A → Type 0} → ((a : A) → P a → Q a) → (xs : List A) → All P xs → All Q xs
All-map f [] p = tt
All-map f (x ∷ xs) (p, ps) = (f x p, All-map f xs ps)

-- The last step of the handler keeps the store and tells the counts.
told :
    (hex : Bytes) (n m : ℕ) (a b : Option (ℕ × ℕ)) (s : Server) (removed total c d e f : ℕ)
    → (file_deleted_answer hex n m a b s).0 ≡ respond 200 (file_gone removed total c d e f)
    → ((file_deleted_answer hex n m a b s).1.store ≡ s.store) × (n ≡ removed) × (m ≡ total)
told hex n m none b s removed total c d e f h = cc h
told hex n m (some x) none s removed total c d e f h = cc h
told hex n m (some x) (some y) s removed total c d e f h = (refl, cc h, cc h)

module _ (sha256 : Bytes → Bytes) (codec : ManifestCodec) (w : World) (cfg : Settings)
    (can : CanDelete w) where
  delete_by_manifest-IsDeleted :
      (hash hex : Bytes) (everywhere : Bool) (r : Loaded Bytes × Server) (removed total a b c d : ℕ)
      → NodupPaths r.1.store.disk
      → ((bytes : Bytes) → r.0 ≡ loaded bytes → sha256 bytes ≡ hash)
      → ((x : Answer) → r.0 ≡ stopped x → (x ≡ refuse 404) ⊎ (x ≡ Answer.aborted))
      → let (answer, t) = delete_by_manifest sha256 codec w cfg hash hex everywhere r in
        answer ≡ respond 200 (file_gone removed total a b c d)
        → IsDeleted sha256 codec hash removed total t.store
  unfolding delete_by_manifest
  delete_by_manifest-IsDeleted hash hex everywhere (stopped x, s) removed total a b c d u right
        early e =
      elim (early x refl) [ inl f ↦ cc (e, f) | inr f ↦ cc (e, f) ]
  delete_by_manifest-IsDeleted hash hex everywhere (loaded bytes, s) removed total a b c d u right
        early e =
      elim (Option-cases (codec.unmarshal bytes)) [
        | inl f ↦ cc (rw (delete_by_manifest, f) at e)
        | inr (m, f) ↦
            let (v, all, still, few) = delete_chunks-IsGone w can 1 m.chunks s.store u in
            let last = suc (length m.chunks) in
            let store = (delete_chunks w.io 1 m.chunks s.store).1 in
            let store' = (delete_chunk (w.io last) hash store).1 in
            let (same, n, k) =
              told hex _ _ _ _ (with_store store' s) removed total a b c d
                (rw (delete_by_manifest, f) at e) in
            rw (delete_by_manifest, f, same)
              (record {
                bytes = bytes;
                right = right bytes refl;
                manifest = m;
                decoded = f;
                manifest_gone =
                    IsGone-IsUnavailable sha256 hash store'
                      (delete_chunk-IsGone (w.io last) hash store (can last).0 (can last).1 v);
                chunks_gone =
                    All-map
                      (λ ci gone.
                        IsGone-IsUnavailable sha256 ci.hash store'
                          (delete_chunk-IsGone_still (w.io last) hash ci.hash store v gone))
                      m.chunks all;
                few = omega (arith, n, k);
                all = sym k;
              })
      ]

  find_manifest-early :
      (hash hex : Bytes) (remote : Bool) (s : Server)
      → IsDigest sha256
      → ((find_manifest sha256 w cfg hash hex remote s).1.store ≡ s.store)
        × ((x : Answer)
            → (find_manifest sha256 w cfg hash hex remote s).0 ≡ stopped x
            → (x ≡ refuse 404) ⊎ (x ≡ Answer.aborted))
        × ((bytes : Bytes)
            → (find_manifest sha256 w cfg hash hex remote s).0 ≡ loaded bytes
            → sha256 bytes ≡ hash)
  unfolding find_manifest
  find_manifest-early hash hex remote s digest =
      let tried = fetch_chunk_from_network-store sha256 w cfg hash hex s in
      elim (Option-cases (value_of (get_chunk sha256 (w.io 0) hash s.store))) [
        | inr e ↦
            rw (find_manifest, e.1)
              (
                refl,
                λ x f. cc f,
                λ b f. value_of-get_chunk sha256 w 0 hash b s.store digest (cc (e.1, f)),
              )
        | inl e ↦ elim (Bool-cases remote) [
          | inr r ↦ rw (find_manifest, e, r) (refl, λ x f. inl (cc f), λ b f. cc f)
          | inl r ↦ elim (Fetched-cases (fetch_chunk_from_network sha256 w hash hex cfg s).0) [
            | inl f ↦ rw (find_manifest, e, r, f) (tried, λ x g. inr (cc g), λ b g. cc g)
            | inr (inl f) ↦ rw (find_manifest, e, r, f) (tried, λ x g. inl (cc g), λ b g. cc g)
            | inr (inr (b, f)) ↦
                rw (find_manifest, e, r, f)
                  (
                    tried,
                    λ x g. cc g,
                    λ c g. fetch_chunk_from_network_sound sha256 w hash hex cfg s c (cc (f, g)),
                  )
          ]
        ]
      ]

  -- After a deletion that was answered with success, where the operating system deletes what is there,
  -- neither the bytes of the requested hash, which make a manifest, nor any of the chunks that this
  -- manifest lists can be read from the store. As many chunks are reported as the manifest lists, and at
  -- most as many as removed.
  pub handle_delete_file-IsDeleted :
      (hex remote global propagate : Bytes) (s : Server) (removed total a b c d : ℕ)
      → IsDigest sha256
      → NodupPaths s.store.disk
      → let (answer, t) = handle_delete_file sha256 codec w cfg hex remote global propagate s in
        answer ≡ respond 200 (file_gone removed total a b c d)
        → (hash : Bytes) × (parse_hash hex ≡ some hash)
          × IsDeleted sha256 codec hash removed total t.store
  unfolding handle_delete_file
  handle_delete_file-IsDeleted hex remote global propagate s removed total a b c d digest u e =
      elim (Option-cases (parse_hash hex)) [
        | inl f ↦ cc (rw (handle_delete_file, f) at e)
        | inr (hash, f) ↦
            let (same, early, right) = find_manifest-early hash hex (is_on remote) s digest in
            (
              hash,
              f,
              rw (handle_delete_file, f)
                  (delete_by_manifest-IsDeleted hash hex (is_on global && not (is_off propagate))
                    (find_manifest sha256 w cfg hash hex (is_on remote) s) removed total a b c d
                    (rw same u) right early (rw (handle_delete_file, f) at e)),
            )
      ]
