-- ===== src/Storage/Chunker/Rebuild/RoundTrip.antt =====
-- `ReconstructData`: what it accepts, what it returns, and the round trip through `CreateManifest`.
use mini_ipfs.Prelude.{
  ℕ, ◌≤◌, ◌<◌, ◌≡◌, refl, sym, ap, ◌∙◌, inl, inr, List, [], ◌∷◌, ◌++◌, map, arith, ◌==◌, ==_iff,
  length, take, drop, concat, replicate, drop-all, length-replicate, append-nil, Bool-cases, ok,
  panic, pos, negsuc, ℤ, Bytes, ◌>>=◌, >>=-eq-ok,
}
use mini_ipfs.Storage.Chunker.{
  Chunker, ChunkInfo, FileManifest, chunk_data, copy_at, copy_loop, make_bytes, verify,
  reconstruct_data, create_manifest, hash_chunk, chunk_info,
}
use mini_ipfs.Storage.Chunker.Copy.{eq_int_iff, length-overwrite, overwrite-zeros}
use mini_ipfs.Storage.Chunker.Split.{chunk_data-IsSplit}
use mini_ipfs.Storage.Chunker.Rebuild.{
  Matches, Matches-length, verify_ok, copy_loop_fits, copy_loop_sound,
}

-- The part of `ReconstructData` after the counts agree.
sound_at :
    (sha256 : Bytes → Bytes) (chunks : List Bytes) (infos : List ChunkInfo) (size : ℤ) (out : Bytes)
    → length chunks ≡ length infos
    → (verify sha256 0 chunks infos >>= λ _. make_bytes size >>= copy_loop 0 0 chunks infos)
      ≡ ok out
    → (n : ℕ) × (size ≡ pos n)
      × Matches sha256 chunks infos
      × (out ≡ take n (concat chunks ++ replicate n 0))
unfolding make_bytes
sound_at sha256 chunks infos (negsuc n) out e h =
    let (_, r, _) = >>=-eq-ok _ _ (verify sha256 0 chunks infos) h in cc r
sound_at sha256 chunks infos (pos n) out e h =
    let (_, r, v) = >>=-eq-ok _ _ (verify sha256 0 chunks infos) h in
    let (m, q) = copy_loop_sound sha256 0 0 [] (replicate n 0) chunks infos out e v r in
    (n, refl, m, q ∙ overwrite-zeros n n (concat chunks) (omega arith))

-- The second slice `data[offset:]` lies past the end.
overflow :
    (sha256 : Bytes → Bytes) (c d : Bytes) (cs : List Bytes) (infos : List ChunkInfo) (n : ℕ)
    → Matches sha256 (c ∷ d ∷ cs) infos
    → n < length c
    → copy_loop 0 0 (c ∷ d ∷ cs) infos (replicate n 0) ≡ panic
unfolding copy_loop copy_at
overflow sha256 c d cs [] n m h = absurd m
overflow sha256 c d cs (i ∷ []) n m h = absurd m.2
overflow sha256 c d cs (i ∷ j ∷ infos) n m h =
    rw
      (
        (eq_int_iff (pos (length c)) i.size).1 (sym m.1),
        (eq_int_iff (pos (length d)) j.size).1 (sym m.2.1),
      )
      (ground (arith, length-overwrite (replicate n 0) c, length-replicate {0} {A = ℕ} n 0))

module _ (sha256 : Bytes → Bytes) where
  -- If `ReconstructData` returns data, every chunk has the hash and the size that the manifest gives
  -- for its place, and the data are the chunks one after the other, cut or filled up with zeros to
  -- the original size.
  pub reconstruct_data_sound :
      (chunks : List Bytes) (manifest : FileManifest) (out : Bytes)
      → reconstruct_data sha256 chunks manifest ≡ ok out
      → (n : ℕ) × (manifest.original_size ≡ pos n)
        × Matches sha256 chunks manifest.chunks
        × (out ≡ take n (concat chunks ++ replicate n 0))
  unfolding reconstruct_data
  reconstruct_data_sound chunks manifest out h =
      elim (Bool-cases (length chunks == length manifest.chunks)) [
        | inl e ↦
            sound_at sha256 chunks manifest.chunks manifest.original_size out ((==_iff _ _).0 e)
              (rw e at h)
        | inr e ↦ cc (rw e at h)
      ]

  -- Chunks that match the manifest and are no longer than its original size are accepted, and the
  -- data are filled up with zeros to that size.
  pub reconstruct_data_complete :
      (chunks : List Bytes) (manifest : FileManifest) (n : ℕ)
      → Matches sha256 chunks manifest.chunks
      → manifest.original_size ≡ pos n
      → length (concat chunks) ≤ n
      → reconstruct_data sha256 chunks manifest
        ≡ ok (concat chunks ++ drop (length (concat chunks)) (replicate n 0))
  unfolding reconstruct_data
  reconstruct_data_complete chunks manifest n m e h =
      rw
        (
          (==_iff _ _).1 (Matches-length sha256 chunks manifest.chunks m),
          verify_ok sha256 0 chunks manifest.chunks m,
          e,
        )
        (copy_loop_fits sha256 0 [] (replicate n 0) chunks manifest.chunks m
          (omega (arith, length-replicate {0} {A = ℕ} n 0)))

  Matches-chunk_info :
      (chunks : List Bytes) → Matches sha256 chunks (map (chunk_info sha256) chunks)
  unfolding hash_chunk
  Matches-chunk_info [] = tt
  Matches-chunk_info (c ∷ cs) = (refl, refl, Matches-chunk_info cs)

  -- With a chunk size above 0, splitting data, making the manifest and putting the chunks together
  -- again returns the data.
  pub reconstruct_data-create_manifest :
      (fuel size : ℕ) (bytes : Bytes)
      → 0 < size
      → length bytes < fuel
      → let c : Chunker = record { chunk_size = pos size } in
        (chunk_data fuel c bytes >>= λ chunks.
        create_manifest sha256 fuel c bytes >>= λ manifest. reconstruct_data sha256 chunks manifest)
        ≡ ok bytes
  unfolding create_manifest
  reconstruct_data-create_manifest fuel size bytes z h =
      let (chunks, p, q, s) = chunk_data-IsSplit fuel size bytes z h in
      rw p (
        reconstruct_data_complete chunks _ (length bytes) (Matches-chunk_info chunks) refl
          (omega (arith, ap length q))
        ∙ rw
            (
              q,
              drop-all (length bytes) (replicate {A = ℕ} (length bytes) 0)
                  (omega (arith, length-replicate {0} {A = ℕ} (length bytes) 0)),
            )
            (ap ok (append-nil bytes)))

  -- A manifest whose original size is below the size of its first chunk makes `ReconstructData`
  -- panic on any matching chunks, if there are two or more.
  pub reconstruct_data_panics :
      (c d : Bytes) (cs : List Bytes) (manifest : FileManifest) (n : ℕ)
      → Matches sha256 (c ∷ d ∷ cs) manifest.chunks
      → manifest.original_size ≡ pos n
      → n < length c
      → reconstruct_data sha256 (c ∷ d ∷ cs) manifest ≡ panic
  unfolding reconstruct_data
  reconstruct_data_panics c d cs manifest n m e h =
      rw
        (
          (==_iff _ _).1 (Matches-length sha256 (c ∷ d ∷ cs) manifest.chunks m),
          verify_ok sha256 0 _ manifest.chunks m,
          e,
        )
        (overflow sha256 c d cs manifest.chunks n m h)
