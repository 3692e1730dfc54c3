-- ===== src/Storage/Chunker/Rebuild.antt =====
-- The two loops of `ReconstructData`: what they accept and where they put the chunks.
pub mod RoundTrip
use mini_ipfs.Prelude.{
  ℕ, zero, suc, ◌+◌, ◌-◌, ◌≤◌, ◌<◌, ◌≡◌, ◌↔◌, refl, sym, ap, ◌∙◌, inl, inr, true, false, List, [],
  ◌∷◌, ◌++◌, map, arith, tests, ltb, leb, ◌==◌, ==_iff, length, take, drop, concat, replicate,
  take-append-drop, length-take, length-drop, drop-drop, drop-all, take-all, take-append_left,
  length-append, length-replicate, append-nil, append_assoc, Bool-cases, ok, err, running, panic,
  pos, negsuc, ℤ, eq_int, Bytes, Result, ◌>>=◌, >>=-eq-ok, if◌then◌else◌, lt→ltb, ltb→lt, leb→le,
}
use mini_ipfs.Storage.Chunker.{
  Chunker, ChunkInfo, FileManifest, ChunkerError, chunk_data, bytes_equal, same_elements, overwrite,
  copy_at, copy_loop, make_bytes, verify, reconstruct_data, create_manifest, hash_chunk, chunk_info,
  current_timestamp,
}
use mini_ipfs.Storage.Chunker.Copy.{
  bytes_equal_iff, eq_int_iff, copy_at_lem, overwrite-append, overwrite_fits, length-overwrite,
  overwrite-zeros, overwrite-nil,
}
use mini_ipfs.Storage.Chunker.Split.{IsSplit, chunk_data-IsSplit}

-- Each chunk has the hash and the size that the manifest gives for its place.
abbrev pub Matches : (Bytes → Bytes) → List Bytes → List ChunkInfo → Type 0
Matches sha256 [] [] = Unit
Matches sha256 [] (info ∷ infos) = ⊥
Matches sha256 (c ∷ cs) [] = ⊥
Matches sha256 (c ∷ cs) (info ∷ infos) =
    (info.hash ≡ sha256 c) × (info.size ≡ pos (length c)) × Matches sha256 cs infos

pub Matches-length :
    (sha256 : Bytes → Bytes) (cs : List Bytes) (infos : List ChunkInfo)
    → Matches sha256 cs infos
    → length cs ≡ length infos
Matches-length sha256 [] [] m = refl
Matches-length sha256 [] (info ∷ infos) m = absurd m
Matches-length sha256 (c ∷ cs) [] m = absurd m
Matches-length sha256 (c ∷ cs) (info ∷ infos) m = omega (arith, Matches-length sha256 cs infos m.2)

pub verify_ok :
    (sha256 : Bytes → Bytes) (i : ℕ) (cs : List Bytes) (infos : List ChunkInfo)
    → Matches sha256 cs infos
    → verify sha256 i cs infos ≡ ok tt
unfolding verify hash_chunk
verify_ok sha256 i [] [] m = refl
verify_ok sha256 i [] (info ∷ infos) m = absurd m
verify_ok sha256 i (c ∷ cs) [] m = absurd m
verify_ok sha256 i (c ∷ cs) (info ∷ infos) m =
    rw ((bytes_equal_iff info.hash (sha256 c)).1 m.0) (verify_ok sha256 (suc i) cs infos m.2)

-- Chunks that fit are laid out one after the other, and the rest of the buffer stays.
pub copy_loop_fits :
    (sha256 : Bytes → Bytes) (i : ℕ) (pre suf : Bytes) (cs : List Bytes) (infos : List ChunkInfo)
    → Matches sha256 cs infos
    → length (concat cs) ≤ length suf
    → copy_loop i (length pre) cs infos (pre ++ suf)
      ≡ ok (pre ++ (concat cs ++ drop (length (concat cs)) suf))
unfolding copy_loop
copy_loop_fits sha256 i pre suf [] [] m h = refl
copy_loop_fits sha256 i pre suf [] (info ∷ infos) m h = absurd m
copy_loop_fits sha256 i pre suf (c ∷ cs) [] m h = absurd m
copy_loop_fits sha256 i pre suf (c ∷ cs) (info ∷ infos) m h =
    let total = length-append c (concat cs) in
    rw
      (
        (eq_int_iff (pos (length c)) info.size).1 (sym m.1),
        copy_at_lem pre suf c,
        overwrite_fits suf c (omega (arith, total)),
        ← append_assoc pre c (drop (length c) suf),
        ← length-append pre c,
      )
      (copy_loop_fits sha256 (suc i) (pre ++ c) (drop (length c) suf) cs infos m.2
          (omega (arith, total, length-drop (length c) suf))
        ∙ simp (
          append_assoc,
          drop-drop (length c) (length (concat cs)) (length (c ++ concat cs)) suf total,
        ))

-- Past the end of the buffer only an empty rest of the loop does not panic.
copy_loop_past :
    (sha256 : Bytes → Bytes) (i offset : ℕ) (bytes : Bytes) (cs : List Bytes)
    (infos : List ChunkInfo) (out : Bytes)
    → length bytes < offset
    → length cs ≡ length infos
    → copy_loop i offset cs infos bytes ≡ ok out
    → Matches sha256 cs infos × (concat cs ≡ []) × (out ≡ bytes)
unfolding copy_loop copy_at
copy_loop_past sha256 i offset bytes [] [] out h e r = (tt, refl, cc)
copy_loop_past sha256 i offset bytes [] (info ∷ infos) out h e r = absurd (omega arith)
copy_loop_past sha256 i offset bytes (c ∷ cs) [] out h e r = absurd (omega arith)
copy_loop_past sha256 i offset bytes (c ∷ cs) (info ∷ infos) out h e r = absurd (ground arith)

pub copy_loop_sound :
    (sha256 : Bytes → Bytes) (i j : ℕ) (pre suf : Bytes) (cs : List Bytes) (infos : List ChunkInfo)
    (out : Bytes)
    → length cs ≡ length infos
    → verify sha256 j cs infos ≡ ok tt
    → copy_loop i (length pre) cs infos (pre ++ suf) ≡ ok out
    → Matches sha256 cs infos × (out ≡ pre ++ overwrite suf (concat cs))
unfolding copy_loop verify hash_chunk
copy_loop_sound sha256 i j pre suf [] [] out e v r = (tt, rw (overwrite-nil suf) (cc))
copy_loop_sound sha256 i j pre suf [] (info ∷ infos) out e v r = absurd (omega arith)
copy_loop_sound sha256 i j pre suf (c ∷ cs) [] out e v r = absurd (omega arith)
copy_loop_sound sha256 i j pre suf (c ∷ cs) (info ∷ infos) out e v r =
    elim (Bool-cases (bytes_equal info.hash (sha256 c))) [
      | inr no_hash ↦ cc (rw no_hash at v)
      | inl hash ↦ elim (Bool-cases (eq_int (pos (length c)) info.size)) [
        | inr no_size ↦ cc (rw no_size at r)
        | inl size ↦
            let v' = rw hash at v in
            let r' = rw (size, copy_at_lem pre suf c) at r in
            elim (Bool-cases (leb (length c) (length suf))) [
              | inl fits ↦
                  let fit : length c ≤ length suf = leb→le _ _ fits in
                  let r'' =
                    rw
                      (
                        overwrite_fits suf c fit,
                        ← append_assoc pre c (drop (length c) suf),
                        ← length-append pre c,
                      )
                      at r' in
                  let (m, q) =
                    copy_loop_sound sha256 (suc i) (suc j) (pre ++ c) (drop (length c) suf) cs infos
                      out (omega arith) v' r'' in
                  (
                    ((bytes_equal_iff _ _).0 hash, sym ((eq_int_iff _ _).0 size), m),
                    q ∙ simp (append_assoc, overwrite-append suf c (concat cs) fit),
                  )
              | inr past ↦
                  let (m, nil, q) =
                    copy_loop_past sha256 (suc i) _ _ cs infos out
                      (ground (arith, length-append pre (overwrite suf c), length-overwrite suf c))
                      (omega arith) r' in
                  (
                    ((bytes_equal_iff _ _).0 hash, sym ((eq_int_iff _ _).0 size), m),
                    q ∙ rw (nil, append-nil c),
                  )
            ]
      ]
    ]
