-- ===== src/Api/Files/Kept.antt =====
-- What stays in the store while a file is uploaded, if no two of the chunks in play share a hash.
use mini_ipfs.Prelude.{
  ℕ, suc, ◌≡◌, ◌<◌, refl, sym, ap, ◌∙◌, inl, inr, Option, some, List, [], ◌∷◌, map, length, All,
  eq_bytes, eq_bytes_iff, eq_bytes_ne, Bytes, Bool-cases, Option-cases,
}
use mathlib.Core.Option.{some-injective}
use mathlib.Core.Path.{subst}
use mini_ipfs.Storage.Chunker.{ChunkInfo}
use mini_ipfs.Storage.Store.{ChunkStore, Faults, no_faults, put_chunk}
use mini_ipfs.Storage.Store.Paths.{IsHash, IsDigest}
use mini_ipfs.Storage.Store.Contents.{chunk_at, put_chunk_effect, put_chunk-other, put_chunk_self}
use mini_ipfs.Storage.Store.Contents.PutGet.{put_chunk_succeeds}
use mini_ipfs.Api.Files.{info_of, store_chunks}

module _ (sha256 : Bytes → Bytes) (P : Bytes → Type 0) where
  -- No two texts with the property share a hash.
  abbrev pub NoCollision : Type 0
  NoCollision = (a b : Bytes) → P a → P b → sha256 a ≡ sha256 b → a ≡ b

  -- Every chunk file has the property and the hash that it is named after.
  abbrev pub HoldsOnly : ChunkStore → Type 0
  HoldsOnly s = (h c : Bytes) → IsHash h → chunk_at h s ≡ some c → P c × (sha256 c ≡ h)

module _ (sha256 : Bytes → Bytes) where
  -- The chunk's own file holds it.
  abbrev pub IsKept : Bytes → ChunkStore → Type 0
  IsKept b s = chunk_at (sha256 b) s ≡ some b

module _ (sha256 : Bytes → Bytes) (P : Bytes → Type 0) (digest : IsDigest sha256)
    (distinct : NoCollision sha256 P) where
  put_chunk-HoldsOnly :
      (io : Faults) (b : Bytes) (s : ChunkStore)
      → P b
      → HoldsOnly sha256 P s
      → HoldsOnly sha256 P (put_chunk sha256 io b s).1
  put_chunk-HoldsOnly io b s p only h c v at = elim (Bool-cases (eq_bytes h (sha256 b))) [
    | inr ne ↦
        only h c v
          (sym (put_chunk-other sha256 digest io h b s v (eq_bytes_ne h (sha256 b) ne)) ∙ at)
    | inl e ↦
        let same = (eq_bytes_iff h (sha256 b)).0 e in
        let at' : chunk_at (sha256 b) (put_chunk sha256 io b s).1 ≡ some c = rw (← same) at in
        elim (put_chunk_self sha256 digest io b s) [
          | inl new ↦
              let eq : b ≡ c = some-injective b c (sym new.0 ∙ at') in
              (subst P eq p, ap sha256 (sym eq) ∙ sym same)
          | inr old ↦ only h c v (rw same (cc))
        ]
  ]

  pub put_chunk-IsKept :
      (b : Bytes) (s : ChunkStore)
      → P b
      → 0 < length b
      → HoldsOnly sha256 P s
      → IsKept sha256 b (put_chunk sha256 no_faults b s).1
  put_chunk-IsKept b s p nonempty only =
      let stored =
        ap (λ (r : _). (r, (put_chunk sha256 no_faults b s).1))
          (put_chunk_succeeds sha256 digest b s nonempty) in
      let (_, effect) = put_chunk_effect sha256 digest no_faults b (sha256 b) s _ stored in
      elim effect [
        | inl at ↦ at
        | inr (same, there) ↦ elim (Option-cases (chunk_at (sha256 b) s)) [
          | inl gone ↦ absurd (there gone)
          | inr (c, at) ↦
              let (q, named) = only (sha256 b) c (digest b) at in
              rw same (at ∙ ap some (distinct c b q p named))
        ]
      ]

  pub put_chunk-IsKept_still :
      (a b : Bytes) (s : ChunkStore)
      → P a
      → P b
      → 0 < length b
      → HoldsOnly sha256 P s
      → IsKept sha256 a s
      → IsKept sha256 a (put_chunk sha256 no_faults b s).1
  put_chunk-IsKept_still a b s p q nonempty only kept =
      elim (Bool-cases (eq_bytes (sha256 a) (sha256 b))) [
        | inr ne ↦
            put_chunk-other sha256 digest no_faults (sha256 a) b s (digest a) (eq_bytes_ne _ _ ne)
            ∙ kept
        | inl e ↦
            rw (distinct a b p q ((eq_bytes_iff _ _).0 e)) (put_chunk-IsKept b s q nonempty only)
      ]

  -- What the loop of `handlePostFile` does with chunks that the operating system takes.
  pub record Uploaded (chunks : List Bytes) (infos : Option (List ChunkInfo))
      (before after : ChunkStore) : Type 0 where
    pub listed : infos ≡ some (map (λ (c : Bytes). info_of (sha256 c) c) chunks)
    pub only : HoldsOnly sha256 P after
    pub kept : All (λ c. IsKept sha256 c after) chunks
    pub still : (a : Bytes) → P a → IsKept sha256 a before → IsKept sha256 a after

  pub store_chunks-Uploaded :
      (io : ℕ → Faults) (call : ℕ) (chunks : List Bytes) (s : ChunkStore)
      → ((i : ℕ) → io i ≡ no_faults)
      → All P chunks
      → All (λ c. 0 < length c) chunks
      → HoldsOnly sha256 P s
      → Uploaded chunks
          (store_chunks sha256 io call chunks s).0
          s
          (store_chunks sha256 io call chunks s).1
  unfolding store_chunks
  store_chunks-Uploaded io call [] s working ps nonempty only = record {
    listed = refl;
    only = only;
    kept = tt;
    still = λ a p kept. kept;
  }
  store_chunks-Uploaded io call (c ∷ chunks) s working (p, ps) (n, nonempty) only =
      let stored = put_chunk_succeeds sha256 digest c s n in
      let s' = (put_chunk sha256 no_faults c s).1 in
      let rest =
        store_chunks-Uploaded io (suc call) chunks s' working ps nonempty
          (put_chunk-HoldsOnly no_faults c s p only) in
      rw (store_chunks, working call, stored, working call, rest.listed)
        (record {
          listed = refl;
          only = rest.only;
          kept = (rest.still c p (put_chunk-IsKept c s p n only), rest.kept);
          still = λ a q kept. rest.still a q (put_chunk-IsKept_still a c s q p n only kept);
        })
