-- ===== src/Storage/Store/Contents/PutGet.antt =====
-- `PutChunk` followed by `GetChunk`, and the integrity of the stored chunks.
use mini_ipfs.Prelude.{
  eq_bytes, eq_bytes_iff, eq_bytes_ne, ◌<◌, ◌≡◌, ◌≢◌, ◌⊎◌, refl, sym, ◌∙◌, inl, inr, false, some,
  length, arith, Bytes, Bool-cases, Option-cases, ok, err,
}
use mini_ipfs.Storage.Store.{
  no_faults, ChunkStore, StoreError, Faults, put_chunk, write_chunk, get_chunk,
}
use mini_ipfs.Storage.Store.Paths.{IsHash, IsDigest}
use mini_ipfs.Storage.Store.Contents.{
  chunk_at, put_chunk_effect, put_chunk-other, put_chunk_self, get_chunk_intact,
}

module _ (sha256 : Bytes → Bytes) where
  -- Every chunk file holds bytes with the hash that it is named after.
  abbrev pub IsIntact : ChunkStore → Type 0
  IsIntact s = (h c : Bytes) → IsHash h → chunk_at h s ≡ some c → sha256 c ≡ h

module _ (sha256 : Bytes → Bytes) (digest : IsDigest sha256) where
  -- After a successful `PutChunk`, a `GetChunk` of the returned hash that can read the file returns
  -- bytes with the hash of what was put, if the file of that hash, where there was one, was intact.
  -- They are the bytes that were put, unless they were in that file already.
  pub get_chunk-put_chunk :
      (io io' : Faults) (bytes h : Bytes) (s s' : ChunkStore)
      → put_chunk sha256 io bytes s ≡ (ok h, s')
      → ((c : Bytes) → chunk_at h s ≡ some c → sha256 c ≡ h)
      → io'.read_fails ≡ false
      → (c : Bytes) × (get_chunk sha256 io' h s' ≡ ok c)
        × (sha256 c ≡ sha256 bytes)
        × ((c ≡ bytes) ⊎ (chunk_at h s ≡ some c))
  get_chunk-put_chunk io io' bytes h s s' e intact r =
      let (named, effect) = put_chunk_effect sha256 digest io bytes h s s' e in
      let v : IsHash h = rw named (digest bytes) in
      elim effect [
        | inl stored ↦ (
          bytes,
          get_chunk_intact sha256 digest io' h bytes s' v r stored (sym named),
          refl,
          inl refl,
        )
        | inr kept ↦ elim (Option-cases (chunk_at h s)) [
          | inl gone ↦ absurd (kept.1 gone)
          | inr there ↦
              let (c, at) = there in
              (
                c,
                rw (kept.0) (get_chunk_intact sha256 digest io' h c s v r at (intact c at)),
                intact c at ∙ named,
                inr at,
              )
        ]
      ]

  get_chunk-same :
      (io : Faults) (g : Bytes) (s t : ChunkStore)
      → chunk_at g s ≡ chunk_at g t
      → get_chunk sha256 io g s ≡ get_chunk sha256 io g t
  unfolding get_chunk chunk_at
  get_chunk-same io g s t e = rw e

  -- `PutChunk` changes no answer of `GetChunk` for another hash of 32 bytes, whether it succeeds or
  -- not.
  pub get_chunk-put_chunk_other :
      (io io' : Faults) (g bytes : Bytes) (s : ChunkStore)
      → IsHash g
      → g ≢ sha256 bytes
      → get_chunk sha256 io' g (put_chunk sha256 io bytes s).1 ≡ get_chunk sha256 io' g s
  get_chunk-put_chunk_other io io' g bytes s v ne =
      get_chunk-same io' g _ s (put_chunk-other sha256 digest io g bytes s v ne)

  -- `PutChunk` keeps the chunk files intact, also when it fails half-way.
  pub put_chunk-IsIntact :
      (io : Faults) (bytes : Bytes) (s : ChunkStore)
      → IsIntact sha256 s
      → IsIntact sha256 (put_chunk sha256 io bytes s).1
  put_chunk-IsIntact io bytes s intact h c v at = elim (Bool-cases (eq_bytes h (sha256 bytes))) [
    | inr ne ↦
        intact h c v (
          sym (put_chunk-other sha256 digest io h bytes s v (eq_bytes_ne h (sha256 bytes) ne)) ∙ at)
    | inl e ↦
        let same = (eq_bytes_iff h (sha256 bytes)).0 e in
        let at' : chunk_at (sha256 bytes) (put_chunk sha256 io bytes s).1 ≡ some c =
          rw (← same) at in
        elim (put_chunk_self sha256 digest io bytes s) [
          | inl new ↦ cc
          | inr old ↦ intact h c v (rw same (cc))
        ]
  ]

  -- A `PutChunk` that fails leaves the totals and every answer of `GetChunk` for a hash of 32 bytes
  -- as they were.
  pub put_chunk_failed :
      (io : Faults) (bytes : Bytes) (s : ChunkStore) (e : StoreError)
      → (put_chunk sha256 io bytes s).0 ≡ err e
      → ((put_chunk sha256 io bytes s).1.stats ≡ s.stats)
        × ((io' : Faults) (g : Bytes)
            → IsHash g
            → get_chunk sha256 io' g (put_chunk sha256 io bytes s).1 ≡ get_chunk sha256 io' g s)
  put_chunk_failed io bytes s e failed = elim (put_chunk_self sha256 digest io bytes s) [
    | inl new ↦ cc
    | inr old ↦ (
      old.1,
      λ io' g v. get_chunk-same io' g _ s (elim (Bool-cases (eq_bytes g (sha256 bytes))) [
        | inr ne ↦ put_chunk-other sha256 digest io g bytes s v (eq_bytes_ne g (sha256 bytes) ne)
        | inl same ↦ rw ((eq_bytes_iff g (sha256 bytes)).0 same) old.0
      ]),
    )
  ]

  -- Without faults `PutChunk` stores any bytes but the empty ones.
  pub put_chunk_succeeds :
      (bytes : Bytes) (s : ChunkStore)
      → 0 < length bytes
      → (put_chunk sha256 no_faults bytes s).0 ≡ ok (sha256 bytes)
  unfolding put_chunk write_chunk
  put_chunk_succeeds bytes s h = ground arith
