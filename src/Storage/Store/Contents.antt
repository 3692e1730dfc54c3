-- ===== src/Storage/Store/Contents.antt =====
-- Which chunks a store holds, as a map from hashes, before and after each operation.
pub mod PutGet
pub mod Delete
use mini_ipfs.Prelude.{
  ℕ, ◌≡◌, ◌≢◌, ◌⊎◌, refl, sym, ap, ◌∙◌, inl, inr, true, false, Bool, Option, none, some, List, [],
  ◌∷◌, ◌==◌, ==_iff, length, arith, if◌then◌else◌, Bytes, Bool-cases, Option-cases, Result, ok, err,
}
use mini_ipfs.Storage.Disk.{lookup, insert, remove, rename, temp_path, NodupPaths}
use mini_ipfs.Storage.Disk.Laws.{
  lookup-insert_ne, lookup-remove_ne, lookup-remove_self, lookup-moved_ne, lookup-moved_self,
}
use mini_ipfs.Storage.Chunker.{bytes_equal}
use mini_ipfs.Storage.Chunker.Copy.{bytes_equal_iff}
use mini_ipfs.Storage.Store.{
  ChunkStore, StoreError, Faults, path_of, stat, StatResult, exists, put_chunk, write_chunk,
  move_chunk, get_chunk, check_read, has_chunk, delete_chunk, delete_at, Write, not_opened,
  cut_short, written, integrity_failed, chunk_not_found, count_stored, empty_chunk, write_failed,
  rename_failed, mkdir_failed,
}
use mini_ipfs.Storage.Store.Paths.{IsHash, IsDigest, path_of-injective, path_of-ne-temp_path}

-- What the file of a hash holds.
unfoldable pub chunk_at : Bytes → ChunkStore → Option Bytes
chunk_at hash s = lookup (path_of hash) s.disk

module _ (sha256 : Bytes → Bytes) (digest : IsDigest sha256) where
  -- Writing and moving a file of one hash leaves the file of every other hash alone.
  move_chunk-other :
      (io : Faults) (h g bytes : Bytes) (s : ChunkStore)
      → IsHash h
      → IsHash g
      → g ≢ h
      → chunk_at g (move_chunk io (path_of h) h bytes s).1 ≡ chunk_at g s
  unfolding chunk_at move_chunk
  move_chunk-other io h g bytes s v w ne =
      let away = path_of-ne-temp_path g h w v in
      ground (
        arith,
        lookup-insert_ne (path_of g) (temp_path (path_of h)) bytes s.disk away,
        lookup-remove_ne (path_of g) (temp_path (path_of h))
            (insert (temp_path (path_of h)) bytes s.disk) away,
        lookup-moved_ne (path_of g) (temp_path (path_of h)) (path_of h) bytes s.disk away
            (λ e. ne (path_of-injective g h w v e)),
      )

  write_chunk-other :
      (how : Write) (io : Faults) (h g bytes : Bytes) (s : ChunkStore)
      → IsHash h
      → IsHash g
      → g ≢ h
      → chunk_at g (write_chunk how io (path_of h) h bytes s).1 ≡ chunk_at g s
  unfolding write_chunk chunk_at
  write_chunk-other not_opened io h g bytes s v w ne = refl
  write_chunk-other (cut_short part) io h g bytes s v w ne =
      lookup-insert_ne (path_of g) (temp_path (path_of h)) part s.disk
        (path_of-ne-temp_path g h w v)
  write_chunk-other written io h g bytes s v w ne = move_chunk-other io h g bytes s v w ne

  -- `PutChunk` leaves what is stored under every other hash as it is, whether it succeeds or not.
  pub put_chunk-other :
      (io : Faults) (g bytes : Bytes) (s : ChunkStore)
      → IsHash g
      → g ≢ sha256 bytes
      → chunk_at g (put_chunk sha256 io bytes s).1 ≡ chunk_at g s
  unfolding put_chunk
  put_chunk-other io g bytes s w ne =
      ground (arith, write_chunk-other io.write io (sha256 bytes) g bytes s (digest bytes) w ne)

  write_chunk_effect :
      (how : Write) (io : Faults) (hash bytes h : Bytes) (s s' : ChunkStore)
      → write_chunk how io (path_of hash) hash bytes s ≡ (ok h, s')
      → (h ≡ hash) × (chunk_at hash s' ≡ some bytes)
  unfolding write_chunk chunk_at
  write_chunk_effect not_opened io hash bytes h s s' e = cc
  write_chunk_effect (cut_short part) io hash bytes h s s' e = cc
  write_chunk_effect written io hash bytes h s s' e =
      ground (arith, lookup-moved_self (temp_path (path_of hash)) (path_of hash) bytes s.disk)

  -- A successful `PutChunk` returns the hash of the bytes. Afterwards the chunk's file holds the
  -- bytes, or the store is as it was, with a file for that hash that was there before.
  pub put_chunk_effect :
      (io : Faults) (bytes h : Bytes) (s s' : ChunkStore)
      → put_chunk sha256 io bytes s ≡ (ok h, s')
      → (h ≡ sha256 bytes) × ((chunk_at h s' ≡ some bytes) ⊎ ((s' ≡ s) × (chunk_at h s ≢ none)))
  unfolding put_chunk chunk_at stat
  put_chunk_effect io bytes h s s' e =
      ground (arith, write_chunk_effect io.write io (sha256 bytes) bytes h s s')

  -- A chunk that `GetChunk` returns has the hash that was asked for, whatever is on the disk.
  pub get_chunk-hash :
      (io : Faults) (h c : Bytes) (s : ChunkStore) → get_chunk sha256 io h s ≡ ok c → sha256 c ≡ h
  unfolding get_chunk
  get_chunk-hash io h c s e = ground (arith, bytes_equal_iff h (sha256 c))

  pub get_chunk_intact :
      (io : Faults) (h c : Bytes) (s : ChunkStore)
      → IsHash h
      → io.read_fails ≡ false
      → chunk_at h s ≡ some c
      → sha256 c ≡ h
      → get_chunk sha256 io h s ≡ ok c
  unfolding get_chunk chunk_at
  get_chunk_intact io h c s v r e k =
      rw ((==_iff _ _).1 v.size, e, r) (rw ((bytes_equal_iff h (sha256 c)).1 (sym k)))

  -- The file of the hash itself: it holds the bytes, and the call succeeded, or it is untouched.
  write_chunk_self :
      (how : Write) (io : Faults) (h bytes : Bytes) (s : ChunkStore)
      → IsHash h
      → let r = write_chunk how io (path_of h) h bytes s in
        ((chunk_at h r.1 ≡ some bytes) × (r.0 ≡ ok h))
        ⊎ ((chunk_at h r.1 ≡ chunk_at h s) × (r.0 ≢ ok h) × (r.1.stats ≡ s.stats))
  unfolding write_chunk chunk_at
  write_chunk_self not_opened io h bytes s v = inr (refl, (λ e. cc), refl)
  write_chunk_self (cut_short part) io h bytes s v = inr (
    lookup-insert_ne (path_of h) (temp_path (path_of h)) part s.disk (path_of-ne-temp_path h h v v),
    (λ e. cc),
    refl,
  )
  write_chunk_self written io h bytes s v =
      let temp = temp_path (path_of h) in
      let away = path_of-ne-temp_path h h v v in
      ground (
        arith,
        lookup-insert_ne (path_of h) temp bytes s.disk away,
        lookup-remove_ne (path_of h) temp (insert temp bytes s.disk) away,
        lookup-moved_self temp (path_of h) bytes s.disk,
      )

  pub put_chunk_self :
      (io : Faults) (bytes : Bytes) (s : ChunkStore)
      → let r = put_chunk sha256 io bytes s in
        ((chunk_at (sha256 bytes) r.1 ≡ some bytes) × (r.0 ≡ ok (sha256 bytes)))
        ⊎ ((chunk_at (sha256 bytes) r.1 ≡ chunk_at (sha256 bytes) s) × (r.1.stats ≡ s.stats))
  unfolding put_chunk
  put_chunk_self io bytes s =
      ground (arith, write_chunk_self io.write io (sha256 bytes) bytes s (digest bytes))
