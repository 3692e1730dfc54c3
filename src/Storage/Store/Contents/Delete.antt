-- ===== src/Storage/Store/Contents/Delete.antt =====
-- `DeleteChunk`: what it removes, and that the file system never lists a path twice.
use mini_ipfs.Prelude.{◌≡◌, ◌≢◌, false, none, some, ==_iff, arith, Bytes, ok, err}
use mini_ipfs.Storage.Disk.{lookup, remove, temp_path, NodupPaths, FilePath}
use mini_ipfs.Storage.Disk.Laws.{
  lookup-remove_ne, lookup-remove_self, lookup-remove-some, insert-NodupPaths, remove-NodupPaths,
  rename-insert,
}
use mini_ipfs.Storage.Store.{
  ChunkStore, StoreError, Faults, path_of, stat, put_chunk, write_chunk, move_chunk, get_chunk,
  has_chunk, delete_chunk, Write, not_opened, cut_short, written, chunk_not_found,
}
use mini_ipfs.Storage.Store.Paths.{IsHash, path_of-injective}
use mini_ipfs.Storage.Store.Contents.{chunk_at}

-- A failed `DeleteChunk` changes nothing.
pub delete_chunk_failed :
    (io : Faults) (h : Bytes) (s : ChunkStore) (e : StoreError)
    → (delete_chunk io h s).0 ≡ err e
    → (delete_chunk io h s).1 ≡ s
unfolding delete_chunk stat
delete_chunk_failed io h s e failed = ground arith

delete_at_effect :
    (io : Faults) (h : Bytes) (s s' : ChunkStore)
    → delete_chunk io h s ≡ (ok tt, s')
    → s'.disk ≡ remove (path_of h) s.disk
unfolding delete_chunk stat
delete_at_effect io h s s' e = ground arith

module _ (sha256 : Bytes → Bytes) where
  -- After a successful `DeleteChunk` of a hash of 32 bytes, on files with no path listed twice, the
  -- chunk is gone: `HasChunk` denies it and `GetChunk` does not find it. No answer of `GetChunk` for
  -- another hash of 32 bytes has changed.
  pub delete_chunk_ok :
      (io io' : Faults) (h : Bytes) (s s' : ChunkStore)
      → NodupPaths s.disk
      → IsHash h
      → delete_chunk io h s ≡ (ok tt, s')
      → (has_chunk io' h s' ≡ false)
        × (get_chunk sha256 io' h s' ≡ err chunk_not_found)
        × ((g : Bytes) → IsHash g → g ≢ h → get_chunk sha256 io' g s' ≡ get_chunk sha256 io' g s)
  unfolding has_chunk get_chunk stat
  delete_chunk_ok io io' h s s' u v e =
      let files = delete_at_effect io h s s' e in
      let gone : lookup (path_of h) s'.disk ≡ none =
        rw files (lookup-remove_self (path_of h) s.disk u) in
      (
        ground arith,
        rw ((==_iff _ _).1 v.size, gone),
        λ g w ne.
            let same : lookup (path_of g) s'.disk ≡ lookup (path_of g) s.disk = rw files (
              lookup-remove_ne (path_of g) (path_of h) s.disk
                (λ p. ne (path_of-injective g h w v p))) in
            rw same,
      )

move_chunk-NodupPaths :
    (io : Faults) (hash bytes : Bytes) (p : FilePath) (s : ChunkStore)
    → NodupPaths s.disk
    → NodupPaths (move_chunk io p hash bytes s).1.disk
unfolding move_chunk
move_chunk-NodupPaths io hash bytes p s u =
    let temp = temp_path p in
    let u' = insert-NodupPaths temp bytes s.disk u in
    let u'' = remove-NodupPaths temp _ u' in
    ground (arith, u', u'', rename-insert temp p bytes s.disk, insert-NodupPaths p bytes _ u'')

write_chunk-NodupPaths :
    (how : Write) (io : Faults) (p : FilePath) (hash bytes : Bytes) (s : ChunkStore)
    → NodupPaths s.disk
    → NodupPaths (write_chunk how io p hash bytes s).1.disk
unfolding write_chunk
write_chunk-NodupPaths not_opened io p hash bytes s u = u
write_chunk-NodupPaths (cut_short part) io p hash bytes s u =
    insert-NodupPaths (temp_path p) part s.disk u
write_chunk-NodupPaths written io p hash bytes s u = move_chunk-NodupPaths io hash bytes p s u

-- No operation lists a path twice.
pub put_chunk-NodupPaths :
    (sha256 : Bytes → Bytes) (io : Faults) (bytes : Bytes) (s : ChunkStore)
    → NodupPaths s.disk
    → NodupPaths (put_chunk sha256 io bytes s).1.disk
unfolding put_chunk
put_chunk-NodupPaths sha256 io bytes s u =
    ground
      (arith, write_chunk-NodupPaths io.write io (path_of (sha256 bytes)) (sha256 bytes) bytes s u)

pub delete_chunk-NodupPaths :
    (io : Faults) (h : Bytes) (s : ChunkStore)
    → NodupPaths s.disk
    → NodupPaths (delete_chunk io h s).1.disk
unfolding delete_chunk stat
delete_chunk-NodupPaths io h s u = ground (arith, remove-NodupPaths (path_of h) s.disk u)

-- `DeleteChunk` adds and changes no chunk.
pub delete_chunk-some :
    (io : Faults) (h g c : Bytes) (s : ChunkStore)
    → NodupPaths s.disk
    → chunk_at g (delete_chunk io h s).1 ≡ some c
    → chunk_at g s ≡ some c
unfolding delete_chunk stat chunk_at
delete_chunk-some io h g c s u at =
    ground (arith, lookup-remove-some (path_of g) (path_of h) c s.disk u)
