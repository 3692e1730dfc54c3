-- ===== src/Storage/Store/Invariant.antt =====
-- What holds of a store in every state that `PutChunk` and `DeleteChunk` can bring it to.
use mini_ipfs.Prelude.{◌≡◌, false, [], Bytes, ok}
use mini_ipfs.Storage.Disk.{lookup, NodupPaths}
use mini_ipfs.Storage.Store.{ChunkStore, Faults, put_chunk, delete_chunk, new_chunk_store}
use mini_ipfs.Storage.Store.Paths.{IsHash, IsDigest}
use mini_ipfs.Storage.Store.Contents.{chunk_at}
use mini_ipfs.Storage.Store.Contents.PutGet.{IsIntact, put_chunk-IsIntact}
use mini_ipfs.Storage.Store.Contents.Delete.{
  put_chunk-NodupPaths, delete_chunk-NodupPaths, delete_chunk-some,
}
use mini_ipfs.Storage.Store.Totals.{
  TotalsAgree, put_chunk-TotalsAgree, delete_chunk-TotalsAgree, new_chunk_store-TotalsAgree,
}
use mini_ipfs.Storage.Store.Listing.{AllOwn, put_chunk-AllOwn, delete_chunk-AllOwn}

module _ (sha256 : Bytes → Bytes) where
  -- No path is listed twice, every file is one that the store creates, chunk files hold what their
  -- names say, and the totals are those of the files.
  pub record IsStore (s : ChunkStore) : Type 0 where
    pub nodup : NodupPaths s.disk
    pub own : AllOwn s.disk
    pub intact : IsIntact sha256 s
    pub totals : TotalsAgree s

  -- A call of one of the operations that change the store. Calls of package os may fail in any way,
  -- but `os.Stat` tells truly whether a file is there.
  pub data Step : ChunkStore → ChunkStore → Type 0 where
    put :
        (io : Faults) (bytes : Bytes) (s : ChunkStore)
        → io.stat_fails ≡ false
        → Step s (put_chunk sha256 io bytes s).1
    delete : (io : Faults) (h : Bytes) (s : ChunkStore) → IsHash h → Step s (delete_chunk io h s).1

  pub data Reach (s : ChunkStore) : ChunkStore → Type 0 where
    here : Reach s s
    next : {t u : ChunkStore} → Reach s t → Step t u → Reach s u

module _ (sha256 : Bytes → Bytes) (digest : IsDigest sha256) where
  delete_chunk-IsIntact :
      (io : Faults) (h : Bytes) (s : ChunkStore)
      → IsHash h
      → NodupPaths s.disk
      → IsIntact sha256 s
      → IsIntact sha256 (delete_chunk io h s).1
  delete_chunk-IsIntact io h s v u intact g c w at =
      intact g c w (delete_chunk-some io h g c s u at)

  Step-IsStore : {s t : ChunkStore} → Step sha256 s t → IsStore sha256 s → IsStore sha256 t
  Step-IsStore (put io bytes s truly) i = record {
    nodup = put_chunk-NodupPaths sha256 io bytes s i.nodup;
    own = put_chunk-AllOwn sha256 digest io bytes s i.own;
    intact = put_chunk-IsIntact sha256 digest io bytes s i.intact;
    totals = put_chunk-TotalsAgree sha256 digest io bytes s truly i.totals;
  }
  Step-IsStore (delete io h s v) i = record {
    nodup = delete_chunk-NodupPaths io h s i.nodup;
    own = delete_chunk-AllOwn io h s i.own;
    intact = delete_chunk-IsIntact io h s v i.nodup i.intact;
    totals = delete_chunk-TotalsAgree io h s v i.totals;
  }

  pub Reach-IsStore_from :
      {s t : ChunkStore} → IsStore sha256 s → Reach sha256 s t → IsStore sha256 t
  Reach-IsStore_from i here = i
  Reach-IsStore_from i (next r st) = Step-IsStore st (Reach-IsStore_from i r)

  -- Whatever puts and deletes happen after a start on an empty directory, in any order and with any
  -- failures of package os but false answers of `os.Stat`, no path is listed twice, every file is a
  -- temporary one or named after a hash, every chunk file holds bytes with the hash it is named
  -- after, and the totals are the number and the size of the chunk files.
  pub Reach-IsStore :
      (io : Faults) (s t : ChunkStore)
      → io.walk_fails ≡ false
      → new_chunk_store io [] ≡ ok s
      → Reach sha256 s t
      → IsStore sha256 t
  unfolding chunk_at lookup
  Reach-IsStore io s t walked e r =
      let (totals, empty) = new_chunk_store-TotalsAgree io [] s walked e in
      Reach-IsStore_from
        (record {
          nodup = rw empty tt;
          own = rw empty tt;
          intact = λ h c v at. cc (rw empty at at);
          totals = totals;
        })
        r
