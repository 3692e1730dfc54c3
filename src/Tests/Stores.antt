-- ===== src/Tests/Stores.antt =====
-- A store that starts on an empty directory and is given one chunk.
use mini_ipfs.Prelude.{
  ℕ, ◌≡◌, ◌≢◌, ◌⊎◌, refl, ap, false, some, List, [], ◌∷◌, Result, ok, err, Bytes, arith,
}
use mini_ipfs.Storage.Disk.{tally, insert, rename, lookup, remove, temp_path}
use mini_ipfs.Storage.Chunker.{bytes_equal}
use mini_ipfs.Storage.Store.{
  ChunkStore, Faults, no_faults, new_chunk_store, update_stats, put_chunk, get_chunk, has_chunk,
  delete_chunk, list_chunks, chunk_not_found, not_opened, write_failed, stat, chunk_path,
}
use mini_ipfs.Hex.{encode_to_string}
use mini_ipfs.Storage.Store.Contents.{chunk_at}
use mini_ipfs.Storage.Store.Contents.PutGet.{
  get_chunk-put_chunk, put_chunk_failed, put_chunk_succeeds,
}
use mini_ipfs.Storage.Store.Contents.Delete.{delete_chunk_ok}
use mini_ipfs.Storage.Store.Listing.{contains, list_chunks-has_chunk}
use mini_ipfs.Storage.Store.Invariant.{IsStore, Step, Reach, Reach-IsStore}
use mini_ipfs.Storage.Store.Paths.{IsHash}
use mini_ipfs.Tests.{first_byte, first_byte-IsDigest}

abbrev chunk : Bytes
chunk = 1 ∷ 2 ∷ []

abbrev hash : Bytes
hash = first_byte chunk

abbrev empty_store : ChunkStore
empty_store = record { disk = []; stats = record { total_chunks = 0; total_bytes = 0 } }

abbrev one_chunk : ChunkStore
one_chunk = (put_chunk first_byte no_faults chunk empty_store).1

-- The disk is full.
abbrev disk_full : Faults
disk_full = record no_faults { write = not_opened }

abbrev first : Bytes → ℕ
first [] = 0
first (b ∷ bytes) = b

stored : put_chunk first_byte no_faults chunk empty_store ≡ (ok hash, one_chunk)
stored =
    ap (λ (r : Result _ Bytes). (r, one_chunk))
      (put_chunk_succeeds first_byte first_byte-IsDigest chunk empty_store (omega arith))

one_chunk-Reach : Reach first_byte empty_store one_chunk
one_chunk-Reach = Reach.next Reach.here (Step.put no_faults chunk empty_store refl)

started : new_chunk_store no_faults [] ≡ ok empty_store
unfolding new_chunk_store update_stats tally
started = refl

one_chunk-IsStore : IsStore first_byte one_chunk
one_chunk-IsStore =
    Reach-IsStore first_byte first_byte-IsDigest no_faults empty_store one_chunk refl started
      one_chunk-Reach

get_chunk-put_chunk_example :
    (c : Bytes) × (get_chunk first_byte no_faults hash one_chunk ≡ ok c)
    × (first_byte c ≡ first_byte chunk)
    × ((c ≡ chunk) ⊎ (chunk_at hash empty_store ≡ some c))
unfolding chunk_at lookup
get_chunk-put_chunk_example =
    get_chunk-put_chunk first_byte first_byte-IsDigest no_faults no_faults chunk hash empty_store
      one_chunk stored (λ c e. cc) refl

put_chunk_failed_example :
    ((put_chunk first_byte disk_full chunk empty_store).1.stats ≡ empty_store.stats)
    × ((io : Faults) (g : Bytes)
        → IsHash g
        → get_chunk first_byte io g (put_chunk first_byte disk_full chunk empty_store).1
          ≡ get_chunk first_byte io g empty_store)
unfolding put_chunk stat lookup
put_chunk_failed_example =
    put_chunk_failed first_byte first_byte-IsDigest disk_full chunk empty_store write_failed refl

read_back : get_chunk first_byte no_faults hash one_chunk ≡ ok chunk
unfolding get_chunk put_chunk lookup insert rename stat temp_path chunk_path encode_to_string remove
    bytes_equal
read_back = refl

delete_chunk_ok_example :
    (has_chunk no_faults hash (delete_chunk no_faults hash one_chunk).1 ≡ false)
    × (get_chunk first_byte no_faults hash (delete_chunk no_faults hash one_chunk).1
        ≡ err chunk_not_found)
    × ((g : Bytes)
        → IsHash g
        → g ≢ hash
        → get_chunk first_byte no_faults g (delete_chunk no_faults hash one_chunk).1
          ≡ get_chunk first_byte no_faults g one_chunk)
unfolding delete_chunk put_chunk lookup insert rename stat temp_path chunk_path encode_to_string
    remove
delete_chunk_ok_example =
    delete_chunk_ok first_byte no_faults no_faults hash one_chunk
      (delete_chunk no_faults hash one_chunk).1 one_chunk-IsStore.nodup (first_byte-IsDigest chunk)
      refl

list_chunks-has_chunk_example :
    (hashes : List Bytes) × (list_chunks no_faults one_chunk ≡ ok hashes)
    × (contains hash hashes ≡ has_chunk no_faults hash one_chunk)
list_chunks-has_chunk_example =
    list_chunks-has_chunk hash one_chunk (first_byte-IsDigest chunk) one_chunk-IsStore.own

Reach-IsStore_example : IsStore first_byte one_chunk
Reach-IsStore_example =
    Reach-IsStore first_byte first_byte-IsDigest no_faults empty_store one_chunk refl started
      one_chunk-Reach
