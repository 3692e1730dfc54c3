-- ===== src/Storage/Store.antt =====
-- internal/storage/store.go: chunks kept in files named after their hashes, with running totals.
-- The SHA-256 function is the parameter `sha256`; what the operating system refuses during a call is
-- the argument `io` of the call. The lock makes every operation one step.
pub mod Paths
pub mod Contents
pub mod Totals
pub mod Listing
pub mod Invariant
use mini_ipfs.Prelude.{
  ℕ, ◌+◌, ◌-◌, ◌%◌, ◌^◌, Bool, true, false, not, ◌&&◌, Option, none, some, List, [], ◌∷◌, ◌==◌, ltb,
  length, take, if◌then◌else◌, Bytes, Result, ok, err,
}
use mini_ipfs.Hex.{encode_to_string, decode_string}
use mini_ipfs.Storage.Disk.{
  FilePath, Disk, lookup, insert, remove, rename, is_temp, temp_path, tally,
}
use mini_ipfs.Storage.Chunker.{bytes_equal}

-- An `int64` counter as its bit pattern.
abbrev pub int64_mod : ℕ
int64_mod = 2 ^ 64

pub record StoreStats : Type 0 where
  pub total_chunks : ℕ
  pub total_bytes : ℕ

-- The state of a store: the files in its directory and its totals.
pub record ChunkStore : Type 0 where
  pub disk : Disk
  pub stats : StoreStats

pub data StoreError : Type 0 where
  create_dir_failed empty_chunk mkdir_failed write_failed rename_failed : StoreError
  invalid_hash_length : ℕ → StoreError
  chunk_not_found read_failed integrity_failed stat_failed delete_failed walk_failed : StoreError

-- How far `os.WriteFile` gets: it cannot open the file, stops after some bytes, or succeeds.
pub data Write : Type 0 where
  not_opened : Write
  cut_short : Bytes → Write
  written : Write

-- Which calls of package os fail, for reasons other than a missing file.
pub record Faults : Type 0 where
  pub stat_fails : Bool
  pub mkdir_fails : Bool
  pub write : Write
  pub rename_fails : Bool
  pub remove_fails : Bool
  pub read_fails : Bool
  pub walk_fails : Bool

abbrev pub no_faults : Faults
no_faults = record {
  stat_fails = false;
  mkdir_fails = false;
  write = written;
  rename_fails = false;
  remove_fails = false;
  read_fails = false;
  walk_fails = false;
}

-- `os.Stat(path)`: the size of the file.
pub data StatResult : Type 0 where
  found : ℕ → StatResult
  not_exist other_error : StatResult

unfoldable pub stat : Faults → FilePath → Disk → StatResult
stat io path disk =
    if io.stat_fails
    then other_error
    else elim (lookup path disk) [ none ↦ not_exist | some b ↦ found (length b) ]

abbrev exists : StatResult → Bool
exists (found n) = true
exists _ = false

-- `getChunkPath`
unfoldable pub chunk_path : Bytes → FilePath
chunk_path hash_hex =
    if ltb (length hash_hex) 2 then hash_hex ∷ [] else take 2 hash_hex ∷ hash_hex ∷ []

abbrev pub path_of : Bytes → FilePath
path_of hash = chunk_path (encode_to_string hash)

-- The weights behind the totals. Temporary files count for nothing.
unfoldable pub chunk_weight : FilePath → Bytes → ℕ
chunk_weight path b = if is_temp path then 0 else 1

unfoldable pub byte_weight : FilePath → Bytes → ℕ
byte_weight path b = if is_temp path then 0 else length b

-- `updateStats`
unfoldable pub update_stats : Faults → ChunkStore → Result StoreError (Unit {0}) × ChunkStore
unfolding chunk_weight byte_weight
update_stats io s = if io.walk_fails then (err walk_failed, s) else (
  ok tt,
  record s {
    stats = record {
      total_chunks = tally chunk_weight s.disk % int64_mod;
      total_bytes = tally byte_weight s.disk % int64_mod;
    };
  },
)

-- `NewChunkStore` over the files that the directory holds. A failed `updateStats` is only logged.
unfoldable pub new_chunk_store : Faults → Disk → Result StoreError ChunkStore
unfolding update_stats
new_chunk_store io disk =
    if io.mkdir_fails
    then err create_dir_failed
    else ok (
        (update_stats io
          (record { disk = disk; stats = record { total_chunks = 0; total_bytes = 0 } })).1)

abbrev count_stored : Bytes → StoreStats → StoreStats
count_stored bytes t = record {
  total_chunks = (t.total_chunks + 1) % int64_mod;
  total_bytes = (t.total_bytes + length bytes) % int64_mod;
}

abbrev count_deleted : ℕ → StoreStats → StoreStats
count_deleted size t = record {
  total_chunks = (t.total_chunks + (int64_mod - 1)) % int64_mod;
  total_bytes = (t.total_bytes + (int64_mod - size % int64_mod)) % int64_mod;
}

-- The end of `PutChunk`: the temporary file is written, and is moved to its place.
move_chunk : Faults → FilePath → Bytes → Bytes → ChunkStore → Result StoreError Bytes × ChunkStore
move_chunk io path hash bytes s =
    let temp = temp_path path in
    let disk = insert temp bytes s.disk in
    if io.rename_fails
    then (err rename_failed, record s { disk = if io.remove_fails then disk else remove temp disk })
    else (ok hash, record { disk = rename temp path disk; stats = count_stored bytes s.stats })

-- The part of `PutChunk` after the directory exists, by what `os.WriteFile` does.
write_chunk :
    Write → Faults → FilePath → Bytes → Bytes → ChunkStore → Result StoreError Bytes × ChunkStore
unfolding move_chunk
write_chunk not_opened io path hash bytes s = (err write_failed, s)
write_chunk (cut_short part) io path hash bytes s =
    (err write_failed, record s { disk = insert (temp_path path) part s.disk })
write_chunk written io path hash bytes s = move_chunk io path hash bytes s

module _ (sha256 : Bytes → Bytes) where
  -- `PutChunk`
  unfoldable pub put_chunk : Faults → Bytes → ChunkStore → Result StoreError Bytes × ChunkStore
  unfolding write_chunk
  put_chunk io bytes s =
      let hash = sha256 bytes in
      let path = path_of hash in
      if length bytes == 0
      then (err empty_chunk, s)
      else if exists (stat io path s.disk)
      then (ok hash, s)
      else if io.mkdir_fails
      then (err mkdir_failed, s)
      else write_chunk io.write io path hash bytes s

  -- The end of `GetChunk`, after `os.ReadFile` returned.
  check_read : Faults → Bytes → Option Bytes → Result StoreError Bytes
  check_read io hash none = err chunk_not_found
  check_read io hash (some b) =
      if io.read_fails
      then err read_failed
      else if bytes_equal hash (sha256 b)
      then ok b
      else err integrity_failed

  -- `GetChunk`
  unfoldable pub get_chunk : Faults → Bytes → ChunkStore → Result StoreError Bytes
  unfolding check_read
  get_chunk io hash s =
      if length hash == 32
      then check_read io hash (lookup (path_of hash) s.disk)
      else err (invalid_hash_length (length hash))

-- `HasChunk`
unfoldable pub has_chunk : Faults → Bytes → ChunkStore → Bool
has_chunk io hash s = length hash == 32 && exists (stat io (path_of hash) s.disk)

-- `DeleteChunk`, after the check of the hash.
delete_at : Faults → FilePath → ChunkStore → Result StoreError (Unit {0}) × ChunkStore
delete_at io path s = elim (stat io path s.disk) [
  | not_exist ↦ (err chunk_not_found, s)
  | other_error ↦ (err stat_failed, s)
  | found size ↦
      if io.remove_fails
      then (err delete_failed, s)
      else (ok tt, record { disk = remove path s.disk; stats = count_deleted size s.stats })
]

unfoldable pub delete_chunk :
    Faults → Bytes → ChunkStore → Result StoreError (Unit {0}) × ChunkStore
unfolding delete_at
delete_chunk io hash s =
    if length hash == 32
    then delete_at io (path_of hash) s
    else (err (invalid_hash_length (length hash)), s)

-- `GetStats`
unfoldable pub get_stats : ChunkStore → StoreStats
get_stats s = s.stats

-- The name of a file: the last name of its path.
abbrev file_name : FilePath → Bytes
file_name [] = []
file_name (name ∷ []) = name
file_name (name ∷ n ∷ path) = file_name (n ∷ path)

-- What the walk of `ListChunks` adds to the hashes for one file.
abbrev listed : FilePath → List Bytes → List Bytes
listed path hashes =
    if is_temp path
    then hashes
    else if length (file_name path) == 64
    then elim (decode_string (file_name path)) [ none ↦ hashes | some hash ↦ hash ∷ hashes ]
    else hashes

list_disk : Disk → List Bytes
list_disk [] = []
list_disk ((path, _) ∷ disk) = listed path (list_disk disk)

-- `ListChunks`
unfoldable pub list_chunks : Faults → ChunkStore → Result StoreError (List Bytes)
unfolding list_disk
list_chunks io s = if io.walk_fails then err walk_failed else ok (list_disk s.disk)
