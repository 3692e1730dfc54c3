-- ===== src/Storage/Store/Totals.antt =====
-- The running totals of a store agree with the files on the disk.
use mini_ipfs.Prelude.{
  ◌%◌, ◌+◌, ◌≡◌, ◌∙◌, inl, inr, true, false, none, some, length, arith, Bytes, Bool-cases,
  Option-cases, ok,
}
use mini_ipfs.Storage.Disk.{lookup, insert, remove, temp_path, Disk, FilePath, is_temp, tally}
use mini_ipfs.Storage.Disk.Laws.{
  lookup-insert_ne, lookup-remove_ne, rename-insert, tally-insert_new, tally-insert_light,
  tally-remove, tally-remove_light,
}
use mini_ipfs.Storage.Store.{
  ChunkStore, Faults, path_of, stat, put_chunk, write_chunk, move_chunk, delete_chunk, Write,
  not_opened, cut_short, written, count_stored, count_deleted, int64_mod, chunk_weight, byte_weight,
  new_chunk_store,
}
use mini_ipfs.Storage.Store.Paths.{
  IsHash, IsDigest, is_temp-path_of, is_temp-temp_path_of, path_of-ne-temp_path,
}

-- The totals are the number and the size of the files that are not temporary, as `int64` patterns.
pub record TotalsAgree (s : ChunkStore) : Type 0 where
  pub chunks : s.stats.total_chunks ≡ tally chunk_weight s.disk % int64_mod
  pub sizes : s.stats.total_bytes ≡ tally byte_weight s.disk % int64_mod

temp_chunk_weight : (p : FilePath) → is_temp p ≡ true → (c : Bytes) → chunk_weight p c ≡ 0
unfolding chunk_weight
temp_chunk_weight p t c = rw t

temp_byte_weight : (p : FilePath) → is_temp p ≡ true → (c : Bytes) → byte_weight p c ≡ 0
unfolding byte_weight
temp_byte_weight p t c = rw t

-- A temporary file that comes or goes.
insert_temp :
    (p : FilePath) (b : Bytes) (s : ChunkStore)
    → is_temp p ≡ true
    → TotalsAgree s
    → TotalsAgree (record s { disk = insert p b s.disk })
insert_temp p b s t a = record {
  chunks = rw (tally-insert_light chunk_weight p b s.disk (temp_chunk_weight p t)) a.chunks;
  sizes = rw (tally-insert_light byte_weight p b s.disk (temp_byte_weight p t)) a.sizes;
}

remove_temp :
    (p : FilePath) (s : ChunkStore)
    → is_temp p ≡ true
    → TotalsAgree s
    → TotalsAgree (record s { disk = remove p s.disk })
remove_temp p s t a = record {
  chunks = rw (tally-remove_light chunk_weight p s.disk (temp_chunk_weight p t)) a.chunks;
  sizes = rw (tally-remove_light byte_weight p s.disk (temp_byte_weight p t)) a.sizes;
}

-- A chunk file that comes.
insert_chunk :
    (p : FilePath) (b : Bytes) (s : ChunkStore)
    → is_temp p ≡ false
    → lookup p s.disk ≡ none
    → TotalsAgree s
    → TotalsAgree (record { disk = insert p b s.disk; stats = count_stored b s.stats })
unfolding chunk_weight byte_weight
insert_chunk p b s t new a = record {
  chunks = rw (tally-insert_new chunk_weight p b s.disk new, t) (omega (arith, a.chunks));
  sizes = rw (tally-insert_new byte_weight p b s.disk new, t) (omega (arith, a.sizes));
}

remove_chunk :
    (p : FilePath) (b : Bytes) (s : ChunkStore)
    → is_temp p ≡ false
    → lookup p s.disk ≡ some b
    → TotalsAgree s
    → TotalsAgree (record { disk = remove p s.disk; stats = count_deleted (length b) s.stats })
unfolding chunk_weight byte_weight
remove_chunk p b s t at a =
    let c : 1 + tally chunk_weight (remove p s.disk) ≡ tally chunk_weight s.disk =
      rw t at (tally-remove chunk_weight p b s.disk at) in
    let z : length b + tally byte_weight (remove p s.disk) ≡ tally byte_weight s.disk =
      rw t at (tally-remove byte_weight p b s.disk at) in
    record { chunks = omega (arith, a.chunks, c); sizes = omega (arith, a.sizes, z) }

move_chunk-TotalsAgree :
    (io : Faults) (h bytes : Bytes) (s : ChunkStore)
    → IsHash h
    → lookup (path_of h) s.disk ≡ none
    → TotalsAgree s
    → TotalsAgree (move_chunk io (path_of h) h bytes s).1
unfolding move_chunk
move_chunk-TotalsAgree io h bytes s v new a =
    let path = path_of h in
    let temp = temp_path path in
    let hidden = is_temp-temp_path_of h v in
    let away = path_of-ne-temp_path h h v v in
    let wrote = insert_temp temp bytes s hidden a in
    let cleared = remove_temp temp (record s { disk = insert temp bytes s.disk }) hidden wrote in
    let still : lookup path (remove temp (insert temp bytes s.disk)) ≡ none =
      lookup-remove_ne path temp _ away ∙ lookup-insert_ne path temp bytes s.disk away ∙ new in
    let moved =
      insert_chunk path bytes (record s { disk = remove temp (insert temp bytes s.disk) })
        (is_temp-path_of h v) still cleared in
    elim (Bool-cases io.rename_fails) [
      | inr e ↦ rw (e, rename-insert temp path bytes s.disk) moved
      | inl e ↦ elim (Bool-cases io.remove_fails) [
        | inl r ↦ rw (e, r) wrote
        | inr r ↦ rw (e, r) cleared
      ]
    ]

write_chunk-TotalsAgree :
    (how : Write) (io : Faults) (h bytes : Bytes) (s : ChunkStore)
    → IsHash h
    → lookup (path_of h) s.disk ≡ none
    → TotalsAgree s
    → TotalsAgree (write_chunk how io (path_of h) h bytes s).1
unfolding write_chunk
write_chunk-TotalsAgree not_opened io h bytes s v new a = a
write_chunk-TotalsAgree (cut_short part) io h bytes s v new a =
    insert_temp (temp_path (path_of h)) part s (is_temp-temp_path_of h v) a
write_chunk-TotalsAgree written io h bytes s v new a = move_chunk-TotalsAgree io h bytes s v new a

-- `PutChunk` keeps the totals in agreement, whether it succeeds or fails, if `os.Stat` tells truly
-- whether the chunk is there.
pub put_chunk-TotalsAgree :
    (sha256 : Bytes → Bytes) (digest : IsDigest sha256) (io : Faults) (bytes : Bytes)
    (s : ChunkStore)
    → io.stat_fails ≡ false
    → TotalsAgree s
    → TotalsAgree (put_chunk sha256 io bytes s).1
unfolding put_chunk stat
put_chunk-TotalsAgree sha256 digest io bytes s truly a =
    elim (Option-cases (lookup (path_of (sha256 bytes)) s.disk)) [
      | inl new ↦
          let written_ =
            write_chunk-TotalsAgree io.write io (sha256 bytes) bytes s (digest bytes) new a in
          ground (arith, written_)
      | inr there ↦ ground (arith, there.1)
    ]

-- So does `DeleteChunk`, on every branch.
pub delete_chunk-TotalsAgree :
    (io : Faults) (h : Bytes) (s : ChunkStore)
    → IsHash h
    → TotalsAgree s
    → TotalsAgree (delete_chunk io h s).1
unfolding delete_chunk stat
delete_chunk-TotalsAgree io h s v a = elim (Option-cases (lookup (path_of h) s.disk)) [
  | inl gone ↦ ground (arith, v.size)
  | inr there ↦
      let removed = remove_chunk (path_of h) there.0 s (is_temp-path_of h v) there.1 a in
      ground (arith, v.size, there.1, removed)
]

-- A store that `NewChunkStore` returns after a full walk starts in agreement with its directory.
pub new_chunk_store-TotalsAgree :
    (io : Faults) (disk : Disk) (s : ChunkStore)
    → io.walk_fails ≡ false
    → new_chunk_store io disk ≡ ok s
    → TotalsAgree s × (s.disk ≡ disk)
unfolding new_chunk_store
new_chunk_store-TotalsAgree io disk s walked e = ground arith
