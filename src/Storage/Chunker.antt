-- ===== src/Storage/Chunker.antt =====
-- internal/storage/chunker.go: splitting data into chunks, manifests, and putting a file together
-- again. The SHA-256 function is the parameter `sha256` of what uses it.
pub mod Split
pub mod Copy
pub mod Rebuild
pub mod Reader
use mini_ipfs.Prelude.{ℕ, zero, suc, ◌+◌, ◌-◌, Bool, true, false, Option, List, [], ◌∷◌, ◌++◌, map}
use mini_ipfs.Prelude.{ltb, leb, ◌==◌, if◌then◌else◌, length, take, drop, replicate, ◌&&◌}
use mini_ipfs.Prelude.{Result, ok, err, panic, running, ◌>>=◌, ℤ, pos, negsuc, eq_int, Bytes}

pub record ChunkInfo : Type 0 where
  pub hash : Bytes
  pub size : ℤ

pub record FileManifest : Type 0 where
  pub original_size : ℤ
  pub chunk_size : ℤ
  pub chunks : List ChunkInfo
  pub created_at : ℤ

pub record Chunker : Type 0 where
  pub chunk_size : ℤ

-- The errors that the functions of this file return.
pub data ChunkerError : Type 0 where
  read_failed : ChunkerError
  count_mismatch : ℕ → ℕ → ChunkerError
  hash_mismatch : ℕ → ChunkerError
  size_mismatch : ℕ → ℤ → ℕ → ChunkerError

unfoldable pub new_chunker : ℤ → Chunker
new_chunker size = record { chunk_size = size }

unfoldable pub get_chunk_size : Chunker → ℤ
get_chunk_size c = c.chunk_size

-- `data[from:to]`
abbrev pub slice : ℕ → ℕ → Bytes → Bytes
slice from to bytes = take (to - from) (drop from bytes)

-- One `chunks = append(chunks, chunk)` in front of what the later rounds append.
abbrev pub prepend : Bytes → Result ChunkerError (List Bytes) → Result ChunkerError (List Bytes)
prepend chunk rest = rest >>= λ chunks. ok (chunk ∷ chunks)

-- The `for` of `ChunkData`, from `offset` on, with a bound on its rounds.
pub chunk_loop : (fuel size offset : ℕ) → Bytes → Result ChunkerError (List Bytes)
chunk_loop zero size offset bytes = running
chunk_loop (suc fuel) size offset bytes =
    let end = if ltb (length bytes) (offset + size) then length bytes else offset + size in
    let more = prepend (slice offset end bytes) (chunk_loop fuel size (offset + size) bytes) in
    if ltb offset (length bytes) then more else ok []

-- `ChunkData`. With a negative size the first round's `make` panics.
unfoldable pub chunk_data : ℕ → Chunker → Bytes → Result ChunkerError (List Bytes)
unfolding chunk_loop
chunk_data fuel c [] = ok []
chunk_data fuel c (b ∷ bytes) = elim c.chunk_size [
  | pos size ↦ chunk_loop fuel size 0 (b ∷ bytes)
  | negsuc _ ↦ panic
]

-- What one `reader.Read(buffer)` returns: bytes, with no error, `io.EOF` or another error.
pub data ReadError : Type 0 where
  no_error end_of_file failed : ReadError

abbrev pub Read : Type 0
Read = Bytes × ReadError

-- The `for` of `ChunkReader` over the reads that the reader will answer.
pub read_loop : List Read → Result ChunkerError (List Bytes)
read_loop [] = running
read_loop ((got, status) ∷ reads) =
    let rest : Result ChunkerError (List Bytes) = elim status [
      | no_error ↦ read_loop reads
      | end_of_file ↦ ok []
      | failed ↦ err read_failed
    ] in
    if ltb 0 (length got) then prepend got rest else rest

unfoldable pub chunk_reader : Chunker → List Read → Result ChunkerError (List Bytes)
unfolding read_loop
chunk_reader c reads = elim c.chunk_size [ pos _ ↦ read_loop reads | negsuc _ ↦ panic ]

abbrev pub current_timestamp : ℤ
current_timestamp = pos 1609459200

-- The element loop of `bytesEqual`, over slices of one length.
pub same_elements : Bytes → Bytes → Bool
same_elements (x ∷ xs) (y ∷ ys) = if x == y then same_elements xs ys else false
same_elements _ _ = true

unfoldable pub bytes_equal : Bytes → Bytes → Bool
unfolding same_elements
bytes_equal a b = if length a == length b then same_elements a b else false

-- `copy(dst, src)`: the new content of `dst`.
pub overwrite : Bytes → Bytes → Bytes
overwrite [] src = []
overwrite (d ∷ dst) [] = d ∷ dst
overwrite (d ∷ dst) (s ∷ src) = s ∷ overwrite dst src

-- `copy(data[offset:], chunk)`: slicing past the end panics.
pub copy_at : ℕ → Bytes → Bytes → Result ChunkerError Bytes
unfolding overwrite
copy_at offset bytes chunk =
    if leb offset (length bytes)
    then ok (take offset bytes ++ overwrite (drop offset bytes) chunk)
    else panic

module _ (sha256 : Bytes → Bytes) where
  unfoldable pub hash_chunk : Bytes → Bytes
  hash_chunk chunk = sha256 chunk

  abbrev pub chunk_info : Bytes → ChunkInfo
  chunk_info chunk = record { hash = hash_chunk chunk; size = pos (length chunk) }

  unfoldable pub create_manifest : ℕ → Chunker → Bytes → Result ChunkerError FileManifest
  create_manifest fuel c bytes = chunk_data fuel c bytes >>= λ chunks. ok (record {
    original_size = pos (length bytes);
    chunk_size = c.chunk_size;
    chunks = map chunk_info chunks;
    created_at = current_timestamp;
  })

  -- The loop that compares hashes, from index `i` on.
  pub verify : ℕ → List Bytes → List ChunkInfo → Result ChunkerError (Unit {0})
  verify i [] infos = ok tt
  verify i (chunk ∷ chunks) [] = panic
  verify i (chunk ∷ chunks) (info ∷ infos) =
      if bytes_equal info.hash (hash_chunk chunk)
      then verify (suc i) chunks infos
      else err (hash_mismatch i)

-- The loop that copies the chunks into `bytes`, from index `i` and `offset` on.
pub copy_loop : (i offset : ℕ) → List Bytes → List ChunkInfo → Bytes → Result ChunkerError Bytes
copy_loop i offset [] infos bytes = ok bytes
copy_loop i offset (chunk ∷ chunks) [] bytes = panic
copy_loop i offset (chunk ∷ chunks) (info ∷ infos) bytes =
    let next =
      copy_at offset bytes chunk >>= copy_loop (suc i) (offset + length chunk) chunks infos in
    if eq_int (pos (length chunk)) info.size
    then next
    else err (size_mismatch i info.size (length chunk))

-- `make([]byte, n)` panics for a negative size.
pub make_bytes : ℤ → Result ChunkerError Bytes
make_bytes (pos n) = ok (replicate n 0)
make_bytes (negsuc n) = panic

module _ (sha256 : Bytes → Bytes) where
  unfoldable pub reconstruct_data : List Bytes → FileManifest → Result ChunkerError Bytes
  unfolding verify copy_loop copy_at make_bytes
  reconstruct_data chunks manifest =
      if length chunks == length manifest.chunks
      then (verify sha256 0 chunks manifest.chunks >>= λ _.
          make_bytes manifest.original_size >>= copy_loop 0 0 chunks manifest.chunks)
      else err (count_mismatch (length manifest.chunks) (length chunks))
