-- ===== src/Tests/Chunks.antt =====
-- Splitting, rebuilding, hexadecimal text and distances on small inputs.
use mini_ipfs.Prelude.{
  ℕ, ◌≡◌, ◌≤◌, ◌<◌, refl, some, List, [], ◌∷◌, ◌++◌, length, take, drop, concat, replicate, ok,
  panic, running, ◌>>=◌, pos, ltb, arith, Bytes,
}
use Prim.Native.Nat.{◌*◌, ◌^◌}
use mini_ipfs.Hex.{encode_to_string, decode_string}
use mini_ipfs.Hex.RoundTrip.{decode_string-encode_to_string}
use mini_ipfs.Storage.Chunker.{
  ChunkInfo, FileManifest, chunk_data, create_manifest, reconstruct_data, chunk_reader,
}
use mini_ipfs.Storage.Chunker.Split.{IsSplit, chunk_data-IsSplit, chunk_data_stuck}
use mini_ipfs.Storage.Chunker.Rebuild.{Matches}
use mini_ipfs.Storage.Chunker.Rebuild.RoundTrip.{
  reconstruct_data_sound, reconstruct_data_complete, reconstruct_data-create_manifest,
  reconstruct_data_panics,
}
use mini_ipfs.Storage.Chunker.Reader.{until_end, Fits, chunk_reader-concat}
use mini_ipfs.Dht.Distance.{distance_bucket, is_distance_smaller}
use mini_ipfs.Dht.Distance.Value.{value, distance_bucket-value, is_distance_smaller-value}
use mini_ipfs.Tests.{first_byte}

abbrev data5 : Bytes
data5 = 10 ∷ 20 ∷ 30 ∷ 40 ∷ 50 ∷ []

abbrev two_chunks : List Bytes
two_chunks = (10 ∷ 20 ∷ []) ∷ (30 ∷ []) ∷ []

abbrev two_infos : List ChunkInfo
two_infos =
    record { hash = first_byte (10 ∷ 20 ∷ []); size = pos 2 }
    ∷ record { hash = first_byte (30 ∷ []); size = pos 1 }
    ∷ []

abbrev manifest_of : ℕ → FileManifest
manifest_of n = record {
  original_size = pos n;
  chunk_size = pos 2;
  chunks = two_infos;
  created_at = pos 0;
}

chunk_data-IsSplit_example :
    (chunks : List Bytes) × (chunk_data 6 (record { chunk_size = pos 2 }) data5 ≡ ok chunks)
    × (concat chunks ≡ data5)
    × IsSplit 2 chunks
chunk_data-IsSplit_example = chunk_data-IsSplit 6 2 data5 (omega arith) (omega arith)

chunk_data_stuck_example : chunk_data 100 (record { chunk_size = pos 0 }) (10 ∷ 20 ∷ []) ≡ running
chunk_data_stuck_example = chunk_data_stuck 100 10 (20 ∷ [])

reconstruct_data-create_manifest_example :
    (chunk_data 6 (record { chunk_size = pos 2 }) data5 >>= λ chunks.
    create_manifest first_byte 6 (record { chunk_size = pos 2 }) data5 >>= λ manifest.
    reconstruct_data first_byte chunks manifest)
    ≡ ok data5
reconstruct_data-create_manifest_example =
    reconstruct_data-create_manifest first_byte 6 2 data5 (omega arith) (omega arith)

reconstruct_data_sound_example :
    (n : ℕ) × ((manifest_of 4).original_size ≡ pos n)
    × Matches first_byte two_chunks two_infos
    × (concat two_chunks ++ drop (length (concat two_chunks)) (replicate {A = ℕ} 4 0)
        ≡ take n (concat two_chunks ++ replicate {A = ℕ} n 0))
reconstruct_data_sound_example = reconstruct_data_sound first_byte two_chunks (manifest_of 4) _ (
    reconstruct_data_complete first_byte two_chunks (manifest_of 4) 4 (refl, refl, (refl, refl, tt))
      refl (omega arith))

reconstruct_data_panics_example : reconstruct_data first_byte two_chunks (manifest_of 1) ≡ panic
reconstruct_data_panics_example =
    reconstruct_data_panics first_byte (10 ∷ 20 ∷ []) (30 ∷ []) [] (manifest_of 1) 1
      (refl, refl, (refl, refl, tt)) refl (omega arith)

chunk_reader-concat_example :
    (chunks : List Bytes) × (chunk_reader (record { chunk_size = pos 2 }) (until_end two_chunks [])
      ≡ ok chunks)
    × (concat chunks ≡ concat two_chunks ++ [])
    × Fits 2 chunks
chunk_reader-concat_example =
    chunk_reader-concat 2 two_chunks [] (omega arith, (omega arith, tt)) (omega arith)

decode_string-encode_to_string_example :
    decode_string (encode_to_string (7 ∷ 255 ∷ [])) ≡ some (7 ∷ 255 ∷ [])
decode_string-encode_to_string_example =
    decode_string-encode_to_string (7 ∷ 255 ∷ []) (omega arith, (omega arith, tt))

distance_bucket-value_example :
    (2 ^ distance_bucket (0 ∷ 5 ∷ []) ≤ value (0 ∷ 5 ∷ []))
    × (value (0 ∷ 5 ∷ []) < 2 * 2 ^ distance_bucket (0 ∷ 5 ∷ []))
unfolding value
distance_bucket-value_example =
    distance_bucket-value (0 ∷ 5 ∷ []) (omega arith, (omega arith, tt))
      (λ e. absurd (omega (arith, e)))

is_distance_smaller-value_example :
    is_distance_smaller (1 ∷ 9 ∷ []) (2 ∷ 3 ∷ []) ≡ ltb (value (1 ∷ 9 ∷ [])) (value (2 ∷ 3 ∷ []))
is_distance_smaller-value_example =
    is_distance_smaller-value (1 ∷ 9 ∷ []) (2 ∷ 3 ∷ []) refl (omega arith, (omega arith, tt))
      (omega arith, (omega arith, tt))
