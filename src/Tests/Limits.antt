-- ===== src/Tests/Limits.antt =====
-- Uploads that reach their limit.
use mini_ipfs.Prelude.{
  ℕ, ◌≤◌, ◌+◌, List, concat, take, ◌≡◌, refl, false, length, length-replicate, replicate, Bytes,
  pos, negsuc, arith,
}
use mini_ipfs.Hex.{encode_to_string}
use mini_ipfs.Api.State.{Body, respond, exceeds, chunk_info, file_info}
use mini_ipfs.Api.Chunks.{max_chunk, handle_post_chunk}
use mini_ipfs.Api.Files.{max_file, manifest_of, handle_post_file}
use mini_ipfs.Api.Files.Reload.{infos_of}
use mini_ipfs.Api.Limits.{cut_body, upload_cut}
use mini_ipfs.Tests.{first_byte, first_byte-IsDigest}
use mini_ipfs.Tests.Codec.{pair_codec}
use mini_ipfs.Tests.Api.{cfg, world, server}

-- A body of undeclared length.
sevens : ℕ → Body
sevens n = record { declared = negsuc 0; bytes = replicate {A = ℕ} n 7; broken = false }

undeclared : (n max : ℕ) → exceeds (sevens n).declared max ≡ false
unfolding sevens
undeclared n max = refl

length-sevens : (n : ℕ) → n ≤ length (sevens n).bytes
unfolding sevens
length-sevens n = omega (arith, length-replicate {0} {A = ℕ} n 7)

upload_cut_example :
    (handle_post_chunk first_byte world cfg (sevens max_chunk) server
      ≡ handle_post_chunk first_byte world cfg (cut_body max_chunk (sevens max_chunk)) server)
    × ((handle_post_chunk first_byte world cfg (sevens max_chunk) server).0
        ≡ respond 201 (
            chunk_info
              (encode_to_string (first_byte (take max_chunk (sevens max_chunk).bytes)))
              max_chunk))
    × (handle_post_file first_byte pair_codec world cfg (max_file + 1) (sevens max_file) server
        ≡ handle_post_file first_byte pair_codec world cfg
            (max_file + 1)
            (cut_body max_file (sevens max_file))
            server)
    × ((chunks : List Bytes) × (concat chunks ≡ take max_file (sevens max_file).bytes)
        × (let bytes =
              pair_codec.marshal (manifest_of cfg (pos 0) max_file (infos_of first_byte chunks)) in
            (handle_post_file first_byte pair_codec world cfg
              (max_file + 1)
              (sevens max_file)
              server).0
            ≡ respond 201 (
                file_info
                  (encode_to_string (first_byte bytes))
                  max_file
                  (length chunks)
                  (length bytes))))
upload_cut_example =
    upload_cut first_byte pair_codec world cfg first_byte-IsDigest (λ i. refl) (max_file + 1) 2
      (sevens max_chunk) (sevens max_file) server (undeclared max_chunk max_chunk)
      (length-sevens max_chunk) (omega arith) refl (omega arith) (undeclared max_file max_file)
      (length-sevens max_file)
