-- ===== src/Tests/Uploads.antt =====
-- An upload whose reads bring the chunks of a file of three bytes.
use mini_ipfs.Prelude.{◌≡◌, refl, [], ◌∷◌, arith}
use mini_ipfs.Api.Files.{handle_post_file}
use mini_ipfs.Api.Files.Stream.{handle_post_file_stream}
use mini_ipfs.Api.Files.Streamed.{reads_of, handle_post_file_stream-handle_post_file}
use mini_ipfs.Tests.{first_byte, first_byte-IsDigest}
use mini_ipfs.Tests.Codec.{pair_codec}
use mini_ipfs.Tests.Api.{cfg, world, server, body, pieces, split}
use mini_ipfs.Net.{advertised_http_addr, join_host_port, split_host_port}

handle_post_file_stream-handle_post_file_example :
    handle_post_file_stream first_byte pair_codec world cfg (reads_of pieces) server
    ≡ handle_post_file first_byte pair_codec world cfg 4 body server
unfolding advertised_http_addr split_host_port join_host_port
handle_post_file_stream-handle_post_file_example =
    handle_post_file_stream-handle_post_file first_byte first_byte-IsDigest world (λ i. refl)
      pair_codec cfg 4 2 body (b'a') (b':' ∷ b'8' ∷ []) pieces server (omega arith) refl
      (omega arith) refl refl (omega arith) (omega arith) refl split
