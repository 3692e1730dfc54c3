-- ===== src/Tests/Api.antt =====
-- A server with an empty store, in a world in which it can reach no one but as stated.
use mini_ipfs.Prelude.{
  ℕ, ◌≡◌, ◌⊎◌, inl, inr, refl, sym, ap, ◌∙◌, false, none, some, List, [], ◌∷◌, All, Bytes, pos, ok,
  arith,
}
use mathlib.Core.Path.{subst}
use mini_ipfs.Hex.{encode_to_string}
use mini_ipfs.Dht.Types.{NodeInfo}
use mini_ipfs.Dht.Rpc.{Node}
use mini_ipfs.Storage.Chunker.{chunk_data}
use mini_ipfs.Storage.Store.{ChunkStore, no_faults}
use mini_ipfs.Storage.Store.Contents.{chunk_at}
use mini_ipfs.Storage.Disk.{lookup}
use mini_ipfs.Api.State.{Server, Settings, World, Body, Reply, respond, raw, file_info}
use mini_ipfs.Api.Files.{handle_post_file}
use mini_ipfs.Api.Files.Load.{handle_get_file}
use mini_ipfs.Api.Files.Reload.{manifest_for}
use mini_ipfs.Api.Files.RoundTrip.{handle_get_file-handle_post_file}
use mini_ipfs.Prelude.{Bool-cases, eq_bytes}
use mini_ipfs.Hex.{decode_string}
use mini_ipfs.Dht.Rpc.{StoreFailure}
use mini_ipfs.Dht.Providers.{find_providers, query_nodes}
use mini_ipfs.Api.State.{refuse}
use mini_ipfs.Api.Fetch.{provider_http, fetch_chunk_from_http}
use mini_ipfs.Api.Fetch.Laws.{Serves}
use mini_ipfs.Api.Chunks.{parse_hash, handle_get_chunk}
use mini_ipfs.Api.Chunks.Laws.{ChunkAnswer, handle_get_chunk-ChunkAnswer, handle_get_chunk-Serves}
use mini_ipfs.Api.Files.Served.{IsFile, handle_get_file-IsFile}
use mini_ipfs.Tests.{first_byte, first_byte-IsDigest}
use mini_ipfs.Tests.Tables
use mini_ipfs.Tests.Codec.{pair_codec}

abbrev pub node : Node
node = record { table = Tables.start; providers = λ _. [] }

abbrev pub empty_store : ChunkStore
empty_store = record { disk = []; stats = record { total_chunks = 0; total_bytes = 0 } }

abbrev pub server : Server
server = record { store = empty_store; node = node; announced = []; events = [] }

abbrev pub cfg : Settings
cfg = record {
  advertise_host = b'a' ∷ [];
  http_addr = b':' ∷ b'8' ∷ [];
  k = 2;
  chunker = record { chunk_size = pos 2 };
}

abbrev pub world : World
world = record {
  io = λ _. no_faults;
  ask = λ hash addr. none;
  get = λ addr hash_hex. none;
  delete_chunk = λ addr hash_hex. Reply.failed;
  delete_file = λ addr hash_hex. Reply.failed;
  now = pos 0;
}

abbrev pub body : Body
body = record { declared = pos 3; bytes = 1 ∷ 2 ∷ 3 ∷ []; broken = false }

abbrev pub pieces : List Bytes
pieces = (1 ∷ 2 ∷ []) ∷ (3 ∷ []) ∷ []

abbrev manifest_bytes : Bytes
manifest_bytes = pair_codec.marshal (manifest_for first_byte cfg (pos 0) pieces)

-- The chunks of the file and its manifest.
abbrev InPlay : Bytes → Type 0
InPlay b = (b ≡ 1 ∷ 2 ∷ []) ⊎ (b ≡ 3 ∷ []) ⊎ (b ≡ manifest_bytes)

abbrev first : Bytes → ℕ
first [] = 0
first (b ∷ bytes) = b

distinct : (a b : Bytes) → InPlay a → InPlay b → first_byte a ≡ first_byte b → a ≡ b
distinct a b (inl p) (inl q) e = cc (p, q)
distinct a b (inl p) (inr (inl q)) e =
    absurd (omega (arith, ap first (ap first_byte (sym p) ∙ e ∙ ap first_byte q)))
distinct a b (inl p) (inr (inr q)) e =
    absurd (omega (arith, ap first (ap first_byte (sym p) ∙ e ∙ ap first_byte q)))
distinct a b (inr (inl p)) (inl q) e =
    absurd (omega (arith, ap first (ap first_byte (sym p) ∙ e ∙ ap first_byte q)))
distinct a b (inr (inl p)) (inr (inl q)) e = cc (p, q)
distinct a b (inr (inl p)) (inr (inr q)) e =
    absurd (omega (arith, ap first (ap first_byte (sym p) ∙ e ∙ ap first_byte q)))
distinct a b (inr (inr p)) (inl q) e =
    absurd (omega (arith, ap first (ap first_byte (sym p) ∙ e ∙ ap first_byte q)))
distinct a b (inr (inr p)) (inr (inl q)) e =
    absurd (omega (arith, ap first (ap first_byte (sym p) ∙ e ∙ ap first_byte q)))
distinct a b (inr (inr p)) (inr (inr q)) e = cc (p, q)

pub split : chunk_data 4 cfg.chunker body.bytes ≡ ok pieces
unfolding chunk_data
split = refl

inside :
    (chunks : List Bytes)
    → chunk_data 4 cfg.chunker body.bytes ≡ ok chunks
    → All InPlay chunks × InPlay (pair_codec.marshal (manifest_for first_byte cfg (pos 0) chunks))
inside chunks e =
    let same : pieces ≡ chunks = cc (split, e) in
    subst
      (λ (cs : List Bytes).
        All InPlay cs × InPlay (pair_codec.marshal (manifest_for first_byte cfg (pos 0) cs)))
      same ((inl refl, (inr (inl refl), tt)), inr (inr refl))

handle_get_file-handle_post_file_example :
    (hash : Bytes) × (n z : ℕ) × ((handle_post_file first_byte pair_codec world cfg 4 body server).0
      ≡ respond 201 (file_info (encode_to_string hash) 3 n z))
    × ((handle_get_file first_byte pair_codec world cfg
          (encode_to_string hash)
          []
          (handle_post_file first_byte pair_codec world cfg 4 body server).1).0
        ≡ respond 200 (raw (1 ∷ 2 ∷ 3 ∷ [])))
unfolding chunk_at lookup
handle_get_file-handle_post_file_example =
    handle_get_file-handle_post_file first_byte first_byte-IsDigest InPlay distinct pair_codec world
      cfg 4 2 body world [] server (omega arith) refl (omega arith) refl refl (omega arith)
      (omega arith) (λ i. refl) (λ i. refl) (λ h c v at. cc at) inside

stored_file :
    (hash : Bytes) × (n z : ℕ) × ((handle_post_file first_byte pair_codec world cfg 4 body server).0
      ≡ respond 201 (file_info (encode_to_string hash) 3 n z))
    × ((handle_get_file first_byte pair_codec world cfg
          (encode_to_string hash)
          []
          (handle_post_file first_byte pair_codec world cfg 4 body server).1).0
        ≡ respond 200 (raw (1 ∷ 2 ∷ 3 ∷ [])))
unfolding chunk_at lookup
stored_file =
    handle_get_file-handle_post_file first_byte first_byte-IsDigest InPlay distinct pair_codec world
      cfg 4 2 body world [] server (omega arith) refl (omega arith) refl refl (omega arith)
      (omega arith) (λ i. refl) (λ i. refl) (λ h c v at. cc at) inside

abbrev after_upload : Server
after_upload = (handle_post_file first_byte pair_codec world cfg 4 body server).1

handle_get_file-IsFile_example :
    (hash : Bytes) × (parse_hash (encode_to_string stored_file.0) ≡ some hash)
    × IsFile first_byte pair_codec hash (1 ∷ 2 ∷ 3 ∷ [])
handle_get_file-IsFile_example =
    handle_get_file-IsFile first_byte pair_codec world cfg (encode_to_string stored_file.0) []
      (1 ∷ 2 ∷ 3 ∷ []) after_upload first_byte-IsDigest stored_file.4

abbrev pub hex : Bytes
hex = encode_to_string (first_byte (5 ∷ []))

abbrev pub on : Bytes
on = b'1' ∷ []

handle_get_chunk-ChunkAnswer_example :
    ((parse_hash hex ≡ none)
      × (handle_get_chunk first_byte world cfg hex on server ≡ (refuse 400, server)))
    ⊎ ((hash : Bytes) × (parse_hash hex ≡ some hash)
        × ChunkAnswer first_byte hash (handle_get_chunk first_byte world cfg hex on server).0)
handle_get_chunk-ChunkAnswer_example =
    handle_get_chunk-ChunkAnswer first_byte world cfg hex on server first_byte-IsDigest

-- A provider with the chunk.
abbrev peer : NodeInfo
peer = record { id = 7 ∷ []; addr = []; http = b'p' ∷ [] }

abbrev served_world : World
served_world = record world { get = λ addr hash_hex. some (200, some (5 ∷ 6 ∷ [])) }

abbrev knowing : Server
knowing = record server { node = record node { providers = λ _. peer ∷ [] } }

query_nodes-none :
    (self : Bytes) (nodes all : List NodeInfo) → query_nodes (λ addr. none) self nodes all ≡ all
unfolding query_nodes
query_nodes-none self [] all = refl
query_nodes-none self (n ∷ nodes) all = elim (Bool-cases (eq_bytes n.id self)) [
  | inl e ↦ rw e (query_nodes-none self nodes all)
  | inr e ↦ rw e (query_nodes-none self nodes all)
]

listed :
    find_providers {E = StoreFailure}
      (served_world.ask (first_byte (5 ∷ [])))
      2
      (first_byte (5 ∷ []))
      Tables.start
      knowing.node.providers
    ≡ ok (peer ∷ [])
unfolding find_providers encode_to_string
listed = ap ok (query_nodes-none _ _ _)

parsed : parse_hash hex ≡ some (first_byte (5 ∷ []))
unfolding parse_hash encode_to_string decode_string
parsed = refl

abbrev peer-Serves : Serves first_byte served_world (first_byte (5 ∷ [])) hex peer
unfolding provider_http fetch_chunk_from_http
peer-Serves = record {
  addr = b'p' ∷ [];
  reachable = refl;
  bytes = 5 ∷ 6 ∷ [];
  served = refl;
  right = refl;
}

handle_get_chunk-Serves_example :
    (b : Bytes) × ((handle_get_chunk first_byte served_world cfg hex on knowing).0
      ≡ respond 200 (raw b))
    × (first_byte b ≡ first_byte (5 ∷ []))
handle_get_chunk-Serves_example =
    handle_get_chunk-Serves first_byte served_world cfg hex on (first_byte (5 ∷ [])) knowing [] []
      peer first_byte-IsDigest parsed refl listed peer-Serves
