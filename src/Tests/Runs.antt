-- ===== src/Tests/Runs.antt =====
-- A node from its start, the event stream, addresses and uploads at their limit.
use mini_ipfs.Prelude.{
  ℕ, ◌≤◌, ◌≡◌, ◌≢◌, refl, ◌⊎◌, ℤ, eq_bytes, err, true, false, none, some, [], ◌∷◌, length, Bytes,
  pos, ok, if◌then◌else◌,
}
use mini_ipfs.Hex.{encode_to_string, decode_string}
use mini_ipfs.Net.{
  has_byte, advertised_http_addr, build_advertised_addr, join_host_port, split_host_port,
}
use mini_ipfs.Net.Laws.{advertised_addresses}
use mini_ipfs.Config.{Config, Found, with_defaults}
use mini_ipfs.Logging.{Zap}
use mini_ipfs.Dht.Types.{NodeInfo}
use mini_ipfs.Dht.Routing.{new_routing_table, set_bucket}
use mini_ipfs.Dht.Start.{new_node}
use mini_ipfs.Storage.Disk.{lookup, insert, rename, temp_path, tally}
use mini_ipfs.Storage.Disk
use mini_ipfs.Storage.Chunker.{bytes_equal}
use mini_ipfs.Storage.Store.{
  no_faults, put_chunk, get_chunk, delete_chunk, stat, chunk_path, new_chunk_store, update_stats,
}
use mini_ipfs.Api.State.{Server, respond, file_gone}
use mini_ipfs.Api.Chunks.{parse_hash}
use mini_ipfs.Api.Files.{manifest_of, info_of, delete_chunks}
use mini_ipfs.Api.Files.Load.{find_manifest, delete_by_manifest, handle_delete_file}
use mini_ipfs.Api.Files.Deleted.{IsDeleted, handle_delete_file-IsDeleted}
use mini_ipfs.Api.Events.{Hub, Channel, add, new_sse_hub, broadcast, remove}
use mini_ipfs.Api.Events.Invariant.{listed}
use mini_ipfs.Api.Events.Delivery.{HubReach, HubStep, Delivered, broadcast_safe}
use mini_ipfs.Api.Startup.{settings_of, start_server, main_server, no_logger}
use mini_ipfs.Api.Startup.Laws.{info_level, is_console, NoLogger, main_server_starts}
use mini_ipfs.Api.Requests.{ApiRequest, serve, Runs, NodeStep}
use mini_ipfs.Api.Requests.Invariant.{IsServer, Runs-IsServer}
use mini_ipfs.Tests.{first_byte, first_byte-IsDigest}
use mini_ipfs.Tests.Codec.{pair_codec, read_manifest, read_entries}
use mini_ipfs.Tests.Api.{cfg, world, server, body, empty_store}

abbrev nothing_found : Found
nothing_found = record {
  id = none;
  http_addr = none;
  dht_addr = none;
  data_dir = none;
  advertise_host = none;
  k = none;
  alpha = none;
  bootstrap_nodes = none;
  chunk_size = none;
  max_storage_bytes = none;
  replication_factor = none;
  enable_auth = none;
  rate_limit = none;
  level = none;
  format = none;
}

-- A package zap that knows the level `info` only.
abbrev zap : Zap
zap = record {
  parse_level = λ name. if eq_bytes name info_level then some (pos 0) else none;
  build = λ console level. true;
}

main_server_starts_example :
    (NoLogger zap (with_defaults nothing_found).logging
      × (main_server first_byte zap (b'h' ∷ []) (b'1' ∷ []) no_faults [] (some nothing_found)
          ≡ err no_logger))
    ⊎ ((level : ℤ) × (zap.parse_level info_level ≡ some level)
        × (zap.build (is_console (with_defaults nothing_found).logging) level ≡ true)
        × ((config : Config) × (s : Server) × (main_server first_byte zap
                (b'h' ∷ [])
                (b'1' ∷ [])
                no_faults
                []
                (some nothing_found)
              ≡ ok (config, s))
            × (config.node.id ≢ [])
            × (s.node.table.self.id ≡ first_byte config.node.id)
            × (s.store.disk ≡ [])))
main_server_starts_example =
    main_server_starts first_byte first_byte-IsDigest zap (b'h' ∷ []) (b'1' ∷ []) no_faults []
      nothing_found 19 refl refl

abbrev config : Config
config = record {
  node = record {
    id = b'n' ∷ [];
    http_addr = b':' ∷ b'8' ∷ [];
    dht_addr = b':' ∷ b'7' ∷ [];
    data_dir = b'd' ∷ [];
    advertise_host = b'a' ∷ [];
  };
  dht = record { k = pos 2; alpha = pos 1; bootstrap_nodes = [] };
  storage = record { chunk_size = pos 2; max_storage_bytes = pos 9; replication_factor = pos 1 };
  api = record { enable_auth = false; rate_limit = pos 1 };
  logging = record { level = []; format = [] };
}

abbrev self : NodeInfo
self = record {
  id = first_byte (b'n' ∷ []);
  addr = build_advertised_addr (b'h' ∷ []) (b'a' ∷ []) (b':' ∷ b'7' ∷ []);
  http = [];
}

abbrev first_server : Server
first_server = record {
  store = empty_store;
  node = record {
    table =
        set_bucket 255 (self ∷ []) (record { self = self; k = 2; buckets = λ _. none; depth = 0 });
    providers = λ _. [];
  };
  announced = [];
  events = [];
}

started : start_server first_byte (b'h' ∷ []) no_faults [] config ≡ ok first_server
unfolding start_server new_node new_routing_table new_chunk_store update_stats tally
started = refl

Runs-IsServer_example :
    IsServer first_byte
      (serve first_byte pair_codec
        (settings_of config)
        4
        world
        (ApiRequest.chunk_post body)
        first_server).1
Runs-IsServer_example =
    Runs-IsServer first_byte pair_codec config 4 length (b'h' ∷ []) no_faults first_server _
      first_byte-IsDigest refl started
      (Runs.then_step Runs.start
        (NodeStep.request world (ApiRequest.chunk_post body) first_server (λ i. refl)))

-- A manifest of one chunk, which is there.
abbrev manifest_bytes : Bytes
manifest_bytes =
    pair_codec.marshal (manifest_of cfg (pos 0) 1 (info_of (first_byte (3 ∷ [])) (3 ∷ []) ∷ []))

abbrev manifest_hex : Bytes
manifest_hex = encode_to_string (first_byte manifest_bytes)

abbrev with_manifest : Server
with_manifest = record server {
  store =
      (put_chunk first_byte no_faults manifest_bytes
        (put_chunk first_byte no_faults (3 ∷ []) empty_store).1).1;
}

deleted :
    (handle_delete_file first_byte pair_codec world cfg manifest_hex [] [] [] with_manifest).0
    ≡ respond 200 (file_gone 1 1 0 0 0 0)
unfolding handle_delete_file parse_hash decode_string find_manifest delete_by_manifest get_chunk
    put_chunk lookup insert rename stat temp_path chunk_path encode_to_string Disk.remove
    bytes_equal read_manifest read_entries delete_chunks delete_chunk
deleted = refl

handle_delete_file-IsDeleted_example :
    (hash : Bytes) × (parse_hash manifest_hex ≡ some hash)
    × IsDeleted first_byte pair_codec hash 1 1
        (handle_delete_file first_byte pair_codec world cfg manifest_hex [] [] []
          with_manifest).1.store
unfolding put_chunk lookup insert rename stat temp_path chunk_path encode_to_string Disk.remove
handle_delete_file-IsDeleted_example =
    handle_delete_file-IsDeleted first_byte pair_codec world cfg (λ i. (refl, refl)) manifest_hex []
      [] [] with_manifest 1 1 0 0 0 0 first_byte-IsDigest (refl, (refl, tt)) deleted

abbrev one_client : Hub
one_client = (add new_sse_hub).1

broadcast_safe_example :
    ((channels : ℕ → Channel) × (broadcast (1 ∷ []) one_client
        ≡ some (record one_client { channels = channels }))
      × ((i : ℕ)
          → listed i one_client.clients ≡ true
          → Delivered (1 ∷ []) (one_client.channels i) (channels i))
      × ((i : ℕ) → listed i one_client.clients ≡ false → channels i ≡ one_client.channels i))
    × ((i : ℕ) → length (one_client.channels i).queue ≤ 16)
    × ((i : ℕ)
        → listed i one_client.clients ≡ true
        → (h' : Hub) × (remove i one_client ≡ some h') × (listed i h'.clients ≡ false))
unfolding add
broadcast_safe_example =
    broadcast_safe one_client (1 ∷ []) (HubReach.next HubReach.here (HubStep.joins new_sse_hub))

advertised_addresses_example :
    ((addr : Bytes) × (advertised_http_addr (b'a' ∷ []) (join_host_port [] (b'8' ∷ [])) ≡ some addr)
      × (split_host_port addr ≡ some (b'a' ∷ [], b'8' ∷ [])))
    × (split_host_port
          (build_advertised_addr (b'h' ∷ []) (b'a' ∷ []) (join_host_port [] (b'8' ∷ [])))
        ≡ some (b'a' ∷ [], b'8' ∷ []))
unfolding has_byte
advertised_addresses_example =
    advertised_addresses b'a' (b'h' ∷ []) [] [] [] b'8' (refl, refl) (refl, refl)
      ((refl, refl), refl)
