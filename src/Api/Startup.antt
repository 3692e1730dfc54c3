-- ===== src/Api/Startup.antt =====
-- cmd/node/main.go: what a process makes before it takes requests, `NewServer` of
-- internal/api/server.go included.
pub mod Laws
use mini_ipfs.Prelude.{
  ℕ, Option, none, some, [], Bytes, ℤ, pos, negsuc, Result, ok, err, panic, running, ◌>>=◌,
}
use mini_ipfs.Config.{Config, Found, load_config}
use mini_ipfs.Logging.{Zap, init_logger}
use mini_ipfs.Dht.Types.{TableError}
use mini_ipfs.Dht.Rpc.{Node}
use mini_ipfs.Dht.Start.{new_node}
use mini_ipfs.Storage.Disk.{Disk}
use mini_ipfs.Storage.Chunker.{new_chunker}
use mini_ipfs.Storage.Store.{ChunkStore, StoreError, Faults, new_chunk_store}
use mini_ipfs.Api.State.{Server, Settings}

-- Why a process ends before it takes requests.
pub data StartError : Type 0 where
  no_config no_logger no_store no_node : StartError

-- The error of a part ends the process.
abbrev pub or_fail {ℓ} : {E : Type 0} {A : Type ℓ} → StartError → Result E A → Result StartError A
or_fail e (ok a) = ok a
or_fail e (err _) = err e
or_fail e panic = panic
or_fail e running = running

-- `K` counts nodes; `NewNode` refuses one that is not positive.
abbrev pub count_of : ℤ → ℕ
count_of (pos n) = n
count_of (negsuc _) = 0

-- What the server reads of the configuration, with its chunker.
unfoldable pub settings_of : Config → Settings
settings_of config = record {
  advertise_host = config.node.advertise_host;
  http_addr = config.node.http_addr;
  k = count_of config.dht.k;
  chunker = new_chunker config.storage.chunk_size;
}

-- `NewServer`
abbrev pub new_server : ChunkStore → Node → Server
new_server store node = record { store = store; node = node; announced = []; events = [] }

-- The parts of `main`'s server, over the files that the data directory holds.
unfoldable pub start_server :
    (sha256 : Bytes → Bytes) (hostname : Bytes) → Faults → Disk → Config → Result StartError Server
start_server sha256 hostname io disk config =
    or_fail no_store (new_chunk_store io disk) >>= λ store.
    (or_fail no_node (new_node sha256 hostname config) >>= λ node. ok (new_server store node))

-- `main` up to its server. A logger that cannot be made ends the process.
unfoldable pub main_server :
    (sha256 : Bytes → Bytes) (zap : Zap) (hostname pid : Bytes)
    → Faults
    → Disk
    → Option Found
    → Result StartError (Config × Server)
unfolding start_server
main_server sha256 zap hostname pid io disk found = elim (load_config found hostname pid) [
  | none ↦ err no_config
  | some config ↦ elim (init_logger zap config.logging config.node.id) [
    | none ↦ err no_logger
    | some _ ↦ start_server sha256 hostname io disk config >>= λ s. ok (config, s)
  ]
]
