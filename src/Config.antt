-- ===== src/Config.antt =====
-- internal/util/config.go: the configuration of a node.
use mini_ipfs.Prelude.{
  ◌*◌, ◌^◌, Bool, false, Option, none, some, List, [], ◌∷◌, ◌++◌, Bytes, ℤ, pos,
}

pub record NodeConfig : Type 0 where
  pub id : Bytes
  pub http_addr : Bytes
  pub dht_addr : Bytes
  pub data_dir : Bytes
  pub advertise_host : Bytes

pub record DhtConfig : Type 0 where
  pub k : ℤ
  pub alpha : ℤ
  pub bootstrap_nodes : List Bytes

pub record StorageConfig : Type 0 where
  pub chunk_size : ℤ
  pub max_storage_bytes : ℤ
  pub replication_factor : ℤ

pub record ApiConfig : Type 0 where
  pub enable_auth : Bool
  pub rate_limit : ℤ

pub record LoggingConfig : Type 0 where
  pub level : Bytes
  pub format : Bytes

pub record Config : Type 0 where
  pub node : NodeConfig
  pub dht : DhtConfig
  pub storage : StorageConfig
  pub api : ApiConfig
  pub logging : LoggingConfig

-- What package viper finds for the keys, in the environment or the file; none where a key is in
-- neither.
pub record Found : Type 0 where
  pub id : Option Bytes
  pub http_addr : Option Bytes
  pub dht_addr : Option Bytes
  pub data_dir : Option Bytes
  pub advertise_host : Option Bytes
  pub k : Option ℤ
  pub alpha : Option ℤ
  pub bootstrap_nodes : Option (List Bytes)
  pub chunk_size : Option ℤ
  pub max_storage_bytes : Option ℤ
  pub replication_factor : Option ℤ
  pub enable_auth : Option Bool
  pub rate_limit : Option ℤ
  pub level : Option Bytes
  pub format : Option Bytes

abbrev pub default {ℓ} : {A : Type ℓ} → A → Option A → A
default a none = a
default a (some b) = b

-- `setDefaults` and `viper.Unmarshal`.
unfoldable pub with_defaults : Found → Config
with_defaults f = record {
  node = record {
    id = default [] f.id;
    http_addr = default (b':' ∷ b'8' ∷ b'0' ∷ b'8' ∷ b'0' ∷ []) f.http_addr;
    dht_addr = default (b':' ∷ b'7' ∷ b'0' ∷ b'0' ∷ b'0' ∷ []) f.dht_addr;
    data_dir = default (b'.' ∷ b'/' ∷ b'd' ∷ b'a' ∷ b't' ∷ b'a' ∷ []) f.data_dir;
    advertise_host = default [] f.advertise_host;
  };
  dht = record {
    k = default (pos 20) f.k;
    alpha = default (pos 3) f.alpha;
    bootstrap_nodes = default [] f.bootstrap_nodes;
  };
  storage = record {
    chunk_size = default (pos 1048576) f.chunk_size;
    max_storage_bytes = default (pos (10 * 2 ^ 30)) f.max_storage_bytes;
    replication_factor = default (pos 3) f.replication_factor;
  };
  api = record {
    enable_auth = default false f.enable_auth;
    rate_limit = default (pos 100) f.rate_limit;
  };
  logging = record {
    level = default (b'i' ∷ b'n' ∷ b'f' ∷ b'o' ∷ []) f.level;
    format = default (b'j' ∷ b's' ∷ b'o' ∷ b'n' ∷ []) f.format;
  };
}

abbrev unknown : Bytes
unknown = b'u' ∷ b'n' ∷ b'k' ∷ b'n' ∷ b'o' ∷ b'w' ∷ b'n' ∷ []

abbrev known_host : Bytes → Bytes
known_host [] = unknown
known_host (c ∷ hostname) = c ∷ hostname

-- The identifier that a configuration without one is given; `pid` is the process number in decimal.
abbrev pub node_id : (hostname pid : Bytes) → Bytes → Bytes
node_id hostname pid [] = known_host hostname ++ (b'-' ∷ pid)
node_id hostname pid (c ∷ id) = c ∷ id

-- `LoadConfig`, where `found` is none if package viper reports an error; `hostname` is empty where
-- `os.Hostname` fails.
unfoldable pub load_config : (found : Option Found) (hostname pid : Bytes) → Option Config
unfolding with_defaults
load_config none hostname pid = none
load_config (some f) hostname pid =
    let config = with_defaults f in
    some (record config { node = record config.node { id = node_id hostname pid config.node.id } })
