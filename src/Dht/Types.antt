-- ===== src/Dht/Types.antt =====
-- internal/dht/types.go: what a node knows about a peer, and the errors of the table.
use mini_ipfs.Prelude.{ℕ, ◌≡◌, length, Bytes}
use mini_ipfs.Hex.RoundTrip.{IsBytes}

-- The identifier, the address of the DHT port and that of the HTTP port.
pub record NodeInfo : Type 0 where
  pub id : Bytes
  pub addr : Bytes
  pub http : Bytes

abbrev pub key_bytes : ℕ
key_bytes = 32

pub data TableError : Type 0 where
  invalid_node not_found k_not_positive : TableError

-- A 256-bit key.
pub record IsKey (id : Bytes) : Type 0 where
  pub bytes : IsBytes id
  pub size : length id ≡ key_bytes
