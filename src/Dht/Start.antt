-- ===== src/Dht/Start.antt =====
-- How a node comes to be and meets others, of internal/dht/node.go: `NewNode`, `Ping` and `bootstrap`.
use mini_ipfs.Prelude.{
  ℕ, Bool, true, false, Option, none, some, List, [], ◌∷◌, ltb, eq_bytes, if◌then◌else◌, Bytes,
  Result, ok, err, panic, running, ◌>>=◌,
}
use mini_ipfs.Net.{build_advertised_addr}
use mini_ipfs.Config.{Config}
use mini_ipfs.Dht.Types.{NodeInfo, TableError}
use mini_ipfs.Dht.Routing.{RoutingTable, new_routing_table, insert_node}
use mini_ipfs.Dht.FindNode.{find_node}
use mini_ipfs.Dht.Rpc.{Node, MessageType}

-- The text that the identifier is made of.
abbrev pub seed_of : (id dht_addr : Bytes) → Bytes
seed_of [] dht_addr = dht_addr
seed_of (c ∷ id) dht_addr = c ∷ id

-- `generateNodeID`
abbrev pub generate_node_id : (sha256 : Bytes → Bytes) → Bytes → Bytes
generate_node_id sha256 seed = sha256 seed

-- `NewNode`; `hostname` is empty where `os.Hostname` fails.
unfoldable pub new_node :
    (sha256 : Bytes → Bytes) (hostname : Bytes) → Config → Result TableError Node
new_node sha256 hostname config =
    let info : NodeInfo = record {
      id = generate_node_id sha256 (seed_of config.node.id config.node.dht_addr);
      addr = build_advertised_addr hostname config.node.advertise_host config.node.dht_addr;
      http = [];
    } in
    new_routing_table (some info) config.dht.k >>= λ table.
    ok (record { table = table; providers = λ _. [] })

-- A response to a ping, as it arrives.
pub record Pong : Type 0 where
  pub kind : MessageType
  pub sender : Option NodeInfo

pub data PingError : Type 0 where
  ping_failed unexpected_response : PingError

abbrev pub is_pong : MessageType → Bool
is_pong MessageType.pong = true
is_pong _ = false

-- `Ping`, by the response, if there is one. The node that answered enters the table; a response
-- without a sender is a nil pointer, and the log takes 8 bytes of its identifier.
unfoldable pub ping :
    (capacity : Bytes → ℕ) → Option Pong → RoutingTable → Result PingError RoutingTable
ping capacity none t = err ping_failed
ping capacity (some response) t =
    if is_pong response.kind
    then elim response.sender [
      | none ↦ panic
      | some sender ↦ if ltb (capacity sender.id) 8 then panic else ok (insert_node sender t)
    ]
    else err unexpected_response

-- The loop of `bootstrap` over the configured nodes, up to the first that answers: a ping of the node,
-- and a search for the own identifier. `pings` is what the nodes answer to a ping, and
-- `answers` what a search that follows it is answered.
unfoldable pub bootstrap :
    (capacity : Bytes → ℕ) (alpha k : ℕ) (pings : Bytes → Option Pong)
    (answers : Bytes → ℕ → List NodeInfo → List NodeInfo)
    → List Bytes
    → RoutingTable
    → Result PingError RoutingTable
bootstrap capacity alpha k pings answers [] t = ok t
bootstrap capacity alpha k pings answers (addr ∷ addrs) t =
    let skipped = bootstrap capacity alpha k pings answers addrs t in
    if eq_bytes addr t.self.addr then skipped else elim (ping capacity (pings addr) t) [
      | err _ ↦ skipped
      | panic ↦ panic
      | running ↦ running
      | ok t' ↦ elim (find_node alpha k (capacity t'.self.id) (answers addr) t'.self.id t') [
        | ok (t'', _) ↦ ok t''
        | err _ ↦ bootstrap capacity alpha k pings answers addrs t'
        | panic ↦ panic
        | running ↦ running
      ]
    ]
