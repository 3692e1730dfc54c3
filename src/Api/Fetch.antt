-- ===== src/Api/Fetch.antt =====
-- `fetchChunkFromNetwork` and `fetchChunkFromHTTP` of internal/api/server.go.
pub mod Laws
use mini_ipfs.Prelude.{
  ℕ, Bool, true, false, Option, none, some, List, [], ◌∷◌, ◌++◌, ◌==◌, eq_bytes, if◌then◌else◌, ltb,
  length, Bytes, Result, ok, err, panic, running,
}
use mini_ipfs.Hex.{encode_to_string}
use mini_ipfs.Dht.Types.{NodeInfo}
use mini_ipfs.Dht.Rpc.{StoreFailure}
use mini_ipfs.Dht.Providers.{find_providers}
use mini_ipfs.Net.{split_host_port, join_host_port}
use mini_ipfs.Api.State.{
  Server, Settings, World, Event, http_fetch_attempt, http_fetch_error, http_fetch_success, emit,
}

abbrev pub default_port : Bytes
default_port = b'8' ∷ b'0' ∷ b'8' ∷ b'0' ∷ []

-- The HTTP address of a provider: the one that it announced, or its DHT host with port 8080.
unfoldable pub provider_http : NodeInfo → Option Bytes
provider_http p = elim p.http [
  | c ∷ http ↦ some (c ∷ http)
  | [] ↦ elim (split_host_port p.addr) [
    | none ↦ none
    | some ([], _) ↦ none
    | some (c ∷ host, _) ↦ some (join_host_port (c ∷ host) default_port)
  ]
]

-- `fetchChunkFromHTTP`
unfoldable pub fetch_chunk_from_http : World → Bytes → Bytes → Option Bytes
fetch_chunk_from_http w http_addr hash_hex = elim (w.get http_addr hash_hex) [
  | none ↦ none
  | some (status, body) ↦ if status == 200 then body else none
]

-- What `fetchChunkFromNetwork` returns: bytes, an error, or not at all.
pub data Fetched : Type 0 where
  fetched : Bytes → Fetched
  not_fetched crashed : Fetched

module _ (sha256 : Bytes → Bytes) (w : World) (hash hash_hex : Bytes) where
  -- The loop over the providers, with the events that it emits.
  unfoldable pub try_providers : List NodeInfo → Option Bytes × List Event
  unfolding fetch_chunk_from_http
  try_providers [] = (none, [])
  try_providers (p ∷ providers) =
      let (found, events) = try_providers providers in
      elim (provider_http p) [
        | none ↦ (found, events)
        | some addr ↦ elim (fetch_chunk_from_http w addr hash_hex) [
          | none ↦
              (found, http_fetch_attempt addr hash_hex ∷ http_fetch_error addr hash_hex ∷ events)
          | some bytes ↦
              if eq_bytes hash (sha256 bytes)
              then (
                some bytes,
                http_fetch_attempt addr hash_hex ∷ http_fetch_success addr hash_hex ∷ [],
              )
              else (found, http_fetch_attempt addr hash_hex ∷ events)
        ]
      ]

  -- `fetchChunkFromNetwork`, which ends early where no providers are known. The first 16 digits of
  -- the hash go to the log, and a shorter text panics.
  unfoldable pub fetch_chunk_from_network : Settings → Server → Fetched × Server
  unfolding try_providers
  fetch_chunk_from_network cfg s =
      elim (find_providers {E = StoreFailure} (w.ask hash) cfg.k hash s.node.table
        s.node.providers) [
          | err _ ↦ (not_fetched, s)
          | panic ↦ (crashed, s)
          | running ↦ (crashed, s)
          | ok [] ↦ (not_fetched, s)
          | ok (p ∷ providers) ↦
              let (found, events) = try_providers (p ∷ providers) in
              if ltb (length hash_hex) 16
              then (crashed, s)
              else (elim found [ none ↦ not_fetched | some bytes ↦ fetched bytes ], emit events s)
        ]
