-- ===== src/Api/Requests.antt =====
-- The routes of internal/api/server.go, their handlers, and what else changes a running node.
pub mod Nodes
pub mod Invariant
use mini_ipfs.Prelude.{ℕ, ◌≡◌, false, List, ◌∷◌, ◌++◌, Option, Bytes, Result, ok}
use mini_ipfs.Dht.Types.{NodeInfo}
use mini_ipfs.Dht.Routing.{RoutingTable}
use mini_ipfs.Dht.Rpc.{Node, Request, receive}
use mini_ipfs.Dht.Rpc
use mini_ipfs.Dht.Remote.{store_provider}
use mini_ipfs.Dht.Remote
use mini_ipfs.Dht.FindNode.{find_node}
use mini_ipfs.Dht.Start.{Pong, ping, bootstrap}
use mini_ipfs.Config.{Config}
use mini_ipfs.Storage.Store.{Faults, get_stats}
use mini_ipfs.Api.Startup.{settings_of, start_server}
use mini_ipfs.Api.State.{
  Server, Settings, World, ManifestCodec, Body, Answer, Content, respond, nothing, storage,
}
use mini_ipfs.Api.Chunks.{handle_post_chunk, handle_get_chunk, handle_delete_chunk}
use mini_ipfs.Api.Files.{handle_post_file}
use mini_ipfs.Api.Files.Stream.{ReadStatus, handle_post_file_stream}
use mini_ipfs.Api.Files.Load.{handle_get_file, handle_delete_file}
use mini_ipfs.Api.Steps.{IsTruthful}

-- A request that the routes of `setupRoutes` take, with the hash of its path and the parameters of
-- its query that the handler reads. `options` is any that `corsMiddleware` answers itself.
pub data ApiRequest : Type 0 where
  options root health status : ApiRequest
  chunk_post : Body → ApiRequest
  chunk_get : (hash remote : Bytes) → ApiRequest
  chunk_delete : (hash global propagate : Bytes) → ApiRequest
  file_post : Body → ApiRequest
  file_get : (hash remote : Bytes) → ApiRequest
  file_delete : (hash remote global propagate : Bytes) → ApiRequest
  file_stream : List (Bytes × ReadStatus) → ApiRequest

module _ (sha256 : Bytes → Bytes) (codec : ManifestCodec) (cfg : Settings) (fuel : ℕ) where
  -- The handler of the route.
  unfoldable pub serve : World → ApiRequest → Server → Answer × Server
  serve w options s = (respond 200 nothing, s)
  serve w root s = (respond 200 Content.message, s)
  serve w health s = (respond 200 (storage (get_stats s.store)), s)
  serve w status s = (respond 200 (storage (get_stats s.store)), s)
  serve w (chunk_post body) s = handle_post_chunk sha256 w cfg body s
  serve w (chunk_get hash remote) s = handle_get_chunk sha256 w cfg hash remote s
  serve w (chunk_delete hash global propagate) s =
      handle_delete_chunk sha256 w cfg hash global propagate s
  serve w (file_post body) s = handle_post_file sha256 codec w cfg fuel body s
  serve w (file_get hash remote) s = handle_get_file sha256 codec w cfg hash remote s
  serve w (file_delete hash remote global propagate) s =
      handle_delete_file sha256 codec w cfg hash remote global propagate s
  serve w (file_stream reads) s = handle_post_file_stream sha256 codec w cfg reads s

module _ (sha256 : Bytes → Bytes) (codec : ManifestCodec) (config : Config) (fuel : ℕ) where
  -- What happens to a running node, one at a time: a request; a call of `StoreProvider` that a
  -- handler started; a message of another node; a ping, a lookup, or all of `bootstrap`; a restart over
  -- the files that it left. A step that crashes the process is no step.
  pub data NodeStep (capacity : Bytes → ℕ) : Server → Server → Type 0 where
    request :
        (w : World) (r : ApiRequest) (s : Server)
        → IsTruthful w
        → NodeStep capacity s (serve sha256 codec (settings_of config) fuel w r s).1
    announcement :
        (send : Bytes → Option Remote.Answer) (before after : List (Bytes × NodeInfo))
        (hash : Bytes) (provider : NodeInfo) (s : Server) (node : Node) (reached : List Bytes)
        → s.announced ≡ before ++ ((hash, provider) ∷ after)
        → store_provider capacity
            (settings_of config).k
            config.dht.bootstrap_nodes
            send
            hash
            provider
            s.node
          ≡ ok (node, reached)
        → NodeStep capacity s (record s { node = node; announced = before ++ after })
    message :
        (msg : Request) (s : Server) (node : Node) (answer : Option Rpc.Response)
        → receive capacity msg s.node ≡ ok (node, answer)
        → NodeStep capacity s (record s { node = node })
    lookup :
        (alpha wide : ℕ) (answers : ℕ → List NodeInfo → List NodeInfo) (target : Bytes) (s : Server)
        (t : RoutingTable) (found : List NodeInfo)
        → find_node alpha (settings_of config).k wide answers target s.node.table ≡ ok (t, found)
        → NodeStep capacity s (record s { node = record s.node { table = t } })
    pinged :
        (response : Option Pong) (s : Server) (t : RoutingTable)
        → ping capacity response s.node.table ≡ ok t
        → NodeStep capacity s (record s { node = record s.node { table = t } })
    bootstrapped :
        (alpha : ℕ) (pings : Bytes → Option Pong)
        (answers : Bytes → ℕ → List NodeInfo → List NodeInfo) (s : Server) (t : RoutingTable)
        → bootstrap capacity alpha
            (settings_of config).k
            pings
            answers
            config.dht.bootstrap_nodes
            s.node.table
          ≡ ok t
        → NodeStep capacity s (record s { node = record s.node { table = t } })
    restarted :
        (hostname : Bytes) (io : Faults) (s t : Server)
        → io.walk_fails ≡ false
        → start_server sha256 hostname io s.store.disk config ≡ ok t
        → NodeStep capacity s t

  pub data Runs (capacity : Bytes → ℕ) (s : Server) : Server → Type 0 where
    start : Runs capacity s s
    then_step : {t u : Server} → Runs capacity s t → NodeStep capacity t u → Runs capacity s u
