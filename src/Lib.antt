-- ===== src/Lib.antt =====
-- mini-ipfs, a content-addressed file store over a Kademlia table, as a model of its core.
--
-- The parts. Data are split into chunks and put together again by a manifest
-- (internal/storage/chunker.go); chunks are kept in files named after their SHA-256
-- (internal/storage/store.go). A node finds the providers of a hash through a table of the nodes it
-- knows (internal/dht/routing.go), keeps provider records (internal/dht/node.go), and answers the
-- messages of other nodes, which also enter its table (internal/dht/rpc.go). The HTTP server
-- (internal/api/server.go) takes chunks and files, keeps their chunks and manifests in the store,
-- announces them through the node, serves them from the store or from the providers that the node
-- finds, deletes them, and tells its clients of all that as events. cmd/node/main.go puts the parts
-- together by a configuration (internal/util/config.go) and makes the logger
-- (internal/util/logger.go).
--
-- The files.
--   Prelude: tests and lists over native numbers, the result of a Go call, signed integers.
--   Hex: EncodeToString and DecodeString of encoding/hex, of Go's standard library.
--   Net: SplitHostPort and JoinHostPort of net, of Go's standard library, and with them
--     advertisedHTTPAddr of server.go and buildAdvertisedAddr of node.go.
--   Config: LoadConfig of config.go. Logging: InitLogger of logger.go.
--   Storage.Chunker: ChunkData, ChunkReader, CreateManifest, ReconstructData of chunker.go.
--   Storage.Disk: the files below the data directory, by their path.
--   Storage.Store: NewChunkStore, PutChunk, GetChunk, HasChunk, DeleteChunk, GetStats, ListChunks of
--     store.go, each a function of the store and of the calls of package os that fail meanwhile.
--   Dht.Types: NodeInfo and the errors of types.go.
--   Dht.Distance: xorDistance, distanceBucket, isDistanceSmaller of routing.go.
--   Dht.Routing: the table and InsertNode, RemoveNode, Lookup, GetNodes, Buckets of routing.go.
--   Dht.Closest: ClosestK of routing.go.
--   Dht.Providers: storeProviderLocal, loadProviders, FindProviders of node.go.
--   Dht.Json: what encoding/json leaves in an `interface{}`.
--   Dht.Rpc: handleMessage and the handlers of rpc.go, and the loop body of handleConnection.
--   Dht.Remote: StoreProvider, storeProviderRemote, findProvidersRemote and findNodeSingle of node.go.
--   Dht.FindNode: FindNode of node.go.
--   Dht.Start: NewNode, Ping and bootstrap of node.go.
--   Api.State: the state of the server, what it sees of the world, bodies and answers.
--   Api.Fetch: fetchChunkFromNetwork and fetchChunkFromHTTP of server.go.
--   Api.Chunks: handlePostChunk, handleGetChunk and handleDeleteChunk of server.go.
--   Api.Files: handlePostFile; Api.Files.Stream: handlePostFileStream; Api.Files.Load: handleGetFile
--     and handleDeleteFile of server.go.
--   Api.Events: sseHub of server.go and what handleSSE receives.
--   Api.Startup: main of main.go up to its server.
--   Api.Requests: the routes of server.go, and the steps of a running node.
--   Api.Steps, Api.Limits and the modules below those named: what is proved of them.
--   Tests: concrete inputs.
--
-- Bounds and fuel. A string or byte slice is a list of numbers below 256 where that matters; lengths
-- and offsets are unbounded natural numbers, since a sum of two offsets into data in memory does not
-- overflow an `int64`. The totals of the store wrap around at 2 ^ 64. Only the loop of ChunkData
-- needs fuel, one round for each byte and one more; all other loops end with a list that they
-- consume, that of ClosestK after its 129 rounds, and that of
-- FindNode after its 10. A loop that outlives its fuel is `running`,
-- a run-time panic is `panic`.
--
-- Parameters. SHA-256 is a function whose values are 32 bytes; where a theorem needs that no two
-- texts share a hash, it says of which texts. What a remote node answers is a function of its
-- address; texts pass through JSON unchanged, and a manifest that encoding/json wrote is read back.
-- The capacity of the slice that hex.DecodeString returns is a function of the identifier. An
-- operation that holds a lock is one step; FindNode and StoreProvider run with no other message
-- coming in between. What a round of FindNode has been answered, in order of arrival, is an
-- argument, so a late answer is one left out. A request is one step, too: during it the `World` says
-- for each call of the store what the operating system refuses, what other nodes answer, and the
-- time; requests that run at once are taken one after the other. A call of StoreProvider that a
-- handler starts in the background is noted, and runs as a step of its own. A panic in a handler is
-- caught by net/http, which drops the connection: the answer `aborted`. What package viper finds for
-- a key of the configuration is an argument, and so are the host name, the process number, and what
-- package zap accepts as a level and builds as a logger.
--
-- Not modelled: sockets, timeouts, JSON text, the matching of paths, headers, log entries but for
-- the panics of their arguments, the events of the DHT, the interleaving of requests, signals and
-- shutdown.
pub mod Prelude
pub mod Hex
pub mod Net
pub mod Config
pub mod Logging
pub mod Storage
pub mod Dht
pub mod Api
pub mod Tests
