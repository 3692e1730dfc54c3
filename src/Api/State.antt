-- ===== src/Api/State.antt =====
-- What the HTTP server keeps, what it sees of the world during one request, and what it answers.
use mini_ipfs.Prelude.{
  ℕ, Bool, false, ◌||◌, Option, none, some, List, [], ◌∷◌, ◌++◌, eq_bytes, leb, length, take,
  if◌then◌else◌, Bytes, ℤ, pos, negsuc, Result, ok, ltb,
}
use mini_ipfs.Dht.Types.{NodeInfo}
use mini_ipfs.Dht.Rpc.{Node}
use mini_ipfs.Storage.Chunker.{Chunker, ChunkInfo, FileManifest}
use mini_ipfs.Storage.Store.{ChunkStore, StoreStats, Faults}
use mini_ipfs.Hex.RoundTrip.{IsBytes}
use mini_ipfs.Prelude.{All, ◌≡◌, ◌<◌}

-- The events that `emitEvent` is called with, without their time.
pub data Event : Type 0 where
  chunk_stored : (hash : Bytes) (size : ℕ) → Event
  chunk_deleted : (hash : Bytes) (contacted deleted : ℕ) → Event
  chunk_cached manifest_cached : (hash : Bytes) → Event
  http_fetch_attempt http_fetch_error http_fetch_success : (addr hash : Bytes) → Event
  file_stored : (manifest : Bytes) (size chunks : ℕ) → Event
  file_served : (manifest : Bytes) (chunks size : ℕ) (remote : Bool) → Event
  file_deleted :
      (manifest : Bytes) (removed chunks contacted deleted chunk_contacted chunk_deleted : ℕ)
      → Event

-- `Server`: the store, the node, the calls of `StoreProvider` that were started in the background,
-- and the events so far, in order.
pub record Server : Type 0 where
  pub store : ChunkStore
  pub node : Node
  pub announced : List (Bytes × NodeInfo)
  pub events : List Event

-- The parts of `Config` that the server reads, and its chunker.
pub record Settings : Type 0 where
  pub advertise_host : Bytes
  pub http_addr : Bytes
  pub k : ℕ
  pub chunker : Chunker

-- What `client.Do` brings for a DELETE request: nothing where `http.NewRequest` did not accept the
-- address, so that the request is nil, which panics; an error; or the status of the response.
pub data Reply : Type 0 where
  no_request failed : Reply
  replied : ℕ → Reply

-- What other programs do during a request: `io i` is what the operating system refuses of the
-- `i`-th call of the store, `ask hash addr` what a node answers when it is asked for providers,
-- `get addr hash_hex` the status of a GET of a chunk and its body if it can be read, and
-- `delete_chunk addr hash_hex` and `delete_file addr hash_hex` what a DELETE brings.
pub record World : Type 0 where
  pub io : ℕ → Faults
  pub ask : Bytes → Bytes → Option (List NodeInfo)
  pub get : Bytes → Bytes → Option (ℕ × Option Bytes)
  pub delete_chunk : Bytes → Bytes → Reply
  pub delete_file : Bytes → Bytes → Reply
  pub now : ℤ

-- How encoding/json writes and reads a manifest.
pub record ManifestCodec : Type 0 where
  pub marshal : FileManifest → Bytes
  pub unmarshal : Bytes → Option FileManifest
  pub unmarshal-marshal :
      (m : FileManifest)
      → All (λ (ci : ChunkInfo). IsBytes ci.hash) m.chunks
      → unmarshal (marshal m) ≡ some m
  pub marshal-nonempty : (m : FileManifest) → 0 < length (marshal m)
  pub unmarshal-IsBytes :
      (b : Bytes) (m : FileManifest)
      → unmarshal b ≡ some m
      → All (λ (ci : ChunkInfo). IsBytes ci.hash) m.chunks

-- What the body of a response holds, without error texts and constants: the totals that the health
-- and status answers report, `ChunkResponse`, `FileResponse`, bytes, and the counts of the two
-- deletions.
pub data Content : Type 0 where
  message nothing : Content
  storage : StoreStats → Content
  chunk_info : (hash : Bytes) (size : ℕ) → Content
  raw : Bytes → Content
  file_info : (hash : Bytes) (size chunks manifest_size : ℕ) → Content
  chunk_gone : (contacted deleted : ℕ) → Content
  file_gone : (removed total contacted deleted chunk_contacted chunk_deleted : ℕ) → Content

pub record Response : Type 0 where
  pub status : ℕ
  pub content : Content

-- How a handler ends. A panic is caught by package net/http, which drops the connection; what the
-- handler did before stays done.
pub data Answer : Type 0 where
  answered : Response → Answer
  aborted unfinished : Answer

abbrev pub respond : ℕ → Content → Answer
respond status content = answered (record { status = status; content = content })

-- `http.Error`
abbrev pub refuse : ℕ → Answer
refuse status = respond status message

abbrev pub emit : List Event → Server → Server
emit events s = record s { events = s.events ++ events }

abbrev pub announce : Bytes → Bytes → Server → Server
announce hash http_addr s = record s {
  announced =
      s.announced
      ++ ((
        hash,
        record { id = s.node.table.self.id; addr = s.node.table.self.addr; http = http_addr },
      )
          ∷ []);
}

abbrev pub with_store : ChunkStore → Server → Server
with_store store s = record s { store = store }

-- The value of a call that returned no error.
abbrev pub value_of {ℓ κ} : {E : Type ℓ} {A : Type κ} → Result E A → Option A
value_of (ok a) = some a
value_of _ = none

-- A query parameter that is "1" or "true".
abbrev pub is_on : Bytes → Bool
is_on q = eq_bytes q (b'1' ∷ []) || eq_bytes q (b't' ∷ b'r' ∷ b'u' ∷ b'e' ∷ [])

-- One that is "0" or "false".
abbrev pub is_off : Bytes → Bool
is_off q = eq_bytes q (b'0' ∷ []) || eq_bytes q (b'f' ∷ b'a' ∷ b'l' ∷ b's' ∷ b'e' ∷ [])

-- A request body: its bytes, and whether reading fails after them. `declared` is `ContentLength`,
-- which is -1 where the client names none.
pub record Body : Type 0 where
  pub declared : ℤ
  pub bytes : Bytes
  pub broken : Bool

abbrev pub exceeds : ℤ → ℕ → Bool
exceeds (pos n) max = ltb max n
exceeds (negsuc _) max = false

-- `io.ReadAll(io.LimitReader(r.Body, max))`: what lies past the limit is not read.
unfoldable pub read_limited : ℕ → Body → Option Bytes
read_limited max body =
    if leb max (length body.bytes)
    then some (take max body.bytes)
    else if body.broken
    then none
    else some body.bytes
