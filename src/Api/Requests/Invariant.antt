-- ===== src/Api/Requests/Invariant.antt =====
-- What holds of a running node.
use mini_ipfs.Prelude.{
  ℕ, ◌≡◌, refl, sym, false, [], Bytes, Result, ok, err, panic, running, >>=-eq-ok,
}
use mathlib.Core.Path.{subst}
use mini_ipfs.Dht.Rpc.Laws.{IsNode}
use mini_ipfs.Dht.Start.{new_node}
use mini_ipfs.Config.{Config}
use mini_ipfs.Api.Startup.{
  StartError, no_store, no_node, or_fail, new_server, settings_of, start_server,
}
use mini_ipfs.Storage.Disk.{NodupPaths}
use mini_ipfs.Storage.Disk
use mini_ipfs.Storage.Store.{ChunkStore, Faults, new_chunk_store}
use mini_ipfs.Storage.Store.Contents.{chunk_at}
use mini_ipfs.Storage.Store.Contents.PutGet.{IsIntact}
use mini_ipfs.Storage.Store.Listing.{AllOwn}
use mini_ipfs.Storage.Store.Totals.{new_chunk_store-TotalsAgree}
use mini_ipfs.Storage.Store.Paths.{IsDigest}
use mini_ipfs.Storage.Store.Invariant.{IsStore, Reach, Reach-IsStore_from}
use mini_ipfs.Api.State.{Server, Settings, World, ManifestCodec}
use mini_ipfs.Api.Steps.{
  IsTruthful, handle_post_chunk-Reach, handle_get_chunk-Reach, handle_delete_chunk-Reach,
}
use mini_ipfs.Api.Steps.Uploads.{handle_post_file-Reach, handle_post_file_stream-Reach}
use mini_ipfs.Api.Steps.Downloads.{handle_get_file-Reach, handle_delete_file-Reach}
use mini_ipfs.Api.Steps.Kept.{
  handle_post_chunk-node, handle_get_chunk-node, handle_delete_chunk-node, handle_post_file-node,
  handle_post_file_stream-node, handle_get_file-node, handle_delete_file-node,
}
use mini_ipfs.Api.Requests.{
  ApiRequest, options, root, health, status, chunk_post, chunk_get, chunk_delete, file_post,
  file_get, file_delete, file_stream, serve, NodeStep, request, announcement, message, lookup,
  pinged, bootstrapped, restarted, Runs, start, then_step,
}
use mini_ipfs.Api.Requests.Nodes.{
  receive-IsNode, store_provider-IsNode, find_node-IsTable, new_node-IsNode, ping-IsTable,
  bootstrap-IsTable,
}

-- The store is in order, and so are the routing table and the provider records.
pub record IsServer (sha256 : Bytes → Bytes) (s : Server) : Type 0 where
  pub store : IsStore sha256 s.store
  pub node : IsNode s.node

module _ (sha256 : Bytes → Bytes) (codec : ManifestCodec) (cfg : Settings) (fuel : ℕ) where
  pub serve-Reach :
      (w : World) (r : ApiRequest) (s : Server)
      → IsTruthful w
      → Reach sha256 s.store (serve sha256 codec cfg fuel w r s).1.store
  unfolding serve
  serve-Reach w options s truly = Reach.here
  serve-Reach w root s truly = Reach.here
  serve-Reach w health s truly = Reach.here
  serve-Reach w status s truly = Reach.here
  serve-Reach w (chunk_post body) s truly = handle_post_chunk-Reach sha256 w cfg truly body s
  serve-Reach w (chunk_get hash remote) s truly =
      handle_get_chunk-Reach sha256 w cfg truly hash remote s
  serve-Reach w (chunk_delete hash global propagate) s truly =
      handle_delete_chunk-Reach sha256 w cfg truly hash global propagate s
  serve-Reach w (file_post body) s truly =
      handle_post_file-Reach sha256 codec w cfg truly fuel body s
  serve-Reach w (file_get hash remote) s truly =
      handle_get_file-Reach sha256 codec w cfg truly hash remote s
  serve-Reach w (file_delete hash remote global propagate) s truly =
      handle_delete_file-Reach sha256 codec w cfg truly hash remote global propagate s
  serve-Reach w (file_stream reads) s truly =
      handle_post_file_stream-Reach sha256 codec w cfg truly reads s

  serve-node :
      (w : World) (r : ApiRequest) (s : Server)
      → (serve sha256 codec cfg fuel w r s).1.node ≡ s.node
  unfolding serve
  serve-node w options s = refl
  serve-node w root s = refl
  serve-node w health s = refl
  serve-node w status s = refl
  serve-node w (chunk_post body) s = handle_post_chunk-node sha256 w cfg body s
  serve-node w (chunk_get hash remote) s = handle_get_chunk-node sha256 w cfg hash remote s
  serve-node w (chunk_delete hash global propagate) s =
      handle_delete_chunk-node sha256 w cfg hash global propagate s
  serve-node w (file_post body) s = handle_post_file-node sha256 codec w cfg fuel body s
  serve-node w (file_get hash remote) s = handle_get_file-node sha256 codec w cfg hash remote s
  serve-node w (file_delete hash remote global propagate) s =
      handle_delete_file-node sha256 codec w cfg hash remote global propagate s
  serve-node w (file_stream reads) s = handle_post_file_stream-node sha256 codec w cfg reads s

or_fail-ok :
    {E A : Type 0} (e : StartError) (r : Result E A) (a : A) → or_fail e r ≡ ok a → r ≡ ok a
or_fail-ok e (ok b) a h = cc h
or_fail-ok e (err b) a h = cc h
or_fail-ok e panic a h = cc h
or_fail-ok e running a h = cc h

module _ (sha256 : Bytes → Bytes) (digest : IsDigest sha256) where
  -- A start over files that are in order.
  start_server-IsServer :
      (hostname : Bytes) (io : Faults) (before : ChunkStore) (config : Config) (s : Server)
      → io.walk_fails ≡ false
      → start_server sha256 hostname io before.disk config ≡ ok s
      → NodupPaths before.disk
      → AllOwn before.disk
      → IsIntact sha256 before
      → IsServer sha256 s
  unfolding start_server chunk_at
  start_server-IsServer hostname io before config s walked e nodup own intact =
      let (store, later, a) = >>=-eq-ok _ s (or_fail no_store (new_chunk_store io before.disk)) e in
      let (node, made, b) =
        >>=-eq-ok _ s (or_fail no_node (new_node sha256 hostname config)) later in
      let (totals, same) =
        new_chunk_store-TotalsAgree io before.disk store walked (or_fail-ok _ _ store a) in
      let built : new_server store node ≡ s = cc made in
      subst (IsServer sha256) built (record {
        store = record {
          nodup = rw same nodup;
          own = rw same own;
          intact = λ h c v at. intact h c v (rw same at at);
          totals = totals;
        };
        node = new_node-IsNode sha256 hostname config node digest (or_fail-ok _ _ node b);
      })

module _ (sha256 : Bytes → Bytes) (codec : ManifestCodec) (config : Config) (fuel : ℕ) where
  NodeStep-IsServer :
      (capacity : Bytes → ℕ) {s t : Server}
      → IsDigest sha256
      → NodeStep sha256 codec config fuel capacity s t
      → IsServer sha256 s
      → IsServer sha256 t
  NodeStep-IsServer capacity digest (request w r s truly) v = record {
    store =
        Reach-IsStore_from sha256 digest v.store
          (serve-Reach sha256 codec (settings_of config) fuel w r s truly);
    node = subst IsNode (sym (serve-node sha256 codec (settings_of config) fuel w r s)) v.node;
  }
  NodeStep-IsServer capacity digest
        (announcement send before after hash provider s node reached _ e) v =
      record {
        store = v.store;
        node =
            store_provider-IsNode capacity (settings_of config).k config.dht.bootstrap_nodes send
              hash provider s.node node reached v.node e;
      }
  NodeStep-IsServer capacity digest (message msg s node answer e) v = record {
    store = v.store;
    node = receive-IsNode capacity msg s.node node answer v.node e;
  }
  NodeStep-IsServer capacity digest (lookup alpha wide answers target s t found e) v = record {
    store = v.store;
    node = record {
      table =
          find_node-IsTable alpha (settings_of config).k wide answers target s.node.table t found
            v.node.table e;
      providers = v.node.providers;
    };
  }
  NodeStep-IsServer capacity digest (pinged response s t e) v = record {
    store = v.store;
    node = record {
      table = ping-IsTable capacity response s.node.table t v.node.table e;
      providers = v.node.providers;
    };
  }
  NodeStep-IsServer capacity digest (bootstrapped alpha pings answers s t e) v = record {
    store = v.store;
    node = record {
      table =
          bootstrap-IsTable capacity alpha (settings_of config).k pings answers
            config.dht.bootstrap_nodes s.node.table t v.node.table e;
      providers = v.node.providers;
    };
  }
  NodeStep-IsServer capacity digest (restarted hostname io s t walked e) v =
      start_server-IsServer sha256 digest hostname io s.store config t walked e v.store.nodup
        v.store.own v.store.intact

  Runs-IsServer_from :
      (capacity : Bytes → ℕ) {s t : Server}
      → IsDigest sha256
      → IsServer sha256 s
      → Runs sha256 codec config fuel capacity s t
      → IsServer sha256 t
  Runs-IsServer_from capacity digest v start = v
  Runs-IsServer_from capacity digest v (then_step r st) =
      NodeStep-IsServer capacity digest st (Runs-IsServer_from capacity digest v r)

  -- Whatever happens to a node that started on an empty directory, in any order: requests, the
  -- announcements that they leave behind, messages of other nodes, pings, lookups, the bootstrap and restarts, with any
  -- failures of package os but false answers of `os.Stat` and an unreadable directory at a start. Its
  -- store, its routing table and its provider records stay in order.
  pub Runs-IsServer :
      (capacity : Bytes → ℕ) (hostname : Bytes) (io : Faults) (s t : Server)
      → IsDigest sha256
      → io.walk_fails ≡ false
      → start_server sha256 hostname io [] config ≡ ok s
      → Runs sha256 codec config fuel capacity s t
      → IsServer sha256 t
  unfolding chunk_at Disk.lookup
  Runs-IsServer capacity hostname io s t digest walked e r =
      let empty : ChunkStore = record {
        disk = [];
        stats = record { total_chunks = 0; total_bytes = 0 };
      } in
      let first =
        start_server-IsServer sha256 digest hostname io empty config s walked e tt tt
          (λ h c v at. cc at) in
      Runs-IsServer_from capacity digest first r
