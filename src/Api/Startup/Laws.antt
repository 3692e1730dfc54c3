-- ===== src/Api/Startup/Laws.antt =====
-- When a node starts, and who it is.
use mini_ipfs.Prelude.{
  ℕ, suc, ◌≡◌, ◌≢◌, refl, ap, ◌∙◌, true, false, none, some, [], ◌∷◌, length, ltb, Bytes, Bool,
  eq_bytes, ◌⊎◌, inl, inr, Bool-cases, Option-cases, ℤ, err, ok, arith, pos,
}
use mini_ipfs.Config.{Config, LoggingConfig, Found, default, node_id, with_defaults, load_config}
use mini_ipfs.Logging.{Zap, init_logger}
use mini_ipfs.Dht.Types.{NodeInfo}
use mini_ipfs.Dht.Routing.{RoutingTable, set_bucket, new_routing_table}
use mini_ipfs.Dht.Rpc.{Node}
use mini_ipfs.Dht.Start.{seed_of, new_node}
use mini_ipfs.Net.{build_advertised_addr}
use mini_ipfs.Storage.Disk.{Disk}
use mini_ipfs.Storage.Store.{ChunkStore, Faults, update_stats, new_chunk_store}
use mini_ipfs.Storage.Store.Paths.{IsDigest}
use mini_ipfs.Api.State.{Server}
use mini_ipfs.Api.Startup.{new_server, start_server, main_server, no_logger}

new_routing_table_self :
    (info : NodeInfo) (n : ℕ)
    → length info.id ≡ 32
    → (t : RoutingTable) × (new_routing_table (some info) (pos (suc n)) ≡ ok t) × (t.self ≡ info)
unfolding new_routing_table set_bucket
new_routing_table_self info n long =
    let positive : ltb 0 (suc n) ≡ true = ground arith in
    let t : RoutingTable = record { self = info; k = suc n; buckets = λ _. none; depth = 0 } in
    (set_bucket 255 (info ∷ []) t, rw (long, positive) refl, refl)

new_chunk_store-disk :
    (io : Faults) (disk : Disk)
    → io.mkdir_fails ≡ false
    → (s : ChunkStore) × (new_chunk_store io disk ≡ ok s) × (s.disk ≡ disk)
unfolding new_chunk_store
new_chunk_store-disk io disk made =
    let s : ChunkStore = record {
      disk = disk;
      stats = record { total_chunks = 0; total_bytes = 0 };
    } in
    ((update_stats io s).1, rw made refl, ground arith)

seed_of_self : (id addr : Bytes) → id ≢ [] → seed_of id addr ≡ id
seed_of_self [] addr h = absurd (h refl)
seed_of_self (c ∷ id) addr h = refl

node_id-nonempty : (hostname pid id : Bytes) → node_id hostname pid id ≢ []
node_id-nonempty [] pid [] h = cc h
node_id-nonempty (c ∷ hostname) pid [] h = cc h
node_id-nonempty hostname pid (c ∷ id) h = cc h

new_node_self :
    (sha256 : Bytes → Bytes) (hostname : Bytes) (config : Config) (n : ℕ)
    → IsDigest sha256
    → config.dht.k ≡ pos (suc n)
    → config.node.id ≢ []
    → (node : Node) × (new_node sha256 hostname config ≡ ok node)
      × (node.table.self.id ≡ sha256 config.node.id)
unfolding new_node
new_node_self sha256 hostname config n digest k named =
    let seed = seed_of config.node.id config.node.dht_addr in
    let info : NodeInfo = record {
      id = sha256 seed;
      addr = build_advertised_addr hostname config.node.advertise_host config.node.dht_addr;
      http = [];
    } in
    let (t, made, self) = new_routing_table_self info n (digest seed).size in
    (
      record { table = t; providers = λ _. [] },
      rw (new_node, k, made) refl,
      ap (λ (i : NodeInfo). i.id) self ∙ ap sha256 (seed_of_self _ _ named),
    )

abbrev pub info_level : Bytes
info_level = b'i' ∷ b'n' ∷ b'f' ∷ b'o' ∷ []

abbrev pub is_console : LoggingConfig → Bool
is_console logging = eq_bytes logging.format (b'c' ∷ b'o' ∷ b'n' ∷ b's' ∷ b'o' ∷ b'l' ∷ b'e' ∷ [])

-- Package zap does not know the level, or builds no logger with it.
abbrev pub NoLogger : Zap → LoggingConfig → Type 0
NoLogger zap logging =
    (zap.parse_level logging.level ≡ none)
    ⊎ ((level : ℤ) × (zap.parse_level logging.level ≡ some level)
        × (zap.build (is_console logging) level ≡ false))

module _ (sha256 : Bytes → Bytes) (digest : IsDigest sha256) where
  -- With a configuration that package viper can read and that sets no `K` below 1, over a data
  -- directory that can be made, whatever the files in it: the process ends before it has a server
  -- exactly where package zap does not know the configured level, `info` by default, or builds no
  -- logger. Else a node starts. It is named, and its identifier is the hash of its name.
  pub main_server_starts :
      (zap : Zap) (hostname pid : Bytes) (io : Faults) (disk : Disk) (f : Found) (n : ℕ)
      → default (pos 20) f.k ≡ pos (suc n)
      → io.mkdir_fails ≡ false
      → (NoLogger zap (with_defaults f).logging
          × (main_server sha256 zap hostname pid io disk (some f) ≡ err no_logger))
        ⊎ ((level : ℤ) × (zap.parse_level (default info_level f.level) ≡ some level)
            × (zap.build (is_console (with_defaults f).logging) level ≡ true)
            × ((config : Config) × (s : Server) × (main_server sha256 zap hostname pid io disk
                    (some f)
                  ≡ ok (config, s))
                × (config.node.id ≢ [])
                × (s.node.table.self.id ≡ sha256 config.node.id)
                × (s.store.disk ≡ disk)))
  unfolding main_server load_config with_defaults init_logger
  main_server_starts zap hostname pid io disk f n k made =
      let config = with_defaults f in
      let config' : Config = record config {
        node = record config.node { id = node_id hostname pid config.node.id };
      } in
      let named = node_id-nonempty hostname pid config.node.id in
      let (store, stored, same) = new_chunk_store-disk io disk made in
      let (node, joined, self) = new_node_self sha256 hostname config' n digest k named in
      elim (Option-cases (zap.parse_level config.logging.level)) [
        | inl e ↦ inl (inl e, rw (main_server, load_config, e) refl)
        | inr (level, e) ↦ elim (Bool-cases (zap.build (is_console config.logging) level)) [
          | inr b ↦ inl (inr (level, e, b), rw (main_server, load_config, e, b) refl)
          | inl b ↦ inr (
            level,
            e,
            b,
            (
              config',
              new_server store node,
              rw (main_server, load_config, e, b, start_server, stored, joined) refl,
              named,
              self,
              same,
            ),
          )
        ]
      ]
