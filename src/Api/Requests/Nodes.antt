-- ===== src/Api/Requests/Nodes.antt =====
-- What messages, announcements, pings and lookups leave of a node in order.
use mini_ipfs.Prelude.{
  ℕ, ◌≡◌, ◌≤◌, ◌<◌, ◌⊎◌, inl, inr, refl, none, some, ltb, length, List, [], Option, Option-cases,
  Bool-cases, Bytes, Result, ok, err, panic, running, arith, >>=-eq-ok, ℤ, pos, negsuc,
}
use mathlib.Core.Path.{subst}
use mini_ipfs.Hex.{encode_to_string}
use mini_ipfs.Dht.Types.{NodeInfo, IsKey}
use mini_ipfs.Net.{build_advertised_addr}
use mini_ipfs.Dht.Routing.{RoutingTable, new_routing_table}
use mini_ipfs.Dht.Routing.Invariant.{IsTable, new_routing_table-IsTable}
use mini_ipfs.Dht.Providers.Laws.{store_provider_local_effect}
use mini_ipfs.Dht.Rpc.{Node, Request, Response, StoreFailure, receive, parse_store_provider}
use mini_ipfs.Dht.Rpc.Laws.{IsNode, IsSafe, IsStorable, receive_safe, insert-IsTable}
use mini_ipfs.Dht.Rpc.Store.{Crashes, receive-Crashes}
use mini_ipfs.Dht.Remote.{Answer, store_provider}
use mini_ipfs.Prelude.{false, List, [], ◌∷◌, eq_bytes}
use mini_ipfs.Dht.Remote.{RemoteError}
use mini_ipfs.Dht.FindNode.{find_node}
use mini_ipfs.Dht.FindNode.Laws.{find_node_effect}
use mini_ipfs.Dht.Start.{Pong, is_pong, seed_of, new_node, PingError, ping, bootstrap}
use mini_ipfs.Config.{Config}
use mini_ipfs.Storage.Store.Paths.{IsDigest}

module _ (capacity : Bytes → ℕ) (msg : Request) where
  IsStorable-of :
      (r : Result StoreFailure (Bytes × NodeInfo))
      → ((h : Bytes) (p : NodeInfo) → r ≡ ok (h, p) → (16 ≤ length h) × (8 ≤ capacity p.id))
      → IsStorable capacity r
  IsStorable-of (ok (h, p)) long = long h p refl
  IsStorable-of (err e) long = tt
  IsStorable-of panic long = tt
  IsStorable-of running long = tt

  long_or_short : (a b : ℕ) → ((16 ≤ a) × (8 ≤ b)) ⊎ ((a < 16) ⊎ (b < 8))
  long_or_short a b = elim (Bool-cases (ltb a 16)) [
    | inl e ↦ inr (inl (ground arith))
    | inr e ↦ elim (Bool-cases (ltb b 8)) [
      | inl f ↦ inr (inr (ground arith))
      | inr f ↦ inl (ground arith, ground arith)
    ]
  ]

  -- A message that did not crash the node carries nothing too short.
  receive-IsSafe :
      (node : Node) (r : Node × Option Response)
      → receive capacity msg node ≡ ok r
      → IsSafe capacity msg
  receive-IsSafe node r e = elim (Option-cases msg.sender) [
    | inl f ↦ cc (e, receive-Crashes capacity msg node (Crashes.nameless f))
    | inr (from, f) ↦ record {
      from = from;
      named = f;
      logged = elim (long_or_short 16 (capacity from.id)) [
        | inl h ↦ h.1
        | inr (inl h) ↦ omega arith
        | inr (inr h) ↦ cc (e, receive-Crashes capacity msg node (Crashes.short_sender from f h))
      ];
      storable = λ k. IsStorable-of (parse_store_provider msg.payload) (λ h p parsed.
          elim (long_or_short (length h) (capacity p.id)) [
            | inl long ↦ long
            | inr short ↦ cc (
              e,
              receive-Crashes capacity msg node (Crashes.short_store from p h f k parsed short),
            )
          ]);
    }
  ]

  pub receive-IsNode :
      (node after : Node) (answer : Option Response)
      → IsNode node
      → receive capacity msg node ≡ ok (after, answer)
      → IsNode after
  receive-IsNode node after answer v e =
      let (after', answer', f, w, _) =
        receive_safe capacity msg node v (receive-IsSafe node (after, answer) e) in
      subst IsNode (cc (e, f)) w

pub store_provider-IsNode :
    (capacity : Bytes → ℕ) (k : ℕ) (bootstraps : List Bytes) (send : Bytes → Option Answer)
    (hash : Bytes) (provider : NodeInfo) (node after : Node) (reached : List Bytes)
    → IsNode node
    → store_provider capacity k bootstraps send hash provider node ≡ ok (after, reached)
    → IsNode after
unfolding store_provider
store_provider-IsNode capacity k bootstraps send hash provider node after reached v e =
    elim (store_provider_local_effect {E = StoreFailure} (capacity provider.id)
      (encode_to_string hash) provider node.providers v.providers) [
        | inl bad ↦ cc (rw bad.2 at e)
        | inr (providers, f, u, _) ↦ elim (Bool-cases (ltb (length (encode_to_string hash)) 16)) [
          | inl short ↦ cc (rw (f, short) at e)
          | inr long ↦
              let kept : record node { providers = providers } ≡ after = cc (rw (f, long) at e) in
              subst IsNode kept (record { table = v.table; providers = u })
        ]
      ]

pub find_node-IsTable :
    (alpha k capacity : ℕ) (answers : ℕ → List NodeInfo → List NodeInfo) (target : Bytes)
    (t after : RoutingTable) (found : List NodeInfo)
    → IsTable t
    → find_node alpha k capacity answers target t ≡ ok (after, found)
    → IsTable after
unfolding find_node
find_node-IsTable alpha k capacity answers target t after found v e =
    elim (Bool-cases (ltb capacity 8)) [
      | inl short ↦ cc (rw short at e)
      | inr wide ↦
          let (after', f, w, _) =
            find_node_effect alpha answers target k capacity t (ground arith) v in
          subst IsTable (cc (e, f)) w
    ]

IsTable-of :
    (info : NodeInfo) (k : ℤ) (t : RoutingTable)
    → IsKey info.id
    → new_routing_table (some info) k ≡ ok t
    → IsTable t
unfolding new_routing_table
IsTable-of info (pos k) t v e = new_routing_table-IsTable info k t v e
IsTable-of info (negsuc k) t v e = ground (arith, e)

abbrev node_info : (sha256 : Bytes → Bytes) (hostname : Bytes) → Config → NodeInfo
node_info sha256 hostname config = record {
  id = sha256 (seed_of config.node.id config.node.dht_addr);
  addr = build_advertised_addr hostname config.node.advertise_host config.node.dht_addr;
  http = [];
}

pub new_node-IsNode :
    (sha256 : Bytes → Bytes) (hostname : Bytes) (config : Config) (node : Node)
    → IsDigest sha256
    → new_node sha256 hostname config ≡ ok node
    → IsNode node
unfolding new_node
new_node-IsNode sha256 hostname config node digest e =
    let (table, made, new) =
      >>=-eq-ok _ node (new_routing_table (some (node_info sha256 hostname config)) config.dht.k)
        e in
    let key = digest (seed_of config.node.id config.node.dht_addr) in
    let same : (record { table = table; providers = λ _. [] }) ≡ node = cc made in
    subst IsNode same (record {
      table = IsTable-of _ config.dht.k table (record { bytes = key.bytes; size = key.size }) new;
      providers = λ h. tt;
    })

pub ping-IsTable :
    (capacity : Bytes → ℕ) (response : Option Pong) (t after : RoutingTable)
    → IsTable t
    → ping capacity response t ≡ ok after
    → IsTable after
unfolding ping
ping-IsTable capacity none t after v e = cc e
ping-IsTable capacity (some response) t after v e = elim (Bool-cases (is_pong response.kind)) [
  | inr f ↦ cc (rw f at e)
  | inl f ↦ elim (Option-cases response.sender) [
    | inl g ↦ cc (rw (f, g) at e)
    | inr (sender, g) ↦ elim (Bool-cases (ltb (capacity sender.id) 8)) [
      | inl h ↦ cc (rw (f, g, h) at e)
      | inr h ↦ subst IsTable (cc (rw (f, g, h) at e)) (insert-IsTable sender t v)
    ]
  ]
]

module _ (capacity : Bytes → ℕ) (alpha k : ℕ) (pings : Bytes → Option Pong)
    (answers : Bytes → ℕ → List NodeInfo → List NodeInfo) where
  module _ (addr : Bytes) (addrs : List Bytes) (t after : RoutingTable) (v : IsTable t)
      (other : eq_bytes addr t.self.addr ≡ false)
      (e : bootstrap capacity alpha k pings answers (addr ∷ addrs) t ≡ ok after)
      (more : (u : RoutingTable)
        → IsTable u
        → bootstrap capacity alpha k pings answers addrs u ≡ ok after
        → IsTable after) where
    after_search-IsTable :
        (t' : RoutingTable) (r : Result RemoteError (RoutingTable × List NodeInfo))
        → ping capacity (pings addr) t ≡ ok t'
        → find_node alpha k (capacity t'.self.id) (answers addr) t'.self.id t' ≡ r
        → IsTable after
    unfolding bootstrap
    after_search-IsTable t' (ok (t'', found)) f g =
        let w = ping-IsTable capacity (pings addr) t t' v f in
        subst IsTable (cc (rw (other, f, g) at e)) (
          find_node-IsTable alpha k (capacity t'.self.id) (answers addr) t'.self.id t' t'' found w
            g)
    after_search-IsTable t' (err x) f g =
        more t' (ping-IsTable capacity (pings addr) t t' v f) (rw (other, f, g) at e)
    after_search-IsTable t' panic f g = cc (rw (other, f, g) at e)
    after_search-IsTable t' running f g = cc (rw (other, f, g) at e)

    after_ping-IsTable :
        (r : Result PingError RoutingTable) → ping capacity (pings addr) t ≡ r → IsTable after
    unfolding bootstrap
    after_ping-IsTable (ok t') f = after_search-IsTable t' _ f refl
    after_ping-IsTable (err x) f = more t v (rw (other, f) at e)
    after_ping-IsTable panic f = cc (rw (other, f) at e)
    after_ping-IsTable running f = cc (rw (other, f) at e)

  pub bootstrap-IsTable :
      (addrs : List Bytes) (t after : RoutingTable)
      → IsTable t
      → bootstrap capacity alpha k pings answers addrs t ≡ ok after
      → IsTable after
  unfolding bootstrap
  bootstrap-IsTable [] t after v e = subst IsTable (cc e) v
  bootstrap-IsTable (addr ∷ addrs) t after v e =
      let more : (u : RoutingTable)
          → IsTable u
          → bootstrap capacity alpha k pings answers addrs u ≡ ok after
          → IsTable after =
        λ u w f. bootstrap-IsTable addrs u after w f in
      elim (Bool-cases (eq_bytes addr t.self.addr)) [
        | inl same ↦ more t v (rw same at e)
        | inr other ↦ after_ping-IsTable addr addrs t after v other e more _ refl
      ]
