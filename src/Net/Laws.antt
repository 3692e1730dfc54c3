-- ===== src/Net/Laws.antt =====
-- What is joined can be split again.
use mini_ipfs.Prelude.{
  ℕ, ◌≡◌, refl, inl, inr, ◌==◌, ==_iff, false, none, some, [], ◌∷◌, ◌++◌, Bytes, Bool-cases,
}
use mini_ipfs.Net.{
  has_byte, split_first, split_last, join_host_port, split_bracketed, split_plain, split_host_port,
  advertised_http_addr, build_advertised_addr,
}

-- A host: there are no brackets in it. A port has no colon either.
abbrev pub IsHost : Bytes → Type 0
IsHost text = (has_byte b'[' text ≡ false) × (has_byte b']' text ≡ false)

abbrev pub IsPort : Bytes → Type 0
IsPort text = IsHost text × (has_byte b':' text ≡ false)

split_first-append :
    (c : ℕ) (host rest : Bytes)
    → has_byte c host ≡ false
    → split_first c (host ++ (c ∷ rest)) ≡ some (host, rest)
unfolding split_first has_byte
split_first-append c [] rest h = rw ((==_iff c c).1 refl) refl
split_first-append c (x ∷ host) rest h = elim (Bool-cases (x == c)) [
  | inl e ↦ cc (rw e at h)
  | inr e ↦ rw (e, split_first-append c host rest (rw e at h)) refl
]

split_last-none : (c : ℕ) (port : Bytes) → has_byte c port ≡ false → split_last c port ≡ none
unfolding split_last has_byte
split_last-none c [] h = refl
split_last-none c (x ∷ port) h = elim (Bool-cases (x == c)) [
  | inl e ↦ cc (rw e at h)
  | inr e ↦ rw (split_last-none c port (rw e at h), e) refl
]

split_last-append :
    (c : ℕ) (host port : Bytes)
    → has_byte c port ≡ false
    → split_last c (host ++ (c ∷ port)) ≡ some (host, port)
unfolding split_last
split_last-append c [] port h = rw (split_last-none c port h, (==_iff c c).1 refl) refl
split_last-append c (x ∷ host) port h = rw (split_last-append c host port h) refl

split_plain-append :
    (host port : Bytes)
    → IsHost host
    → IsPort port
    → has_byte b':' host ≡ false
    → split_plain (host ++ (b':' ∷ port)) ≡ some (host, port)
unfolding split_plain
split_plain-append host port v p h =
    let split = split_last-append b':' host port p.1 in
    rw (split_plain, split, h, v.0, v.1, p.0.0, p.0.1) refl

-- Without a bracket in front, the last colon separates.
split_host_port-plain :
    (host port : Bytes)
    → IsHost host
    → IsPort port
    → has_byte b':' host ≡ false
    → split_host_port (host ++ (b':' ∷ port)) ≡ some (host, port)
unfolding split_host_port has_byte
split_host_port-plain [] port v p h = split_plain-append [] port v p h
split_host_port-plain (c ∷ host) port v p h = elim (Bool-cases (c == b'[')) [
  | inl e ↦ cc (rw e at v.0)
  | inr e ↦ rw (split_host_port, e) (split_plain-append (c ∷ host) port v p h)
]

pub split_host_port-join_host_port :
    (host port : Bytes)
    → IsHost host
    → IsPort port
    → split_host_port (join_host_port host port) ≡ some (host, port)
unfolding join_host_port split_host_port split_bracketed
split_host_port-join_host_port host port v p = elim (Bool-cases (has_byte b':' host)) [
  | inr e ↦ rw (join_host_port, e) (split_host_port-plain host port v p e)
  | inl e ↦
      let split = split_first-append b']' host (b':' ∷ port) v.1 in
      rw (join_host_port, e, split_host_port, split_bracketed, split, p.1, v.0, p.0.0, p.0.1) refl
]

-- The HTTP address that a node announces and the DHT address that it listens on are read by others as
-- the advertised host with the port of the configured address, for hosts and ports without brackets,
-- IPv6 hosts included.
pub advertised_addresses :
    (c : ℕ) (hostname host bind port : Bytes) (q : ℕ)
    → IsHost (c ∷ host)
    → IsHost bind
    → IsPort (q ∷ port)
    → ((addr : Bytes) × (advertised_http_addr (c ∷ host) (join_host_port bind (q ∷ port))
          ≡ some addr)
        × (split_host_port addr ≡ some (c ∷ host, q ∷ port)))
      × (split_host_port
            (build_advertised_addr hostname (c ∷ host) (join_host_port bind (q ∷ port)))
          ≡ some (c ∷ host, q ∷ port))
unfolding advertised_http_addr build_advertised_addr
advertised_addresses c hostname host bind port q v b p =
    let split = split_host_port-join_host_port bind (q ∷ port) b p in
    let again = split_host_port-join_host_port (c ∷ host) (q ∷ port) v p in
    (
      (join_host_port (c ∷ host) (q ∷ port), rw (advertised_http_addr, split) refl, again),
      rw (build_advertised_addr, split) again,
    )
