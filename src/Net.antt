-- ===== src/Net.antt =====
-- `JoinHostPort` and `SplitHostPort` of Go's package net, as far as the program sees them, and the
-- addresses that a node tells others: `advertisedHTTPAddr` of internal/api/server.go and
-- `buildAdvertisedAddr` of internal/dht/node.go.
pub mod Laws
use mini_ipfs.Prelude.{
  ℕ, Bool, true, false, ◌||◌, Option, none, some, List, [], ◌∷◌, ◌++◌, ◌==◌, eq_bytes,
  if◌then◌else◌, Bytes,
}

unfoldable pub has_byte : ℕ → Bytes → Bool
has_byte c [] = false
has_byte c (x ∷ xs) = x == c || has_byte c xs

-- The text before and after the first `c`.
unfoldable pub split_first : ℕ → Bytes → Option (Bytes × Bytes)
split_first c [] = none
split_first c (x ∷ xs) =
    let later : Option (Bytes × Bytes) = elim (split_first c xs) [
      | none ↦ none
      | some (a, b) ↦ some (x ∷ a, b)
    ] in
    if x == c then some ([], xs) else later

-- The text before and after the last `c`.
unfoldable pub split_last : ℕ → Bytes → Option (Bytes × Bytes)
split_last c [] = none
split_last c (x ∷ xs) = elim (split_last c xs) [
  | some (a, b) ↦ some (x ∷ a, b)
  | none ↦ if x == c then some ([], xs) else none
]

-- A host with a colon stands in brackets.
unfoldable pub join_host_port : (host port : Bytes) → Bytes
join_host_port host port =
    if has_byte b':' host then (b'[' ∷ host) ++ (b']' ∷ b':' ∷ port) else host ++ (b':' ∷ port)

abbrev has_bracket : Bytes → Bool
has_bracket text = has_byte b'[' text || has_byte b']' text

-- A host in brackets: the first `]` ends it, and the last colon follows at once.
unfoldable pub split_bracketed : Bytes → Option (Bytes × Bytes)
unfolding split_first has_byte
split_bracketed text = elim (split_first b']' text) [
  | none ↦ none
  | some (host, []) ↦ none
  | some (host, c ∷ port) ↦
      if c == b':'
      then (if has_byte b':' port || has_byte b'[' host || has_bracket port
          then none
          else some (host, port))
      else none
]

-- A host without brackets holds no colon.
unfoldable pub split_plain : Bytes → Option (Bytes × Bytes)
unfolding split_last has_byte
split_plain text = elim (split_last b':' text) [
  | none ↦ none
  | some (host, port) ↦
      if has_byte b':' host || has_bracket host || has_bracket port then none else some (host, port)
]

unfoldable pub split_host_port : Bytes → Option (Bytes × Bytes)
unfolding split_bracketed split_plain
split_host_port [] = none
split_host_port (c ∷ text) = if c == b'[' then split_bracketed text else split_plain (c ∷ text)

-- `advertisedHTTPAddr`, by the advertised host and the HTTP address of the configuration.
unfoldable pub advertised_http_addr : (advertise_host http_addr : Bytes) → Option Bytes
advertised_http_addr [] http_addr = none
advertised_http_addr (c ∷ host) http_addr = elim (split_host_port http_addr) [
  | none ↦ none
  | some (_, port) ↦ some (join_host_port (c ∷ host) port)
]

-- The first text that is not empty.
abbrev pub first_of : Bytes → Bytes → Bytes
first_of [] other = other
first_of (c ∷ text) other = c ∷ text

-- `buildAdvertisedAddr`; `hostname` is empty where `os.Hostname` fails.
unfoldable pub build_advertised_addr : (hostname advertise_host bind_addr : Bytes) → Bytes
build_advertised_addr hostname advertise_host bind_addr = elim (split_host_port bind_addr) [
  | none ↦ bind_addr
  | some (host, []) ↦ bind_addr
  | some (host, c ∷ port) ↦ elim (first_of advertise_host (first_of hostname host)) [
    | [] ↦ bind_addr
    | h ∷ adv ↦ join_host_port (h ∷ adv) (c ∷ port)
  ]
]
