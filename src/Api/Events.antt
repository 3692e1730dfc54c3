-- ===== src/Api/Events.antt =====
-- `sseHub` of internal/api/server.go: the clients of the event stream and the channels to them.
pub mod Invariant
pub mod Delivery
use mini_ipfs.Prelude.{
  ℕ, suc, ◌==◌, Bool, true, false, Option, none, some, List, [], ◌∷◌, ◌++◌, length, ltb,
  if◌then◌else◌, Bytes,
}

-- A channel: what was sent and not yet received, and whether it is open.
pub record Channel : Type 0 where
  pub queue : List Bytes
  pub is_open : Bool

-- The channels are numbered as they are made.
pub record Hub : Type 0 where
  pub clients : List ℕ
  pub channels : ℕ → Channel
  pub made : ℕ

abbrev pub room : ℕ
room = 16

abbrev pub no_channel : Channel
no_channel = record { queue = []; is_open = false }

abbrev pub new_channel : Channel
new_channel = record { queue = []; is_open = true }

abbrev pub set_channel : ℕ → Channel → (ℕ → Channel) → ℕ → Channel
set_channel i c channels = λ j. if j == i then c else channels j

-- `delete(h.clients, ch)`
unfoldable pub without : ℕ → List ℕ → List ℕ
without i [] = []
without i (j ∷ js) = let rest = without i js in if i == j then rest else j ∷ rest

-- `newSSEHub`
abbrev pub new_sse_hub : Hub
new_sse_hub = record { clients = []; channels = λ _. no_channel; made = 0 }

-- `add`: the new channel and the hub.
unfoldable pub add : Hub → ℕ × Hub
add h = (
  h.made,
  record {
    clients = h.made ∷ h.clients;
    channels = set_channel h.made new_channel h.channels;
    made = suc h.made;
  },
)

-- The function `remove` that `add` returns. To close a closed channel panics.
unfoldable pub remove : ℕ → Hub → Option Hub
unfolding without
remove i h =
    if (h.channels i).is_open
    then some (record {
      clients = without i h.clients;
      channels = set_channel i (record (h.channels i) { is_open = false }) h.channels;
      made = h.made;
    })
    else none

-- What a send that does not wait leaves of an open channel.
abbrev pub offer : Bytes → Channel → Channel
offer b c = if ltb (length c.queue) room then record c { queue = c.queue ++ (b ∷ []) } else c

-- `select { case ch <- b: default: }`. To send on a closed channel panics.
unfoldable pub send : Bytes → Channel → Option Channel
send b c = if c.is_open then some (offer b c) else none

-- The loop of `broadcast`; the order in which a map is gone through does not matter to it.
unfoldable pub send_all : Bytes → List ℕ → (ℕ → Channel) → Option (ℕ → Channel)
unfolding send
send_all b [] channels = some channels
send_all b (i ∷ is) channels = elim (send b (channels i)) [
  | none ↦ none
  | some c ↦ send_all b is (set_channel i c channels)
]

-- `broadcast`
unfoldable pub broadcast : Bytes → Hub → Option Hub
unfolding send_all
broadcast b h = elim (send_all b h.clients h.channels) [
  | none ↦ none
  | some channels ↦ some (record h { channels = channels })
]

-- What `handleSSE` receives next, if its channel holds anything.
unfoldable pub next_event : ℕ → Hub → Option (Bytes × Hub)
next_event i h = elim (h.channels i).queue [
  | [] ↦ none
  | b ∷ queue ↦ some (
    b,
    record h { channels = set_channel i (record (h.channels i) { queue = queue }) h.channels },
  )
]
