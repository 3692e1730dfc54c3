-- ===== src/Api/Events/Delivery.antt =====
-- What the clients of the event stream receive.
use mini_ipfs.Prelude.{
  ℕ, ◌≡◌, ◌≤◌, ◌<◌, ◌⊎◌, ◌++◌, [], ◌∷◌, ltb, refl, inl, inr, ==_iff, true, false, some, List,
  length, Bytes, Bool-cases, arith,
}
use mini_ipfs.Api.Events.{
  Channel, Hub, set_channel, without, new_sse_hub, add, remove, offer, broadcast, next_event,
}
use mini_ipfs.Api.Events.Invariant.{
  listed, IsHub, broadcast_effect, add-IsHub, remove-IsHub, next_event-IsHub, broadcast-IsHub,
  without-listed,
}

-- What happens to a hub: a client comes, leaves, or receives, or an event is sent to all.
pub data HubStep : Hub → Hub → Type 0 where
  joins : (h : Hub) → HubStep h (add h).1
  leaves : (i : ℕ) (h h' : Hub) → listed i h.clients ≡ true → remove i h ≡ some h' → HubStep h h'
  receives : (i : ℕ) (b : Bytes) (h h' : Hub) → next_event i h ≡ some (b, h') → HubStep h h'
  sends : (b : Bytes) (h h' : Hub) → broadcast b h ≡ some h' → HubStep h h'

pub data HubReach (h : Hub) : Hub → Type 0 where
  here : HubReach h h
  next : {g k : Hub} → HubReach h g → HubStep g k → HubReach h k

HubStep-IsHub : {g h : Hub} → HubStep g h → IsHub g → IsHub h
HubStep-IsHub (joins h) v = add-IsHub h v
HubStep-IsHub (leaves i h h' l e) v = remove-IsHub i h h' v e
HubStep-IsHub (receives i b h h' e) v = next_event-IsHub i b h h' v e
HubStep-IsHub (sends b h h' e) v = broadcast-IsHub b h h' v e

HubReach-IsHub : {h : Hub} → HubReach new_sse_hub h → IsHub h
HubReach-IsHub here = record {
  once = tt;
  opened = λ i l. cc l;
  known = λ i l. cc l;
  bounded = λ i. omega arith;
}
HubReach-IsHub (next r st) = HubStep-IsHub st (HubReach-IsHub r)

without_self : (i : ℕ) (is : List ℕ) → listed i (without i is) ≡ false
without_self i is = elim (Bool-cases (listed i (without i is))) [
  | inr e ↦ e
  | inl e ↦ cc ((without-listed i i is e).1, (==_iff i i).1 refl)
]

-- The hub without a client.
abbrev left : Hub → ℕ → Hub
left h i = record {
  clients = without i h.clients;
  channels = set_channel i (record (h.channels i) { is_open = false }) h.channels;
  made = h.made;
}

-- The event at the end of what waits in a channel with fewer than 16 events; else no change.
abbrev pub Delivered : Bytes → Channel → Channel → Type 0
Delivered b before after =
    (after.is_open ≡ before.is_open)
    × (((length before.queue < 16) × (after.queue ≡ before.queue ++ (b ∷ [])))
        ⊎ ((16 ≤ length before.queue) × (after.queue ≡ before.queue)))

offer-Delivered : (b : Bytes) (c : Channel) → Delivered b c (offer b c)
offer-Delivered b c = elim (Bool-cases (ltb (length c.queue) 16)) [
  | inl e ↦ rw e (refl, inl (ground arith, refl))
  | inr e ↦ rw e (refl, inr (ground arith, refl))
]

-- Whatever clients came, left and received, and whatever was sent: a broadcast panics for no client. It
-- puts the event at the end of the channel of every client that has room, and changes nothing else. No
-- channel ever holds more than 16 events, and every client can leave, and is then gone.
pub broadcast_safe :
    (h : Hub) (b : Bytes)
    → HubReach new_sse_hub h
    → ((channels : ℕ → Channel) × (broadcast b h ≡ some (record h { channels = channels }))
        × ((i : ℕ) → listed i h.clients ≡ true → Delivered b (h.channels i) (channels i))
        × ((i : ℕ) → listed i h.clients ≡ false → channels i ≡ h.channels i))
      × ((i : ℕ) → length (h.channels i).queue ≤ 16)
      × ((i : ℕ)
          → listed i h.clients ≡ true
          → (h' : Hub) × (remove i h ≡ some h') × (listed i h'.clients ≡ false))
unfolding remove
broadcast_safe h b r =
    let v = HubReach-IsHub r in
    let (channels, e, at) = broadcast_effect b h v in
    (
      (
        channels,
        e,
        λ i l. rw (at i, l) (offer-Delivered b (h.channels i)),
        λ i l. rw (at i, l) refl,
      ),
      v.bounded,
      λ i l. (left h i, rw (remove, v.opened i l) refl, without_self i h.clients),
    )
