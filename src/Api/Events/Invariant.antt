-- ===== src/Api/Events/Invariant.antt =====
-- The clients of the event stream keep open channels of limited size.
use mini_ipfs.Prelude.{
  ℕ, ◌≡◌, ◌≤◌, ◌<◌, refl, sym, ap, ◌∙◌, inl, inr, ◌==◌, ==_iff, ◌||◌, Bool, true, false, some, List,
  [], ◌∷◌, length, length-append, ltb, if◌then◌else◌, Bytes, Bool-cases, arith,
}
use mathlib.Core.Option.{some-injective}
use mathlib.Core.Path.{subst}
use mini_ipfs.Api.Events.{
  Channel, Hub, room, set_channel, without, add, remove, offer, send, send_all, broadcast,
  next_event,
}

abbrev pub listed : ℕ → List ℕ → Bool
listed i [] = false
listed i (j ∷ js) = i == j || listed i js

abbrev pub Once : List ℕ → Type 0
Once [] = Unit
Once (j ∷ js) = (listed j js ≡ false) × Once js

-- The clients are there once, their channels are open and were made before, and no channel holds more
-- than it has room for.
pub record IsHub (h : Hub) : Type 0 where
  pub once : Once h.clients
  pub opened : (i : ℕ) → listed i h.clients ≡ true → (h.channels i).is_open ≡ true
  pub known : (i : ℕ) → listed i h.clients ≡ true → i < h.made
  pub bounded : (i : ℕ) → length (h.channels i).queue ≤ room

offer_bound : (b : Bytes) (c : Channel) → length c.queue ≤ room → length (offer b c).queue ≤ room
offer_bound b c h = elim (Bool-cases (ltb (length c.queue) room)) [
  | inl e ↦ rw e (ground (arith, length-append c.queue (b ∷ [])))
  | inr e ↦ rw e h
]

offer-is_open : (b : Bytes) (c : Channel) → (offer b c).is_open ≡ c.is_open
offer-is_open b c = ground arith

set_channel-is_open :
    (b : Bytes) (i j : ℕ) (channels : ℕ → Channel)
    → (set_channel i (offer b (channels i)) channels j).is_open ≡ (channels j).is_open
set_channel-is_open b i j channels = elim (Bool-cases (j == i)) [
  | inr e ↦ rw e refl
  | inl e ↦
      rw e (
        offer-is_open b (channels i)
        ∙ ap (λ (k : ℕ). (channels k).is_open) (sym ((==_iff j i).0 e)))
]

send-is_open : (b : Bytes) (c : Channel) → c.is_open ≡ true → send b c ≡ some (offer b c)
unfolding send
send-is_open b c e = ground arith

send_all_effect :
    (b : Bytes) (is : List ℕ) (channels : ℕ → Channel)
    → Once is
    → ((i : ℕ) → listed i is ≡ true → (channels i).is_open ≡ true)
    → (after : ℕ → Channel) × (send_all b is channels ≡ some after)
      × ((i : ℕ) → after i ≡ (if listed i is then offer b (channels i) else channels i))
unfolding send_all
send_all_effect b [] channels once opened = (channels, refl, λ i. refl)
send_all_effect b (i ∷ is) channels once opened =
    let channels' = set_channel i (offer b (channels i)) channels in
    let sent = send-is_open b (channels i) (opened i (ground arith)) in
    let (after, e, f) =
      send_all_effect b is channels' once.1
        (λ j l. set_channel-is_open b i j channels ∙ opened j (ground arith)) in
    (
      after,
      rw (send_all, sent) e,
      λ j. elim (Bool-cases (j == i)) [
        | inl g ↦
            let same = (==_iff j i).0 g in
            let absent : listed j is ≡ false = ap (λ (k : ℕ). listed k is) same ∙ once.0 in
            rw (f j, absent, g) (ap (λ (k : ℕ). offer b (channels k)) (sym same))
        | inr g ↦ rw (g, f j, g) refl
      ],
    )

pub without-listed :
    (i j : ℕ) (is : List ℕ)
    → listed j (without i is) ≡ true
    → (listed j is ≡ true) × ((j == i) ≡ false)
unfolding without
without-listed i j [] h = cc h
without-listed i j (k ∷ is) h = elim (Bool-cases (i == k)) [
  | inl e ↦ let (l, ne) = without-listed i j is (rw (without, e) at h) in (rw l (ground arith), ne)
  | inr e ↦ elim (Bool-cases (j == k)) [
    | inl f ↦ (rw f refl, ground arith)
    | inr f ↦ let (l, ne) = without-listed i j is (rw (without, e, f) at h) in (rw (f, l) refl, ne)
  ]
]

without-absent : (i j : ℕ) (is : List ℕ) → listed j is ≡ false → listed j (without i is) ≡ false
without-absent i j is h = elim (Bool-cases (listed j (without i is))) [
  | inr e ↦ e
  | inl e ↦ cc (h, (without-listed i j is e).0)
]

without-Once : (i : ℕ) (is : List ℕ) → Once is → Once (without i is)
unfolding without
without-Once i [] v = tt
without-Once i (j ∷ is) v = elim (Bool-cases (i == j)) [
  | inl e ↦ rw (without, e) (without-Once i is v.1)
  | inr e ↦ rw (without, e) (without-absent i j is v.0, without-Once i is v.1)
]

pub broadcast_effect :
    (b : Bytes) (h : Hub)
    → IsHub h
    → (channels : ℕ → Channel) × (broadcast b h ≡ some (record h { channels = channels }))
      × ((i : ℕ)
          → channels i ≡ (if listed i h.clients then offer b (h.channels i) else h.channels i))
unfolding broadcast
broadcast_effect b h v =
    let (channels, e, f) = send_all_effect b h.clients h.channels v.once v.opened in
    (channels, rw (broadcast, e) refl, f)

pub add-IsHub : (h : Hub) → IsHub h → IsHub (add h).1
unfolding add
add-IsHub h v = record {
  once = (
    elim (Bool-cases (listed h.made h.clients)) [
      | inr e ↦ e
      | inl e ↦ absurd (omega (arith, v.known h.made e))
    ],
    v.once,
  );
  opened = λ i l. elim (Bool-cases (i == h.made)) [
    | inl e ↦ rw e refl
    | inr e ↦ rw e (v.opened i (rw e at l))
  ];
  known = λ i l. elim (Bool-cases (i == h.made)) [
    | inl e ↦ ground arith
    | inr e ↦ omega (arith, v.known i (rw e at l))
  ];
  bounded = λ i. elim (Bool-cases (i == h.made)) [
    | inl e ↦ rw e (omega arith)
    | inr e ↦ rw e (v.bounded i)
  ];
}

pub remove-IsHub : (i : ℕ) (h h' : Hub) → IsHub h → remove i h ≡ some h' → IsHub h'
unfolding remove
remove-IsHub i h h' v e = elim (Bool-cases (h.channels i).is_open) [
  | inr f ↦ cc (rw (remove, f) at e)
  | inl f ↦ subst IsHub (some-injective _ h' (rw (remove, f) at e)) (record {
    once = without-Once i h.clients v.once;
    opened = λ j l. let (m, ne) = without-listed i j h.clients l in rw ne (v.opened j m);
    known = λ j l. v.known j (without-listed i j h.clients l).0;
    bounded =
        λ j. elim (Bool-cases (j == i)) [ inl g ↦ rw g (v.bounded i) | inr g ↦ rw g (v.bounded j) ];
  })
]

-- To receive leaves an open channel with the rest of its queue.
next_event-cons :
    (i : ℕ) (b c : Bytes) (queue : List Bytes) (h h' : Hub)
    → (h.channels i).queue ≡ c ∷ queue
    → next_event i h ≡ some (b, h')
    → (b ≡ c)
      × (record h { channels = set_channel i (record (h.channels i) { queue = queue }) h.channels }
          ≡ h')
unfolding next_event
next_event-cons i b c queue h h' f e =
    let both = some-injective _ (b, h') (rw (next_event, f) at e) in
    (sym (ap (λ r. r.0) both), ap (λ r. r.1) both)

pub next_event-IsHub :
    (i : ℕ) (b : Bytes) (h h' : Hub) → IsHub h → next_event i h ≡ some (b, h') → IsHub h'
unfolding next_event
next_event-IsHub i b h h' v e = go (h.channels i).queue refl
  where
    go : (q : List Bytes) → (h.channels i).queue ≡ q → IsHub h'
    go [] f = cc (rw (next_event, f) at e)
    go (c ∷ queue) f = subst IsHub (next_event-cons i b c queue h h' f e).1 (record {
      once = v.once;
      opened = λ j l. elim (Bool-cases (j == i)) [
        | inl g ↦
            rw g (ap (λ (k : ℕ). (h.channels k).is_open) (sym ((==_iff j i).0 g)) ∙ v.opened j l)
        | inr g ↦ rw g (v.opened j l)
      ];
      known = v.known;
      bounded = λ j. elim (Bool-cases (j == i)) [
        | inl g ↦ rw g (omega (arith, v.bounded i, ap length f))
        | inr g ↦ rw g (v.bounded j)
      ];
    })

pub broadcast-IsHub : (b : Bytes) (h h' : Hub) → IsHub h → broadcast b h ≡ some h' → IsHub h'
broadcast-IsHub b h h' v e =
    let (channels, f, at) = broadcast_effect b h v in
    let same : record h { channels = channels } ≡ h' = some-injective _ h' (sym f ∙ e) in
    subst IsHub same (record {
      once = v.once;
      opened = λ i l. rw (at i, l) (offer-is_open b (h.channels i) ∙ v.opened i l);
      known = v.known;
      bounded = λ i. rw (at i) (elim (Bool-cases (listed i h.clients)) [
        | inl l ↦ rw l (offer_bound b (h.channels i) (v.bounded i))
        | inr l ↦ rw l (v.bounded i)
      ]);
    })
