-- ===== src/Mongering/Exchange/BothWays.antt =====
-- Two peers that catch up with each other, one way and then the other.
use p2p_dapp.Base.{
  ℕ, ◌+◌, ◌-◌, ◌^◌, ◌≤◌, ◌<◌, String, ◌≡◌, refl, sym, ap, ◌∙◌, subst, ◌⊎◌, inl, inr, Option, none,
  some, arith, ltb, string_eq, nat_eq, pair_eq, Bool-cases, Option-cases, lookup, length, ltb→lt,
  int_eq, Ranges, list_eq, some_eq,
}
use p2p_dapp.Packet.{GossipPacket}
use p2p_dapp.VectorClock.{VectorClock, next_id}
use p2p_dapp.VectorClock.Compare.{AtMost, AtMost-antisymm}
use p2p_dapp.GossipHandler.{messages_of}
use p2p_dapp.GossipHandler.Least.{IsConsistent}
use p2p_dapp.Gossiper.{Gossiper}
use p2p_dapp.Network.Authentic.{held}
use p2p_dapp.Mongering.Exchange.{exchanges}
use p2p_dapp.Mongering.Exchange.Round.{IsGossip}
use p2p_dapp.Mongering.Exchange.Progress.{lag, Ready, Unchanged}
use p2p_dapp.Mongering.Exchange.Covered.{some-ne-none, Covers-next_id}
use p2p_dapp.Mongering.Exchange.CatchUp.{CaughtUp, catches_up}

-- What g has is below its own clock or that of h: it has nothing that both have a gap before.
abbrev pub Below : Gossiper → Gossiper → Type 0
Below g h =
    (o : String) (i : ℕ) (p : GossipPacket)
    → held g o i ≡ some p
    → (i < next_id o g.gossip.my_status) ⊎ (i < next_id o h.gossip.my_status)

-- The messages of an origin below its entry are there, and the entry itself is not.
entry_held :
    (g : Gossiper) (o : String) (i : ℕ)
    → IsConsistent g.gossip
    → 1 ≤ i
    → i < next_id o g.gossip.my_status
    → (p : GossipPacket) × (held g o i ≡ some p)
entry_held g o i c low lt = elim (Option-cases (held g o i)) [
  | inl gone ↦ absurd ((c.least o).filled i low lt gone)
  | inr (p, e) ↦ (p, e)
]

kept_grows :
    (h k : Gossiper) (o : String)
    → IsConsistent h.gossip
    → IsConsistent k.gossip
    → ((o : String) (i : ℕ) (p : GossipPacket) → held h o i ≡ some p → held k o i ≡ some p)
    → next_id o h.gossip.my_status ≤ next_id o k.gossip.my_status
kept_grows h k o ch ck keeps =
    elim (Bool-cases (ltb (next_id o k.gossip.my_status) (next_id o h.gossip.my_status))) [
      | inl lower ↦
          let (p, e) = entry_held h o _ ch (ck.least o).low (ltb→lt _ _ lower) in
          absurd (some-ne-none (sym (keeps o _ p e) ∙ (ck.least o).unknown))
      | inr not_lower ↦ ground (arith, not_lower)
    ]

AtMost-of_next :
    (a b : Option ℕ)
    → ((n : ℕ) → a ≡ some n → 2 ≤ n)
    → elim a [ none ↦ 1 | some n ↦ n ] ≤ elim b [ none ↦ 1 | some n ↦ n ]
    → AtMost a b
AtMost-of_next none b low le = tt
AtMost-of_next (some n) none low le = absurd (omega (arith, low n refl))
AtMost-of_next (some n) (some k) low le = le

next-AtMost :
    (a b : VectorClock) (o : String)
    → ((n : ℕ) → lookup o a ≡ some n → 2 ≤ n)
    → next_id o a ≤ next_id o b
    → AtMost (lookup o a) (lookup o b)
unfolding next_id
next-AtMost a b o low le = AtMost-of_next (lookup o a) (lookup o b) low le

Unchanged-IsConsistent :
    (range : VectorClock → VectorClock) (ranges : (c : VectorClock) → Ranges (range c) c)
    (g g' : Gossiper)
    → Unchanged range ranges g g'
    → IsConsistent g.gossip
    → IsConsistent g'.gossip
Unchanged-IsConsistent range ranges g g' u c = record {
  least = λ o. rw (u.messages o, u.same_clock) (c.least o);
  started = rw u.same_clock c.started;
}

module _ (range : VectorClock → VectorClock) (ranges : (c : VectorClock) → Ranges (range c) c) where
  -- No exchange brings h further than an id that neither clock is past.
  at_most :
      (g h : Gossiper) (t : Gossiper × Gossiper) (o : String) (m : ℕ)
      → CaughtUp range ranges g h t
      → Below h g
      → 1 ≤ m
      → next_id o g.gossip.my_status ≤ m
      → next_id o h.gossip.my_status ≤ m
      → next_id o t.1.gossip.my_status ≤ m
  at_most g h t o m c below low lg lh = elim (Bool-cases (ltb m (next_id o t.1.gossip.my_status))) [
    | inr within ↦ ground (arith, within)
    | inl further ↦
        let (p, e) = entry_held t.1 o m c.consistent low (ltb→lt _ _ further) in
        elim (c.news o m p e) [
          | inl before ↦ elim (below o m p before) [
            | inl lt ↦ absurd (omega arith)
            | inr lt ↦ absurd (omega arith)
          ]
          | inr (there_, lt) ↦ absurd (omega arith)
        ]
  ]

  -- h has caught up with g, and g can then catch up with h.
  turned :
      (g h : Gossiper) (t : Gossiper × Gossiper)
      → Ready range ranges g h
      → CaughtUp range ranges g h t
      → ((o : String) (i : ℕ) (p : GossipPacket) → held h o i ≡ some p → IsGossip p o i)
      → Below h g
      → next_id g.name h.gossip.my_status ≤ next_id g.name g.gossip.my_status
      → ((o : String) → length (messages_of o t.0.gossip) + lag range ranges t.1 t.0 < 2 ^ 32 - 1)
      → Ready range ranges t.1 t.0
  turned g h t r c filed below own room = record {
    sender = c.consistent;
    receiver = Unchanged-IsConsistent range ranges g t.0 c.sender_same r.sender;
    filed = λ o i p e. elim (c.news o i p e) [
      | inl before ↦ filed o i p before
      | inr (there_, _) ↦ r.filed o i p there_
    ];
    own =
        rw (c.sender_same.named, c.sender_same.same_clock)
          (at_most g h t g.name _ c below (r.sender.least g.name).low (omega arith) own);
    room = room;
  }

  turned-Below :
      (g h : Gossiper) (t : Gossiper × Gossiper)
      → Ready range ranges g h
      → CaughtUp range ranges g h t
      → Below g h
      → Below t.0 t.1
  turned-Below g h t r c below o i p e =
      let grows = kept_grows h t.1 o r.receiver c.consistent c.keeps in
      elim (below o i p (ap (lookup i) (sym (c.sender_same.messages o)) ∙ e)) [
        | inl lt ↦ inl (rw c.sender_same.same_clock lt)
        | inr lt ↦ inr (omega arith)
      ]

  -- After one way and the other the clocks agree.
  agreed :
      (g h : Gossiper) (t u : Gossiper × Gossiper) (o : String)
      → Ready range ranges g h
      → CaughtUp range ranges g h t
      → Ready range ranges t.1 t.0
      → CaughtUp range ranges t.1 t.0 u
      → Below g h
      → lookup o u.0.gossip.my_status ≡ lookup o u.1.gossip.my_status
  agreed g h t u o r c r' c' below =
      let first =
        Covers-next_id t.0.gossip.my_status t.1.gossip.my_status o
          (rw c.sender_same.same_clock c.covers) (c.consistent.started o) in
      let most =
        at_most t.1 t.0 u o _ c' (turned-Below g h t r c below) (c.consistent.least o).low
          (omega arith) first in
      ap (lookup o) c'.sender_same.same_clock
      ∙ AtMost-antisymm _ _ (c'.covers o)
          (next-AtMost u.1.gossip.my_status t.1.gossip.my_status o (c'.consistent.started o) most)

  -- Two peers whose handlers are consistent have rumors and TLC messages only, under their origin and
  -- id and none beyond a gap of both clocks; neither knows of messages of the other that it has not.
  -- One of them, with room for what it is behind, catches up, and then the other one, with room for
  -- what it is behind. Both ways end, with as many exchanges as the one is behind, or more, and then
  -- the two clocks have the same entries, and each peer has the messages that it had and every
  -- message below its clock.
  pub both_ways_agree :
      (n m : ℕ) (g h : Gossiper) (t : Gossiper × Gossiper)
      → Ready range ranges g h
      → ((o : String) (i : ℕ) (p : GossipPacket) → held h o i ≡ some p → IsGossip p o i)
      → Below g h
      → Below h g
      → next_id g.name h.gossip.my_status ≤ next_id g.name g.gossip.my_status
      → lag range ranges g h ≤ n
      → exchanges range n (g, h) ≡ some t
      → ((o : String) → length (messages_of o t.0.gossip) + lag range ranges t.1 t.0 < 2 ^ 32 - 1)
      → lag range ranges t.1 t.0 ≤ m
      → CaughtUp range ranges g h t
        × ((u : Gossiper × Gossiper) × (exchanges range m (t.1, t.0) ≡ some u)
            × CaughtUp range ranges t.1 t.0 u
            × ((o : String) → lookup o u.0.gossip.my_status ≡ lookup o u.1.gossip.my_status))
  both_ways_agree n m g h t r filed below_g below_h own le e room le' =
      let (t', e', c') = catches_up range ranges n g h r le in
      let same : t' ≡ t = some_eq (sym e' ∙ e) in
      let c = subst (CaughtUp range ranges g h) same c' in
      let r' = turned g h t r c filed below_h own room in
      let (u, done, d) = catches_up range ranges m t.1 t.0 r' le' in
      (c, (u, done, d, λ o. agreed g h t u o r c r' d below_g))
