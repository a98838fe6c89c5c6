-- ===== src/Routing/Hops.antt =====
-- The hop limit: how far a packet travels through any network, and what becomes of a packet that
-- is forwarded again and again by the same peer.
use p2p_dapp.Base.{
  ℕ, zero, suc, ◌-◌, ◌≤◌, String, ◌≡◌, sym, ap, ◌∙◌, inl, inr, Option, none, some, List, [], ◌∷◌,
  arith, ltb, if◌then◌else◌, ◌==◌, string_eq, nat_eq, pair_eq, Option-cases, lookup, length, lt→ltb,
  int_eq,
}
use p2p_dapp.Packet.{Address, GossipPacket}
use p2p_dapp.Routing.{RoutingHandler, HopField, hop_limit, set_hop_limit, forward_private_message}

-- A peer of the network, as forwarding sees it.
pub record Peer : Type 0 where
  pub name : String
  pub routing : RoutingHandler

-- The addresses that a packet is sent to, one after the other, until it comes to the peer that it
-- is for, to an address where nobody listens, or to a peer that does not send it on.
pub relay : ℕ → (Address → Option Peer) → HopField → GossipPacket → String → Peer → List Address
relay zero network field packet destination peer = []
relay (suc fuel) network field packet destination peer =
    let (packet', to) = forward_private_message field packet destination peer.routing in
    elim to [
      | none ↦ []
      | some a ↦ a ∷ (elim (network a) [
        | none ↦ []
        | some next ↦
            if next.name == destination
            then []
            else relay fuel network field packet' destination next
      ])
    ]

-- The same packet forwarded n times by one peer: the packet as the calls leave it.
pub resend : ℕ → HopField → GossipPacket → String → RoutingHandler → GossipPacket
resend zero field packet destination r = packet
resend (suc n) field packet destination r =
    (forward_private_message field (resend n field packet destination r) destination r).0

pred_suc : (n : ℕ) → suc n - 1 ≡ n
pred_suc n = omega arith

hop_limit-set :
    (field : HopField) (n m : ℕ) (packet : GossipPacket)
    → hop_limit field packet ≡ some m
    → hop_limit field (set_hop_limit field n packet) ≡ some n
hop_limit-set HopField.private n m packet h = ground arith
hop_limit-set HopField.data_request n m packet h = ground arith
hop_limit-set HopField.data_reply n m packet h = ground arith
hop_limit-set HopField.search_reply n m packet h = ground arith
hop_limit-set HopField.ack n m packet h = ground arith

module _ (field : HopField) (packet : GossipPacket) (destination : String)
    (r : RoutingHandler) where
  forward_zero :
      hop_limit field packet ≡ some 0
      → forward_private_message field packet destination r ≡ (packet, none)
  unfolding forward_private_message
  forward_zero h = rw (h, forward_private_message)

  forward_suc :
      (n : ℕ)
      → hop_limit field packet ≡ some (suc n)
      → forward_private_message field packet destination r
        ≡ (set_hop_limit field n packet, lookup destination r.routing_table)
  unfolding forward_private_message
  forward_suc n h =
      rw (h, forward_private_message, lt→ltb 0 (suc n) (omega arith))
        (ap (λ k. (set_hop_limit field k packet, lookup destination r.routing_table)) (pred_suc n))

  -- A call lowers the hop limit by one, down to 0.
  pub forward-hop_limit :
      (n : ℕ)
      → hop_limit field packet ≡ some n
      → hop_limit field (forward_private_message field packet destination r).0 ≡ some (n - 1)
  forward-hop_limit zero h = rw (forward_zero h) h
  forward-hop_limit (suc n) h =
      rw (forward_suc n h) (hop_limit-set field n (suc n) packet h ∙ ap some (sym (pred_suc n)))

module _ (network : Address → Option Peer) (field : HopField) (destination : String) where
  length-relay-le :
      (fuel : ℕ) (packet : GossipPacket) (peer : Peer) (n : ℕ)
      → hop_limit field packet ≡ some n
      → length (relay fuel network field packet destination peer) ≤ n
  unfolding relay
  length-relay-le zero packet peer n h = omega arith
  length-relay-le (suc fuel) packet peer zero h =
      ground (arith, forward_zero field packet destination peer.routing h)
  length-relay-le (suc fuel) packet peer (suc n) h =
      let sent = forward_suc field packet destination peer.routing n h in
      elim (Option-cases (lookup destination peer.routing.routing_table)) [
        | inl e ↦ ground (arith, sent, e)
        | inr (a, e) ↦ elim (Option-cases (network a)) [
          | inl e' ↦ ground (arith, sent, e, e')
          | inr (next, e') ↦ ground (
            arith,
            sent,
            e,
            e',
            length-relay-le fuel (set_hop_limit field n packet) next n
                (hop_limit-set field n (suc n) packet h),
          )
        ]
      ]

  relay_enough :
      (fuel : ℕ) (packet : GossipPacket) (peer : Peer) (n : ℕ)
      → hop_limit field packet ≡ some n
      → n ≤ fuel
      → relay (suc fuel) network field packet destination peer
        ≡ relay fuel network field packet destination peer
  unfolding relay
  relay_enough zero packet peer zero h le =
      ground (arith, forward_zero field packet destination peer.routing h)
  relay_enough zero packet peer (suc n) h le = absurd (omega arith)
  relay_enough (suc fuel) packet peer zero h le =
      ground (arith, forward_zero field packet destination peer.routing h)
  relay_enough (suc fuel) packet peer (suc n) h le =
      let sent = forward_suc field packet destination peer.routing n h in
      elim (Option-cases (lookup destination peer.routing.routing_table)) [
        | inl e ↦ ground (arith, sent, e)
        | inr (a, e) ↦ elim (Option-cases (network a)) [
          | inl e' ↦ ground (arith, sent, e, e')
          | inr (next, e') ↦ ground (
            arith,
            sent,
            e,
            e',
            relay_enough fuel (set_hop_limit field n packet) next n
                (hop_limit-set field n (suc n) packet h),
          )
        ]
      ]

-- In any network, whatever its routing tables, loops included, a packet is sent at most as many
-- times as its hop limit says.
pub length-relay :
    (fuel : ℕ) (network : Address → Option Peer) (field : HopField) (packet : GossipPacket)
    (destination : String) (peer : Peer) (n : ℕ)
    → hop_limit field packet ≡ some n
    → length (relay fuel network field packet destination peer) ≤ n
length-relay fuel network field packet destination peer n h =
    length-relay-le network field destination fuel packet peer n h

-- Fuel of the hop limit follows a packet to its end in any network: one more changes nothing.
pub relay_settles :
    (fuel : ℕ) (network : Address → Option Peer) (field : HopField) (packet : GossipPacket)
    (destination : String) (peer : Peer) (n : ℕ)
    → hop_limit field packet ≡ some n
    → n ≤ fuel
    → relay (suc fuel) network field packet destination peer
      ≡ relay fuel network field packet destination peer
relay_settles fuel network field packet destination peer n h =
    relay_enough network field destination fuel packet peer n h

hop_limit-resend :
    (n k : ℕ) (field : HopField) (packet : GossipPacket) (destination : String) (r : RoutingHandler)
    → hop_limit field packet ≡ some n
    → hop_limit field (resend k field packet destination r) ≡ some (n - k)
unfolding resend
hop_limit-resend n zero field packet destination r h = h ∙ ap some (omega arith)
hop_limit-resend n (suc k) field packet destination r h =
    forward-hop_limit field (resend k field packet destination r) destination r (n - k)
      (hop_limit-resend n k field packet destination r h)
    ∙ ap some (omega arith)

-- A peer that forwards the same packet again and again, as the timer of a download does, lowers
-- its hop limit with each call; after as many calls as the hop limit it sends nothing more, and
-- before that it sends to the route of the destination.
pub resend_exhausts :
    (n k : ℕ) (field : HopField) (packet : GossipPacket) (destination : String) (r : RoutingHandler)
    → hop_limit field packet ≡ some n
    → (hop_limit field (resend k field packet destination r) ≡ some (n - k))
      × ((forward_private_message field (resend k field packet destination r) destination r).1
          ≡ (if ltb k n then lookup destination r.routing_table else none))
unfolding forward_private_message
resend_exhausts n k field packet destination r h =
    let left = hop_limit-resend n k field packet destination r h in
    (left, rw (left, forward_private_message) (ground arith))
