-- ===== src/Mongering/Exchange/Round.antt =====
-- One exchange: what the handlers of both peers do in it.
use p2p_dapp.Base.{
  ℕ, String, ◌≡◌, refl, ◌⊎◌, inl, inr, Bool, true, false, none, some, List, [], ◌∷◌, arith,
  if◌then◌else◌, ◌==◌, string_eq, nat_eq, pair_eq, int_eq, list_eq,
}
use mathlib.Core.Option
use p2p_dapp.Packet.{
  Address, GossipPacket, ExtendedGossipPacket, RumorMessage, TlcMessage, PeerStatus, StatusPacket,
}
use p2p_dapp.VectorClock.{
  VectorClock, create_my_status_packet, get_peer_status_for_peer, check_if_i_need_peer_status,
}
use p2p_dapp.GossipHandler.{
  GossipHandler, store_message, show_rumor, notify_listeners_for_status,
  get_packet_from_peer_status,
}
use p2p_dapp.Dispatch.{receive_packet, get_type_from_gossip, is_set}
use p2p_dapp.Gossiper.{Gossiper, Sent}
use p2p_dapp.Mongering.{
  Effects, my_status_packet, status_packet, handle_peer_status, process_rumor_message,
  process_tlc_message, handle_gossip_message, take_message, show_packet,
}
use p2p_dapp.Mongering.Exchange.{take_answer, take_answers, exchange}

-- Two handlers that differ in what is neither stored nor in the clock.
pub record SameGossip (h h' : GossipHandler) : Type 0 where
  pub storage : h'.message_storage ≡ h.message_storage
  pub clock : h'.my_status ≡ h.my_status

show-SameGossip : (p : GossipPacket) (h : GossipHandler) → SameGossip h (show_packet p h)
unfolding show_packet show_rumor
show-SameGossip p h = record { storage = ground arith; clock = ground arith }

pub notify-SameGossip :
    (a : Address) (s : StatusPacket) (h : GossipHandler)
    → SameGossip h (notify_listeners_for_status a s h)
unfolding notify_listeners_for_status
notify-SameGossip a s h = record { storage = ground arith; clock = ground arith }

-- The packet is a rumor or a TLC message of that origin with that id, and its handler gets it.
abbrev pub IsGossip : GossipPacket → String → ℕ → Type 0
IsGossip p o i =
    ((receive_packet false p ≡ some "rumor")
      × ((m : RumorMessage) × (p.rumor ≡ some m) × (m.origin ≡ o) × (m.id ≡ i)))
    ⊎ ((receive_packet false p ≡ some "tlcMes")
        × ((m : TlcMessage) × (p.tlc_message ≡ some m) × (m.origin ≡ o) × (m.id ≡ i)))

module _ (range : VectorClock → VectorClock) where
  -- A new message of another peer is taken.
  gossip-taken :
      (p : GossipPacket) (from : Address) (o : String) (i : ℕ) (h : Gossiper) (s : GossipHandler)
      → (o == h.name) ≡ false
      → store_message p o i h.gossip ≡ some (s, false)
      → (r : Effects) × (handle_gossip_message range
            (record { packet = p; sender_addr = from })
            o
            i
            h
          ≡ some r)
        × (r.peer.name ≡ h.name)
        × (r.peer.gossip ≡ show_packet p s)
  unfolding handle_gossip_message take_message
  gossip-taken p from o i h s other e = rw other (rw e (_, refl, refl, refl))

  take-rumor :
      (e : ExtendedGossipPacket) (h : Gossiper) (m : RumorMessage)
      → receive_packet false e.packet ≡ some "rumor"
      → e.packet.rumor ≡ some m
      → take_answer range e h
        ≡ Option.map (λ (r : Effects). r.peer) (handle_gossip_message range e m.origin m.id h)
  unfolding take_answer process_rumor_message
  take-rumor e h m t f = ground (arith, t, f)

  take-tlc :
      (e : ExtendedGossipPacket) (h : Gossiper) (m : TlcMessage)
      → receive_packet false e.packet ≡ some "tlcMes"
      → e.packet.tlc_message ≡ some m
      → take_answer range e h
        ≡ Option.map (λ (r : Effects). r.peer) (handle_gossip_message range e m.origin m.id h)
  unfolding take_answer process_tlc_message
  take-tlc e h m t f = ground (arith, t, f)

  pub answer-taken :
      (p : GossipPacket) (from : Address) (o : String) (i : ℕ) (h : Gossiper) (s : GossipHandler)
      → IsGossip p o i
      → (o == h.name) ≡ false
      → store_message p o i h.gossip ≡ some (s, false)
      → (h' : Gossiper) × (take_answer range (record { packet = p; sender_addr = from }) h
          ≡ some h')
        × (h'.name ≡ h.name)
        × SameGossip s h'.gossip
  answer-taken p from o i h s (inl (t, (m, e, eo, ei))) other stored =
      let (r, done, n, g) = gossip-taken p from o i h s other stored in
      (
        r.peer,
        rw (take-rumor (record { packet = p; sender_addr = from }) h m t e, eo, ei, done) refl,
        n,
        rw g (show-SameGossip p s),
      )
  answer-taken p from o i h s (inr (t, (m, e, eo, ei))) other stored =
      let (r, done, n, g) = gossip-taken p from o i h s other stored in
      (
        r.peer,
        rw (take-tlc (record { packet = p; sender_addr = from }) h m t e, eo, ei, done) refl,
        n,
        rw g (show-SameGossip p s),
      )

  abbrev pub wanted_by : Gossiper → List PeerStatus
  wanted_by h = (create_my_status_packet (range h.gossip.my_status)).want

  abbrev pub request_of : Gossiper → ExtendedGossipPacket
  request_of h = record { packet = my_status_packet range h; sender_addr = h.address }

  -- The listeners of the peer that answers are notified.
  abbrev pub notified : Gossiper → Gossiper → Gossiper
  notified g h = record g {
    gossip =
        notify_listeners_for_status h.address (create_my_status_packet (range h.gossip.my_status))
          g.gossip;
  }

  pub notified-SameGossip : (g h : Gossiper) → SameGossip g.gossip (notified g h).gossip
  notified-SameGossip g h = notify-SameGossip _ _ g.gossip

  handled-answered :
      (g h : Gossiper) (ps : PeerStatus) (p : GossipPacket)
      → get_peer_status_for_peer (range g.gossip.my_status) (wanted_by h) ≡ some ps
      → get_packet_from_peer_status ps g.gossip ≡ some p
      → handle_peer_status range (request_of h) g
        ≡ some (record { peer = notified g h; sent = (p, h.address) ∷ []; mongers = false })
  unfolding handle_peer_status
  handled-answered g h ps p found have = ground (arith, found, have)

  pub exchange-answered :
      (g h h' : Gossiper) (ps : PeerStatus) (p : GossipPacket)
      → get_peer_status_for_peer (range g.gossip.my_status) (wanted_by h) ≡ some ps
      → get_packet_from_peer_status ps g.gossip ≡ some p
      → take_answer range (record { packet = p; sender_addr = g.address }) h ≡ some h'
      → exchange range (g, h) ≡ some (notified g h, h')
  unfolding exchange take_answers
  exchange-answered g h h' ps p found have taken =
      rw (handled-answered g h ps p found have, exchange) (rw (taken, take_answers) refl)

  status-not_taken :
      (s : StatusPacket) (from : Address) (h : Gossiper)
      → take_answer range (record { packet = status_packet s; sender_addr = from }) h ≡ some h
  unfolding take_answer receive_packet get_type_from_gossip is_set
  status-not_taken s from h = refl

  -- A status in return, if there is one, changes nothing.
  answer_of : Bool → Gossiper → Address → Sent
  answer_of need g to = if need then (my_status_packet range g, to) ∷ [] else []

  answer_of-not_taken :
      (need : Bool) (g h : Gossiper) → take_answers range (answer_of need g h.address) g h ≡ some h
  unfolding take_answers answer_of
  answer_of-not_taken true g h =
      rw
        (
          status-not_taken (create_my_status_packet (range g.gossip.my_status)) g.address h,
          take_answers,
        )
        refl
  answer_of-not_taken false g h = refl

  handled-idle :
      (g h : Gossiper)
      → get_peer_status_for_peer (range g.gossip.my_status) (wanted_by h) ≡ none
      → handle_peer_status range (request_of h) g
        ≡ some (record {
          peer = notified g h;
          sent =
              answer_of (check_if_i_need_peer_status g.gossip.my_status (wanted_by h)) g h.address;
          mongers = false;
        })
  unfolding handle_peer_status answer_of
  handled-idle g h nothing = ground (arith, nothing)

  pub exchange-idle :
      (g h : Gossiper)
      → get_peer_status_for_peer (range g.gossip.my_status) (wanted_by h) ≡ none
      → exchange range (g, h) ≡ some (notified g h, h)
  unfolding exchange
  exchange-idle g h nothing =
      rw (handled-idle g h nothing, exchange) (rw (answer_of-not_taken _ g h) refl)
