-- ===== src/Mongering.antt =====
-- gossiper/rumormongering.go, `handleGossipMessage` of gossiper/gossiphandler.go and the handlers of
-- gossiper/mainhandler.go that call them. A parameter gives the order in which a peer ranges over
-- its clock.
pub mod Targets
pub mod Exchange
pub mod Waiting
use mathlib.Core.Option
use p2p_dapp.Base.{
  ℕ, ◌+◌, ◌%◌, String, Bool, true, false, not, Option, none, some, List, [], ◌∷◌, ◌++◌, map, length,
  if◌then◌else◌, ◌==◌, string_eq, nat_eq, pair_eq, Dict, insert, int_eq, load_or_store, list_eq,
}
use p2p_dapp.Packet.{
  Address, GossipPacket, ExtendedGossipPacket, RumorMessage, SimpleMessage, StatusPacket,
  empty_packet,
}
use p2p_dapp.VectorClock.{
  VectorClock, create_my_status_packet, get_peer_status_for_peer, check_if_i_need_peer_status,
}
use p2p_dapp.GossipHandler.{
  GossipHandler, store_message, show_rumor, get_packet_from_peer_status, create_rumor_message,
  notify_listeners_for_status,
}
use p2p_dapp.Routing.{update_routing_table}
use p2p_dapp.Search.{difference, random_peer}
use p2p_dapp.Gossiper.{Gossiper, Sent}

abbrev pub status_packet : StatusPacket → GossipPacket
status_packet s = record empty_packet { status = some s }

-- What a handler leaves: the peer, the packets that it sends, and whether it begins to rumor monger
-- the packet in hand.
pub record Effects : Type 0 where
  pub peer : Gossiper
  pub sent : Sent
  pub mongers : Bool

-- `broadcastToPeers`: to all but the sender.
unfoldable pub broadcast_to_peers : ExtendedGossipPacket → List Address → Sent
broadcast_to_peers e [] = []
broadcast_to_peers e (a ∷ peers) =
    let rest = broadcast_to_peers e peers in
    if a == e.sender_addr then rest else (e.packet, a) ∷ rest

-- The rumor of the packet, if it has a text, is shown.
unfoldable pub show_packet : GossipPacket → GossipHandler → GossipHandler
unfolding show_rumor
show_packet p h = elim p.rumor [ none ↦ h | some r ↦ show_rumor r h ]

module _ (range : VectorClock → VectorClock) where
  abbrev pub my_status_packet : Gossiper → GossipPacket
  my_status_packet g = status_packet (create_my_status_packet (range g.gossip.my_status))

  -- A message of another peer moves the route and is stored; `none` is the endless update of the
  -- clock.
  unfoldable pub take_message :
      ExtendedGossipPacket → String → ℕ → Gossiper → Option (Gossiper × Bool)
  take_message e origin id g =
      let r = update_routing_table origin id e.sender_addr g.routing in
      if origin == g.name
      then some (g, true)
      else Option.map (λ s. (record g { routing = r; gossip = s.0 }, s.1))
          (store_message e.packet origin id g.gossip)

  -- `handleGossipMessage`: the status goes back to the sender, and a new message is shown and rumor
  -- mongered.
  unfoldable pub handle_gossip_message :
      ExtendedGossipPacket → String → ℕ → Gossiper → Option Effects
  unfolding take_message show_packet
  handle_gossip_message e origin id g =
      Option.map
        (λ s. record {
          peer = if s.1 then s.0 else record (s.0) { gossip = show_packet e.packet s.0.gossip };
          sent = (my_status_packet s.0, e.sender_addr) ∷ [];
          mongers = not s.1;
        })
        (take_message e origin id g)

  -- `processRumorMessages`; `none` is also the nil pointer of a packet of another type.
  unfoldable pub process_rumor_message : ExtendedGossipPacket → Gossiper → Option Effects
  unfolding handle_gossip_message
  process_rumor_message e g = elim e.packet.rumor [
    | none ↦ none
    | some r ↦ handle_gossip_message e r.origin r.id g
  ]

  -- The gossip of `processTLCMessage`.
  unfoldable pub process_tlc_message : ExtendedGossipPacket → Gossiper → Option Effects
  unfolding handle_gossip_message
  process_tlc_message e g = elim e.packet.tlc_message [
    | none ↦ none
    | some m ↦ handle_gossip_message e m.origin m.id g
  ]

  -- `handlePeerStatus` on one status; `none` is the nil pointer of a packet of another type, or the
  -- failed type assertion of `getPacketFromPeerStatus`.
  unfoldable pub handle_peer_status : ExtendedGossipPacket → Gossiper → Option Effects
  handle_peer_status e g = elim e.packet.status [
    | none ↦ none
    | some s ↦
        let g' = record g { gossip = notify_listeners_for_status e.sender_addr s g.gossip } in
        elim (get_peer_status_for_peer (range g.gossip.my_status) s.want) [
          | some ps ↦
              Option.map
                (λ p. record { peer = g'; sent = (p, e.sender_addr) ∷ []; mongers = false })
                (get_packet_from_peer_status ps g.gossip)
          | none ↦ some (record {
            peer = g';
            sent =
                if check_if_i_need_peer_status g.gossip.my_status s.want
                then (my_status_packet g, e.sender_addr) ∷ []
                else [];
            mongers = false;
          })
        ]
  ]

  -- One round of `startAntiEntropy`, with the index of the peer that is drawn.
  unfoldable pub anti_entropy : ℕ → Gossiper → Sent
  unfolding random_peer
  anti_entropy i g = elim (random_peer i g.peers) [
    | none ↦ []
    | some a ↦ (my_status_packet g, a) ∷ []
  ]

-- `processStatusMessages`: the status goes to the channel of its sender, and whether the handler of
-- that channel is started.
unfoldable pub process_status_message :
    ExtendedGossipPacket
    → Dict Address (List ExtendedGossipPacket)
    → Dict Address (List ExtendedGossipPacket) × Bool
process_status_message e channels =
    let (waiting, all, loaded) = load_or_store e.sender_addr [] channels in
    (insert e.sender_addr (waiting ++ e ∷ []) all, not loaded)

-- The start of `startRouteRumormongering`: an empty rumor is sent to all peers.
unfoldable pub start_route_rumor_mongering : Gossiper → Option (Gossiper × Sent)
unfolding broadcast_to_peers
start_route_rumor_mongering g =
    Option.map (λ r. (record g { gossip = r.0 }, broadcast_to_peers r.1 g.peers))
      (create_rumor_message g.name g.address "" g.gossip)

-- `processSimpleMessages`
unfoldable pub process_simple_message : ExtendedGossipPacket → Gossiper → Option Sent
unfolding broadcast_to_peers
process_simple_message e g = elim e.packet.simple [
  | none ↦ none
  | some m ↦
      let relayed : SimpleMessage = record m { relay_peer_addr = g.address } in
      some (
        broadcast_to_peers (record e { packet = record (e.packet) { simple = some relayed } })
          g.peers)
]

-- One round of the loop of `startRumorMongering`: whether the status came before the timeout, the
-- number that `rand.Int` gives, and then the peers that are known and the number of the next draw.
pub record Turn : Type 0 where
  pub status_received : Bool
  pub draw : ℕ
  pub peers : List Address
  pub index : ℕ

-- The coin stays 0 where no status came.
abbrev pub coin : Turn → ℕ
coin t = if t.status_received then t.draw % 2 else 0

-- `getRandomPeer` with a random number, of which `rand.Intn` takes the remainder; none where there
-- is no peer to draw.
unfoldable pub draw_peer : ℕ → List Address → Option Address
unfolding random_peer
draw_peer i peers = if length peers == 0 then none else random_peer (i % length peers) peers

-- The peers that the message is sent to, from the one in hand, over the rounds that have ended. Where
-- no other peer is known, none is drawn.
unfoldable pub monger : List Turn → Address → List Address
unfolding difference draw_peer
monger [] peer = peer ∷ []
monger (t ∷ turns) peer = peer ∷ (elim (coin t == 0) [
  | false ↦ []
  | true ↦ elim (draw_peer t.index (difference t.peers (peer ∷ []))) [
    | none ↦ []
    | some next ↦ monger turns next
  ]
])

-- `startRumorMongering` of a packet from a sender, with the peers and the number of the first draw.
unfoldable pub start_rumor_mongering : Address → List Address → ℕ → List Turn → List Address
unfolding monger
start_rumor_mongering sender peers index turns =
    elim (draw_peer index (difference peers (sender ∷ []))) [
      | none ↦ []
      | some peer ↦ monger turns peer
    ]
