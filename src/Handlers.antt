-- ===== src/Handlers.antt =====
-- gossiper/mainhandler.go: what a peer does with a private message, a request for data and a reply
-- to one, with the packets that it sends. SHA-256 is an argument.
pub mod Delivery
use mathlib.Core.Option
use p2p_dapp.Base.{
  ◌+◌, ◌%◌, ◌^◌, Option, none, some, [], ◌∷◌, ◌++◌, map, if◌then◌else◌, ◌==◌, string_eq, nat_eq,
  pair_eq, lookup, int_eq, list_eq,
}
use p2p_dapp.Packet.{
  Bytes, Address, GossipPacket, ExtendedGossipPacket, PrivateMessage, RumorMessage, DataRequest,
  DataReply, empty_packet,
}
use p2p_dapp.Routing.{RoutingHandler, HopField, update_routing_table, forward_private_message}
use p2p_dapp.Files.{FileHandler, check_hash}
use p2p_dapp.Gossiper.{Gossiper, Sent, sent_to}

-- `processPrivateMessages`; `none` is the nil pointer of a packet of another type.
unfoldable pub process_private_message : ExtendedGossipPacket → Gossiper → Option (Gossiper × Sent)
unfolding update_routing_table sent_to forward_private_message
process_private_message e g = elim e.packet.private [
  | none ↦ none
  | some m ↦
      let r = update_routing_table m.destination m.id e.sender_addr g.routing in
      if m.destination == g.name
      then some (
        record g {
          routing = r;
          gossip = record (g.gossip) {
            latest_rumors =
                g.gossip.latest_rumors ++ record { origin = m.origin; id = 0; text = m.text } ∷ [];
          };
        },
        [],
      )
      else some (
        record g { routing = r },
        sent_to (forward_private_message HopField.private e.packet m.destination r),
      )
]

abbrev pub data_reply_packet : DataReply → GossipPacket
data_reply_packet d = record empty_packet { data_reply = some d }

-- The reply to a request: the data that is stored under the hash, or nil.
abbrev pub reply_to : DataRequest → Gossiper → DataReply
reply_to q g = record {
  origin = g.name;
  destination = q.origin;
  hop_limit = g.hop_limit % 2 ^ 32;
  hash_value = q.hash_value;
  contents = lookup q.hash_value g.files.hash_data_map;
}

-- `processDataRequest`
unfoldable pub process_data_request : ExtendedGossipPacket → Gossiper → Option Sent
unfolding sent_to forward_private_message
process_data_request e g = elim e.packet.data_request [
  | none ↦ none
  | some q ↦
      if q.destination == g.name
      then some (
          sent_to (
            forward_private_message HopField.data_reply (data_reply_packet (reply_to q g)) q.origin
              g.routing))
      else some
          (sent_to (forward_private_message HopField.data_request e.packet q.destination g.routing))
]

-- `processTLCAck`: the acknowledgement that the loop of the gossip with confirmation gets, and what
-- is sent.
unfoldable pub process_tlc_ack :
    ExtendedGossipPacket → Gossiper → Option (Option PrivateMessage × Sent)
unfolding sent_to forward_private_message
process_tlc_ack e g = elim e.packet.ack [
  | none ↦ none
  | some a ↦
      if a.destination == g.name
      then some (some a, [])
      else some
          (none, sent_to (forward_private_message HopField.ack e.packet a.destination g.routing))
]

module _ (sha256 : Bytes → Bytes) where
  -- A reply for this peer: what the channel of its download gets. The outer `none` is the failed
  -- type assertion where there is no such channel, a panic.
  unfoldable pub accept : DataReply → Gossiper → Option (Option Bytes)
  accept d g = elim d.contents [
    | none ↦ some none
    | some content ↦
        if check_hash sha256 d.hash_value content
        then (elim (lookup (d.hash_value, d.origin) g.hash_channels) [
          | none ↦ none
          | some b ↦ some (some content)
        ])
        else some none
  ]

  -- `processDataReply`: what the channel gets, and what is sent.
  unfoldable pub process_data_reply : ExtendedGossipPacket → Gossiper → Option (Option Bytes × Sent)
  unfolding accept sent_to forward_private_message
  process_data_reply e g = elim e.packet.data_reply [
    | none ↦ none
    | some d ↦
        if d.destination == g.name
        then Option.map (λ c. (c, [])) (accept d g)
        else some (
          none,
          sent_to (forward_private_message HopField.data_reply e.packet d.destination g.routing),
        )
  ]
