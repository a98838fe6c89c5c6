-- ===== src/GossipHandler.antt =====
-- gossiper/gossiphandler.go and the listeners of gossiper/status.go: the message storage, the
-- clock, the sequence number and the goroutines that wait for the status of a peer.
pub mod Storage
pub mod Least
pub mod Exchange
use p2p_dapp.Base.{
  ℕ, ◌+◌, ◌%◌, ◌^◌, String, Bool, ◌&&◌, Option, none, some, List, [], ◌∷◌, ◌++◌, map, ltb,
  if◌then◌else◌, ◌==◌, string_eq, nat_eq, pair_eq, Dict, lookup, insert, delete, int_eq,
  load_or_store,
}
use p2p_dapp.Packet.{
  Address, RumorMessage, PeerStatus, GossipPacket, ExtendedGossipPacket, StatusPacket, empty_packet,
}
use mathlib.Core.Option
use p2p_dapp.VectorClock.{VectorClock, update_status}

-- `mongering_channels` keeps, for a peer and a message, how many notifications its channel holds.
-- `latest_rumors` are the rumors for the user interface, each with a goroutine of its own that sends
-- it to the channel, in the order in which the goroutines were started. They run in any order: see
-- `overtakes` of Interface/Polls.
pub record GossipHandler : Type 0 where
  pub seq_id : ℕ
  pub message_storage : Dict String (Dict ℕ GossipPacket)
  pub my_status : VectorClock
  pub mongering_channels : Dict Address (Dict (String × ℕ) ℕ)
  pub latest_rumors : List RumorMessage

abbrev pub new_gossip_handler : GossipHandler
new_gossip_handler = record {
  seq_id = 1;
  message_storage = [];
  my_status = [];
  mongering_channels = [];
  latest_rumors = [];
}

-- The messages of an origin, none where the storage has no map for it.
abbrev pub messages_of : String → GossipHandler → Dict ℕ GossipPacket
messages_of origin h = elim (lookup origin h.message_storage) [ none ↦ [] | some m ↦ m ]

-- `none` is the endless search of `update_status`, where all ids are stored.
unfoldable pub store_message :
    GossipPacket → String → ℕ → GossipHandler → Option (GossipHandler × Bool)
store_message packet origin id h =
    let (messages, storage, found) = load_or_store origin [] h.message_storage in
    let (value, stored, loaded) = load_or_store id packet messages in
    Option.map
      (λ status.
        (record h { message_storage = insert origin stored storage; my_status = status }, loaded))
      (update_status origin id stored h.my_status)

-- `none` is the failed type assertion of a message that is not there, a panic.
unfoldable pub get_packet_from_peer_status : PeerStatus → GossipHandler → Option GossipPacket
get_packet_from_peer_status ps h = elim (lookup ps.identifier h.message_storage) [
  | none ↦ none
  | some messages ↦ lookup ps.next_id messages
]

-- A goroutine is started that sends the rumor.
unfoldable pub show_rumor : RumorMessage → GossipHandler → GossipHandler
show_rumor r h = if r.text == "" then h else record h { latest_rumors = h.latest_rumors ++ r ∷ [] }

abbrev pub rumor_packet : RumorMessage → GossipPacket
rumor_packet r = record empty_packet { rumor = some r }

-- `atomic.AddUint32` on the sequence number.
abbrev pub add_seq_id : GossipHandler → GossipHandler
add_seq_id h = record h { seq_id = (h.seq_id + 1) % 2 ^ 32 }

-- The rest of `createRumorMessage`, with the sequence number that it has loaded. By then the handler may
-- be in another state than the one it was loaded from.
unfoldable pub store_rumor_message :
    ℕ → String → Address → String → GossipHandler → Option (GossipHandler × ExtendedGossipPacket)
unfolding store_message show_rumor
store_rumor_message id name address text h =
    let r : RumorMessage = record { origin = name; id = id; text = text } in
    Option.map (λ s. (show_rumor r s.0, record { packet = rumor_packet r; sender_addr = address }))
      (store_message (rumor_packet r) name id h)

-- `createRumorMessage` in a goroutine that no other one interrupts: the sequence number is loaded, then
-- raised, then the rumor is stored as any other message. The load and the raise are two operations of
-- the code; Tests/Races has two goroutines between which they interleave.
unfoldable pub create_rumor_message :
    String → Address → String → GossipHandler → Option (GossipHandler × ExtendedGossipPacket)
unfolding store_rumor_message
create_rumor_message name address text h =
    store_rumor_message h.seq_id name address text (add_seq_id h)

abbrev pub listeners_of : Address → GossipHandler → Dict (String × ℕ) ℕ
listeners_of peer h = elim (lookup peer h.mongering_channels) [ none ↦ [] | some m ↦ m ]

-- A new listener has an empty channel; one that is there stays.
unfoldable pub get_listener_for_status : String → ℕ → Address → GossipHandler → GossipHandler × Bool
get_listener_for_status origin id peer h =
    let (value, channels, loaded) = load_or_store (origin, id) 0 (listeners_of peer h) in
    (record h { mongering_channels = insert peer channels h.mongering_channels }, loaded)

unfoldable pub delete_listener_for_status : String → ℕ → Address → GossipHandler → GossipHandler
delete_listener_for_status origin id peer h = record h {
  mongering_channels = insert peer (delete (origin, id) (listeners_of peer h)) h.mongering_channels;
}

-- The notifications that a status sends to the listener of one message, one for each entry that is
-- past it.
unfoldable pub notifications : String × ℕ → List PeerStatus → ℕ
notifications (origin, id) [] = 0
notifications (origin, id) (ps ∷ want) =
    notifications (origin, id) want
    + (if ps.identifier == origin && ltb id ps.next_id then 1 else 0)

unfoldable pub notify_all : List PeerStatus → Dict (String × ℕ) ℕ → Dict (String × ℕ) ℕ
unfolding notifications
notify_all want [] = []
notify_all want ((key, pending) ∷ channels) =
    (key, pending + notifications key want) ∷ notify_all want channels

unfoldable pub notify_listeners_for_status : Address → StatusPacket → GossipHandler → GossipHandler
unfolding notify_all
notify_listeners_for_status sender status h = elim (lookup sender h.mongering_channels) [
  | none ↦ h
  | some channels ↦ record h {
    mongering_channels = insert sender (notify_all status.want channels) h.mongering_channels;
  }
]
