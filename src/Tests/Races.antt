-- ===== src/Tests/Races.antt =====
-- Two goroutines of a peer that create rumors at the same time: both load the sequence number before
-- either of them raises it.
use p2p_dapp.Base.{
  ℕ, String, ◌≡◌, refl, none, some, [], ◌∷◌, string_eq, nat_eq, pair_eq, lookup, insert, int_eq,
  list_eq,
}
use p2p_dapp.Packet.{RumorMessage, ExtendedGossipPacket}
use p2p_dapp.VectorClock.{next_id, advance, update_status}
use p2p_dapp.GossipHandler.{
  GossipHandler, new_gossip_handler, add_seq_id, store_rumor_message, store_message, show_rumor,
  rumor_packet, messages_of,
}

-- The sequence number that both goroutines load.
abbrev loaded : ℕ
loaded = new_gossip_handler.seq_id

abbrev both_raised : GossipHandler
both_raised = add_seq_id (add_seq_id new_gossip_handler)

abbrev rumor_of : String → RumorMessage
rumor_of text = record { origin = "a"; id = loaded; text = text }

abbrev packet_of : String → ExtendedGossipPacket
packet_of text = record { packet = rumor_packet (rumor_of text); sender_addr = "a" }

-- The handler after the first goroutine has stored its rumor, and after the second one has.
abbrev first_stored : GossipHandler
first_stored = record both_raised {
  message_storage = ("a", (1, rumor_packet (rumor_of "one")) ∷ []) ∷ [];
  my_status = ("a", 2) ∷ [];
  latest_rumors = rumor_of "one" ∷ [];
}

abbrev both_stored : GossipHandler
both_stored = record first_stored { latest_rumors = rumor_of "one" ∷ rumor_of "two" ∷ [] }

first_rumor :
    store_rumor_message loaded "a" "a" "one" both_raised ≡ some (first_stored, packet_of "one")
unfolding store_rumor_message store_message show_rumor update_status advance next_id lookup insert
first_rumor = refl

-- The second rumor gets the id of the first one, is not stored, and is returned for mongering all the
-- same.
second_rumor :
    store_rumor_message loaded "a" "a" "two" first_stored ≡ some (both_stored, packet_of "two")
unfolding store_rumor_message store_message show_rumor update_status advance next_id lookup insert
second_rumor = refl

-- The next id is 3, and no message has the id 2.
skipped_id : (both_stored.seq_id ≡ 3) × (lookup 2 (messages_of "a" both_stored) ≡ none)
unfolding lookup
skipped_id = (refl, refl)
