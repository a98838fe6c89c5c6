-- ===== src/Tests/BothWays.antt =====
-- Two peers that catch up with each other at concrete inputs: "c" has a message of "a", and "b" has
-- none.
use p2p_dapp.Base.{
  ℕ, ◌+◌, ◌-◌, ◌^◌, ◌≤◌, ◌<◌, String, ◌≡◌, refl, none, some, arith, string_eq, nat_eq, pair_eq,
  lookup, insert, delete, length, int_eq, list_eq,
}
use p2p_dapp.Packet.{GossipPacket}
use p2p_dapp.VectorClock.{
  next_id, advance, update_status, create_my_status_packet, origin_id_map, first_needed,
  get_peer_status_for_peer, check_if_i_need_peer_status,
}
use p2p_dapp.VectorClock.Behind.{behind}
use p2p_dapp.GossipHandler.{
  messages_of, store_message, show_rumor, get_packet_from_peer_status, notifications, notify_all,
  notify_listeners_for_status,
}
use p2p_dapp.Dispatch.{receive_packet, get_type_from_gossip, is_set}
use p2p_dapp.Routing.{update_routing_table, update_last_origin_id}
use p2p_dapp.Gossiper.{Gossiper}
use p2p_dapp.Network.Authentic.{held}
use p2p_dapp.Mongering.{
  handle_peer_status, handle_gossip_message, take_message, show_packet, process_rumor_message,
}
use p2p_dapp.Mongering.Exchange.{take_answer, take_answers, exchange, exchanges}
use p2p_dapp.Mongering.Exchange.Progress.{lag}
use p2p_dapp.Mongering.Exchange.CatchUp.{CaughtUp}
use p2p_dapp.Mongering.Exchange.BothWays.{Below, both_ways_agree}
use p2p_dapp.Tests.Exchanges.{each_once, each_once-Ranges, knows, knows-Ready, new_peer}

abbrev one_way : Gossiper × Gossiper
one_way = elim (exchanges each_once 1 (knows, new_peer)) [ none ↦ (knows, new_peer) | some t ↦ t ]

one_way_ends : exchanges each_once 1 (knows, new_peer) ≡ some one_way
unfolding exchanges exchange take_answers take_answer handle_peer_status handle_gossip_message
    take_message show_packet process_rumor_message receive_packet get_type_from_gossip is_set
    store_message show_rumor get_packet_from_peer_status notifications notify_all
    notify_listeners_for_status update_status advance next_id create_my_status_packet origin_id_map
    first_needed get_peer_status_for_peer check_if_i_need_peer_status update_routing_table
    update_last_origin_id lookup insert delete
one_way_ends = refl

nothing_held : (o : String) (i : ℕ) (p : GossipPacket) → held new_peer o i ≡ some p → ⊥
unfolding lookup
nothing_held o i p e = cc

knows-Below : Below knows new_peer
unfolding lookup next_id
knows-Below o i p e = ground (arith, e)

rooms :
    ((o : String)
      → length (messages_of o one_way.0.gossip) + lag each_once each_once-Ranges one_way.1 one_way.0
        < 2 ^ 32 - 1)
    × (lag each_once each_once-Ranges one_way.1 one_way.0 ≤ 1)
unfolding exchanges exchange take_answers take_answer handle_peer_status handle_gossip_message
    take_message show_packet process_rumor_message receive_packet get_type_from_gossip is_set
    store_message show_rumor get_packet_from_peer_status notifications notify_all
    notify_listeners_for_status update_status advance next_id create_my_status_packet origin_id_map
    first_needed get_peer_status_for_peer check_if_i_need_peer_status update_routing_table
    update_last_origin_id lookup insert delete behind
rooms = (λ o. ground arith, omega arith)

both_ways_agree_example :
    CaughtUp each_once each_once-Ranges knows new_peer one_way
    × ((u : Gossiper × Gossiper) × (exchanges each_once 1 (one_way.1, one_way.0) ≡ some u)
        × CaughtUp each_once each_once-Ranges one_way.1 one_way.0 u
        × ((o : String) → lookup o u.0.gossip.my_status ≡ lookup o u.1.gossip.my_status))
unfolding lookup next_id behind delete
both_ways_agree_example =
    both_ways_agree each_once each_once-Ranges 1 1 knows new_peer one_way knows-Ready
      (λ o i p e. absurd (nothing_held o i p e)) knows-Below
      (λ o i p e. absurd (nothing_held o i p e)) (omega arith) (omega arith) one_way_ends rooms.0
      rooms.1
