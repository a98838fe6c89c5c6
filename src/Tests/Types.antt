-- ===== src/Tests/Types.antt =====
-- The types of packets and messages at concrete inputs.
use p2p_dapp.Base.{String, ◌≡◌, refl, true, false, Option, none, some, [], In}
use p2p_dapp.Packet.{Bytes, GossipPacket, empty_packet}
use p2p_dapp.Dispatch.{
  is_set, get_type_from_gossip, receive_packet, init_packet_channels, Arguments,
}
use p2p_dapp.Dispatch.Gate.{contains, is_blank, any_set}
use p2p_dapp.Startup.{
  App, Goroutine, channel_of, reads, run, main, new_connection_handler, default_flags,
}
use p2p_dapp.Startup.Served.{packet_served}

abbrev rumor : GossipPacket
rumor = record empty_packet { rumor = some (record { origin = "a"; id = 1; text = "hi" }) }

abbrev say : Arguments
say = record { msg = "hi"; dest = ""; file = ""; request = ""; keywords = ""; budget = 0 }

abbrev no_hex : String → Option Bytes
no_hex s = none

packet_served_example :
    (k : Goroutine) × In k run
    × (channel_of k ≡ "rumor")
    × (contains "rumor" (init_packet_channels false) ≡ true)
    × (reads k rumor ≡ true)
unfolding receive_packet get_type_from_gossip is_set is_blank any_set
packet_served_example = packet_served false rumor "rumor" refl refl

start : Option App
start = main some (λ peers. []) (λ peer. none) default_flags

starts : is_set start ≡ true
unfolding start main new_connection_handler is_set
starts = refl
