-- ===== src/Tests/Deliveries.antt =====
-- The handlers at concrete inputs: peer "a" asks peer "b" for data.
use mathlib.Core.Option
use p2p_dapp.Base.{
  ◌≡◌, refl, true, some, [], ◌∷◌, arith, string_eq, nat_eq, pair_eq, lookup, int_eq, list_eq,
}
use p2p_dapp.Packet.{GossipPacket, ExtendedGossipPacket, PrivateMessage, DataRequest, empty_packet}
use p2p_dapp.Routing.{new_routing_handler, with_hops_private, with_hops_data_reply}
use p2p_dapp.Files.{new_file_handler, to_hash32}
use p2p_dapp.Gossiper.{new_gossiper, Gossiper}
use p2p_dapp.Handlers.{
  process_private_message, data_reply_packet, reply_to, process_data_request, process_data_reply,
}
use p2p_dapp.Handlers.Delivery.{
  private_packet, private_message_returns, process_data_reply-process_data_request,
}
use p2p_dapp.Tests.Shares.{mark, content}

abbrev letter : PrivateMessage
letter = record { origin = "a"; id = 0; text = "hi"; destination = "c"; hop_limit = 10 }

abbrev asks : Gossiper
asks = record (new_gossiper "a" "x" [] 2 10) { hash_channels = ((mark content, "b"), true) ∷ [] }

abbrev has : Gossiper
has = record (new_gossiper "b" "y" [] 2 10) {
  routing = record new_routing_handler { routing_table = ("a", "x") ∷ [] };
  files = record new_file_handler { hash_data_map = (mark content, content) ∷ [] };
}

abbrev request : DataRequest
request = record { origin = "a"; destination = "b"; hop_limit = 10; hash_value = mark content }

abbrev arrived : ExtendedGossipPacket
arrived = record {
  packet = data_reply_packet (with_hops_data_reply 9 (reply_to request has));
  sender_addr = "y";
}

private_message_returns_example :
    Option.map
      (λ r. r.1)
      (process_private_message (record { packet = private_packet letter; sender_addr = "x" }) has)
    ≡ some ((private_packet (with_hops_private 9 letter), "x") ∷ [])
unfolding lookup
private_message_returns_example =
    private_message_returns letter 9 "x" has (ground (arith, string_eq.beq_iff "c" "b")) refl refl

process_data_reply-process_data_request_example :
    (reply : GossipPacket) × (process_data_request
        (record { packet = record empty_packet { data_request = some request }; sender_addr = "z" })
        has
      ≡ some ((reply, "x") ∷ []))
    × (process_data_reply mark (record { packet = reply; sender_addr = "y" }) asks
        ≡ some (some content, []))
unfolding lookup to_hash32
process_data_reply-process_data_request_example =
    process_data_reply-process_data_request mark request content 9 "x" "y" "z" asks has refl refl
      refl refl refl refl refl
