-- ===== src/Handlers/Delivery.antt =====
-- A private message that comes back, and the data that a download gets.
use mathlib.Core.Option
use p2p_dapp.Base.{
  ℕ, suc, ◌%◌, ◌^◌, String, ◌≡◌, ◌≢◌, true, none, some, [], ◌∷◌, arith, string_eq, nat_eq, pair_eq,
  eq_refl, eq_true, ne_false, lookup, lookup-insert_self, int_eq, list_eq,
}
use p2p_dapp.Packet.{
  Bytes, Address, GossipPacket, ExtendedGossipPacket, PrivateMessage, DataRequest, DataReply,
  empty_packet,
}
use p2p_dapp.Routing.{
  RoutingHandler, with_hops_private, with_hops_data_reply, update_last_origin_id,
  update_routing_table, forward_private_message,
}
use p2p_dapp.Files.{to_hash32, check_hash}
use p2p_dapp.Gossiper.{Gossiper, Sent, sent_to}
use p2p_dapp.Handlers.{
  process_private_message, data_reply_packet, reply_to, process_data_request, accept,
  process_data_reply,
}

abbrev pub private_packet : PrivateMessage → GossipPacket
private_packet m = record empty_packet { private = some m }

learned :
    (o : String) (id : ℕ) (a : Address) (r : RoutingHandler)
    → lookup o r.origin_last_id ≡ none
    → lookup o (update_routing_table o id a r).routing_table ≡ some a
unfolding update_routing_table update_last_origin_id
learned o id a r h = ground (arith, h, lookup-insert_self o a r.routing_table)

-- A private message for another peer, from whom no packet has come yet, is sent back to the address
-- that it came from, with one hop less: the handler takes that address for the route.
pub private_message_returns :
    (m : PrivateMessage) (n : ℕ) (sender : Address) (g : Gossiper)
    → m.destination ≢ g.name
    → lookup m.destination g.routing.origin_last_id ≡ none
    → m.hop_limit ≡ suc n
    → Option.map
        (λ r. r.1)
        (process_private_message (record { packet = private_packet m; sender_addr = sender }) g)
      ≡ some ((private_packet (with_hops_private n m), sender) ∷ [])
unfolding process_private_message sent_to forward_private_message
private_message_returns m n sender g other unheard hops =
    let route = learned m.destination m.id sender g.routing unheard in
    let not_mine = ne_false m.destination g.name other in ground (arith, route, not_mine, hops)

-- A peer has data under its hash, a route to the peer that asks for it, and a hop limit that is not
-- 0 as a uint32; the download that asks has its channel. Then the peer sends the data to that route,
-- and at the peer that asks, whatever peer passes the reply on, the channel gets the data.
pub process_data_reply-process_data_request :
    (sha256 : Bytes → Bytes) (q : DataRequest) (content : Bytes) (n : ℕ) (route via from : Address)
    (asks has : Gossiper)
    → q.origin ≡ asks.name
    → q.destination ≡ has.name
    → lookup q.hash_value has.files.hash_data_map ≡ some content
    → to_hash32 sha256 q.hash_value 32 ≡ sha256 content
    → lookup q.origin has.routing.routing_table ≡ some route
    → has.hop_limit % 2 ^ 32 ≡ suc n
    → lookup (q.hash_value, has.name) asks.hash_channels ≡ some true
    → (reply : GossipPacket) × (process_data_request
          (record { packet = record empty_packet { data_request = some q }; sender_addr = from })
          has
        ≡ some ((reply, route) ∷ []))
      × (process_data_reply sha256 (record { packet = reply; sender_addr = via }) asks
          ≡ some (some content, []))
unfolding process_data_request process_data_reply accept check_hash sent_to forward_private_message
process_data_reply-process_data_request sha256 q content n route via from asks has mine theirs
      stored valid routed hops waits =
    let passes = (list_eq.beq_iff (to_hash32 sha256 q.hash_value 32) (sha256 content)).1 valid in
    (
      data_reply_packet (with_hops_data_reply n (reply_to q has)),
      ground (arith, mine, theirs, eq_refl has.name, routed, hops),
      ground (arith, mine, eq_refl asks.name, stored, passes, waits),
    )

passes_hash :
    (sha256 : Bytes → Bytes) (d : DataReply) (content : Bytes)
    → check_hash sha256 d.hash_value content ≡ true
    → to_hash32 sha256 d.hash_value 32 ≡ sha256 content
unfolding check_hash
passes_hash sha256 d content = eq_true (to_hash32 sha256 d.hash_value 32) (sha256 content)

-- What the channel of a download gets has the hash that the reply names.
pub process_data_reply_valid :
    (sha256 : Bytes → Bytes) (e : ExtendedGossipPacket) (g : Gossiper) (d : DataReply)
    (content : Bytes) (sent : Sent)
    → e.packet.data_reply ≡ some d
    → process_data_reply sha256 e g ≡ some (some content, sent)
    → (to_hash32 sha256 d.hash_value 32 ≡ sha256 content)
      × (d.contents ≡ some content)
      × (d.destination ≡ g.name)
unfolding process_data_reply accept check_hash
process_data_reply_valid sha256 e g d content sent is h =
    ground (arith, is, string_eq.beq_iff d.destination g.name, passes_hash sha256 d content)
