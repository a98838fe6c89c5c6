-- ===== src/Routing.antt =====
-- gossiper/routinghandler.go: the routing table, its update by sequence numbers, and the
-- forwarding of the packets that carry a hop limit.
pub mod Table
pub mod Hops
use mathlib.Core.Option
use p2p_dapp.Base.{
  ℕ, ◌-◌, String, Bool, true, false, Option, none, some, List, [], map, ltb, if◌then◌else◌,
  string_eq, nat_eq, pair_eq, Dict, lookup, insert, int_eq,
}
use p2p_dapp.Packet.{Address, GossipPacket, PrivateMessage, DataRequest, DataReply, SearchReply}

pub record RoutingHandler : Type 0 where
  pub routing_table : Dict String Address
  pub origin_last_id : Dict String ℕ

abbrev pub new_routing_handler : RoutingHandler
new_routing_handler = record { routing_table = []; origin_last_id = [] }

-- Is the id higher than all that came from the origin? Then it is noted.
unfoldable pub update_last_origin_id : String → ℕ → RoutingHandler → RoutingHandler × Bool
update_last_origin_id origin id r =
    let noted = record r { origin_last_id = insert origin id r.origin_last_id } in
    elim (lookup origin r.origin_last_id) [
      | none ↦ (noted, true)
      | some max_id ↦ if ltb max_id id then (noted, true) else (r, false)
    ]

unfoldable pub update_routing_table : String → ℕ → Address → RoutingHandler → RoutingHandler
unfolding update_last_origin_id
update_routing_table origin id address r =
    let (r', is_new) = update_last_origin_id origin id r in
    if is_new then record r' { routing_table = insert origin address r'.routing_table } else r'

-- The packets that carry a hop limit, to which `forwardPrivateMessage` takes a pointer.
pub data HopField : Type 0 where
  private data_request data_reply search_reply ack : HopField

abbrev pub hop_limit : HopField → GossipPacket → Option ℕ
hop_limit private p = Option.map (λ m. m.hop_limit) p.private
hop_limit data_request p = Option.map (λ m. m.hop_limit) p.data_request
hop_limit data_reply p = Option.map (λ m. m.hop_limit) p.data_reply
hop_limit search_reply p = Option.map (λ m. m.hop_limit) p.search_reply
hop_limit ack p = Option.map (λ m. m.hop_limit) p.ack

abbrev pub with_hops_private : ℕ → PrivateMessage → PrivateMessage
with_hops_private n m = record m { hop_limit = n }

abbrev pub with_hops_data_request : ℕ → DataRequest → DataRequest
with_hops_data_request n m = record m { hop_limit = n }

abbrev pub with_hops_data_reply : ℕ → DataReply → DataReply
with_hops_data_reply n m = record m { hop_limit = n }

abbrev pub with_hops_search_reply : ℕ → SearchReply → SearchReply
with_hops_search_reply n m = record m { hop_limit = n }

abbrev pub set_hop_limit : HopField → ℕ → GossipPacket → GossipPacket
set_hop_limit private n p = record p {
  private = Option.map (λ (m : PrivateMessage). with_hops_private n m) p.private;
}
set_hop_limit data_request n p = record p {
  data_request = Option.map (λ (m : DataRequest). with_hops_data_request n m) p.data_request;
}
set_hop_limit data_reply n p = record p {
  data_reply = Option.map (λ (m : DataReply). with_hops_data_reply n m) p.data_reply;
}
set_hop_limit search_reply n p = record p {
  search_reply = Option.map (λ (m : SearchReply). with_hops_search_reply n m) p.search_reply;
}
set_hop_limit ack n p = record p {
  ack = Option.map (λ (m : PrivateMessage). with_hops_private n m) p.ack;
}

-- The packet as the call leaves it, for the pointer is into the packet, and the address that it
-- is sent to, if it is sent.
unfoldable pub forward_private_message :
    HopField → GossipPacket → String → RoutingHandler → GossipPacket × Option Address
forward_private_message field packet destination r = elim (hop_limit field packet) [
  | none ↦ (packet, none)
  | some n ↦
      if ltb 0 n
      then (set_hop_limit field (n - 1) packet, lookup destination r.routing_table)
      else (packet, none)
]

pub get_origins : RoutingHandler → List String
get_origins r = map (λ e. e.0) r.origin_last_id
