-- ===== src/Tests/Routes.antt =====
-- Routing at concrete inputs.
use p2p_dapp.Base.{
  ◌-◌, ◌≤◌, ◌≡◌, refl, ◌⊎◌, Option, none, some, List, [], ◌∷◌, ltb, if◌then◌else◌, string_eq,
  nat_eq, pair_eq, lookup, length, All, int_eq, list_eq,
}
use p2p_dapp.Packet.{Address, GossipPacket, empty_packet}
use p2p_dapp.Routing.{
  RoutingHandler, new_routing_handler, HopField, hop_limit, forward_private_message,
}
use p2p_dapp.Routing.Table.{Heard, hear, From, IsBest, route_exact}
use p2p_dapp.Routing.Hops.{Peer, relay, resend, length-relay, resend_exhausts}

abbrev heard : List Heard
heard =
    record { origin = "a"; id = 2; address = "x" }
    ∷ record { origin = "a"; id = 1; address = "y" }
    ∷ []

abbrev letter : GossipPacket
letter = record empty_packet {
  private = some (record { origin = "b"; id = 0; text = "hi"; destination = "a"; hop_limit = 2 });
}

abbrev table : RoutingHandler
table = record new_routing_handler { routing_table = ("a", "x") ∷ [] }

-- Two peers that send to each other.
abbrev network : Address → Option Peer
network a = some (record { name = "c"; routing = table })

abbrev start : Peer
start = record { name = "b"; routing = table }

route_exact_example :
    let r = hear new_routing_handler heard in
    ((lookup "a" r.routing_table ≡ none) × All (From "a" (λ id. ⊥)) heard)
    ⊎ ((best : Heard) × IsBest "a" heard best
        × (lookup "a" r.routing_table ≡ some best.address)
        × (lookup "a" r.origin_last_id ≡ some best.id))
route_exact_example = route_exact "a" heard

length-relay_example : length (relay 5 network HopField.private letter "a" start) ≤ 2
length-relay_example = length-relay 5 network HopField.private letter "a" start 2 refl

resend_exhausts_example :
    (hop_limit HopField.private (resend 3 HopField.private letter "a" table) ≡ some (2 - 3))
    × ((forward_private_message HopField.private
          (resend 3 HopField.private letter "a" table)
          "a"
          table).1
        ≡ (if ltb 3 2 then lookup "a" table.routing_table else none))
resend_exhausts_example = resend_exhausts 2 3 HopField.private letter "a" table refl
