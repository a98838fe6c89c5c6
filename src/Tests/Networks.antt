-- ===== src/Tests/Networks.antt =====
-- A network in which peer "a" creates a rumor and sends it to peer "b".

use p2p_dapp.Base.{
  ℕ, if◌then◌else◌, ap, ◌+◌, ◌<◌, ◌^◌, ◌==◌, Bool-cases, inl, inr, String, ◌≡◌, refl, ◌≢◌, ◌⊎◌,
  true, false, some, [], ◌∷◌, arith, string_eq, nat_eq, pair_eq, lookup, insert, int_eq, list_eq,
  here,
}
use p2p_dapp.Packet.{Address, GossipPacket, ExtendedGossipPacket}
use p2p_dapp.VectorClock.{VectorClock, next_id, advance, update_status}
use p2p_dapp.GossipHandler.{
  GossipHandler, create_rumor_message, store_message, show_rumor, rumor_packet,
}
use p2p_dapp.Routing.{update_routing_table, update_last_origin_id}
use p2p_dapp.Dispatch.{receive_packet, get_type_from_gossip, is_set}
use p2p_dapp.Gossiper.{new_gossiper}
use p2p_dapp.Search.{member, difference, random_peer}
use p2p_dapp.Mongering.{
  monger, draw_peer, Effects, process_rumor_message, handle_gossip_message, take_message,
  show_packet, my_status_packet, Turn, start_rumor_mongering,
}
use p2p_dapp.Mongering.Targets.{Only, Mongers, start_rumor_mongering-Mongers}
use p2p_dapp.Network.{
  Network, posted, after, process_gossip, Step, Reach, IsStart, created_by, made_by,
}
use p2p_dapp.Network.Authentic.{key, held}
use p2p_dapp.Network.Agreement.{held_agree}

abbrev names : Address → String
names a = a

abbrev range : VectorClock → VectorClock
range clock = clock

abbrev alone : Network
alone = record { nodes = λ a. new_gossiper a a [] 2 10; wire = [] }

abbrev hello : GossipPacket
hello = rumor_packet (record { origin = "a"; id = 1; text = "hi" })

abbrev wrote : GossipHandler
wrote = record {
  seq_id = 2;
  message_storage = ("a", (1, hello) ∷ []) ∷ [];
  my_status = ("a", 2) ∷ [];
  mongering_channels = [];
  latest_rumors = record { origin = "a"; id = 1; text = "hi" } ∷ [];
}

abbrev extended : ExtendedGossipPacket
extended = record { packet = hello; sender_addr = "a" }

abbrev one : Network
one = after "a" (record (alone.nodes "a") { gossip = wrote }) [] alone

abbrev two : Network
two = after "a" (one.nodes "a") ((hello, "b") ∷ []) one

abbrev effects : Effects
effects = record {
  peer = record (new_gossiper "b" "b" [] 2 10) {
    gossip = record wrote { seq_id = 1 };
    routing = record { routing_table = ("a", "a") ∷ []; origin_last_id = ("a", 1) ∷ [] };
  };
  sent =
      (my_status_packet range (record (new_gossiper "b" "b" [] 2 10) { gossip = wrote }), "a") ∷ [];
  mongers = true;
}

alone-IsStart : IsStart names alone
alone-IsStart = record { fresh = λ a. refl; named = λ a. refl; silent = refl }

created : create_rumor_message "a" "a" "hi" (alone.nodes "a").gossip ≡ some (wrote, extended)
unfolding create_rumor_message store_message show_rumor update_status advance next_id lookup insert
created = refl

taken : process_gossip range "rumor" extended (two.nodes "b") ≡ some effects
unfolding process_gossip process_rumor_message handle_gossip_message take_message show_packet
    store_message show_rumor update_status advance next_id lookup insert update_routing_table
    update_last_origin_id
taken = refl

passed : receive_packet false hello ≡ some "rumor"
unfolding receive_packet get_type_from_gossip is_set
passed = refl

unfoldable delivered : Reach range alone (after "b" effects.peer effects.sent two)
unfolding lookup posted
delivered =
    Reach.later
      (Reach.later (Reach.later Reach.start (Step.creates "a" "hi" wrote extended created))
        (Step.mongers "a" "b" "a" 1 hello refl))
      (Step.arrives hello "a" "b" "rumor" effects (here refl) passed taken)

created_once :
    (a : Address) → created_by range a delivered ≡ 0 + (if "a" == a then 1 else 0) + 0 + 0
unfolding created_by made_by delivered
created_once a = refl

few_created : (a : Address) → created_by range a delivered + 1 < 2 ^ 32
few_created a =
    let once = created_once a in
    elim (Bool-cases ("a" == a)) [
      | inl same ↦ omega (arith, once, ap {B = ℕ} (λ b. if b then 1 else 0) same)
      | inr other ↦ omega (arith, once, ap {B = ℕ} (λ b. if b then 1 else 0) other)
    ]

held_agree_example :
    (hello ≡ hello)
    × (key hello ≡ some ("a", 1))
    × (held ((after "b" effects.peer effects.sent two).nodes "a") "a" 1 ≡ some hello)
unfolding lookup
held_agree_example =
    held_agree names (λ a b e. e) range alone (after "b" effects.peer effects.sent two)
      alone-IsStart delivered few_created "b" "a" "a" 1 hello hello refl refl

abbrev first_round : Turn
first_round = record { status_received = false; draw = 1; peers = "a" ∷ "b" ∷ "c" ∷ []; index = 1 }

start_rumor_mongering-Mongers_example :
    (Only "a" ("a" ∷ "b" ∷ "c" ∷ [])
      × (start_rumor_mongering "a" ("a" ∷ "b" ∷ "c" ∷ []) 0 (first_round ∷ []) ≡ []))
    ⊎ ((first : Address) × (member first ("a" ∷ "b" ∷ "c" ∷ []) ≡ true)
        × (first ≢ "a")
        × Mongers first
            (first_round ∷ [])
            (start_rumor_mongering "a" ("a" ∷ "b" ∷ "c" ∷ []) 0 (first_round ∷ [])))
start_rumor_mongering-Mongers_example =
    start_rumor_mongering-Mongers "a" ("a" ∷ "b" ∷ "c" ∷ []) 0 (first_round ∷ [])

-- Round by round: "b" does not answer, and "c" is next.
mongered : start_rumor_mongering "a" ("a" ∷ "b" ∷ "c" ∷ []) 0 (first_round ∷ []) ≡ "b" ∷ "c" ∷ []
unfolding start_rumor_mongering monger draw_peer difference random_peer member
mongered = refl
