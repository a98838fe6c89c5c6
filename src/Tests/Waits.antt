-- ===== src/Tests/Waits.antt =====
-- A rumor that is mongered, and the wait for the status of the peer, at concrete inputs.
use p2p_dapp.Base.{
  ◌++◌, ℕ, ◌≤◌, String, ◌≡◌, refl, ◌≢◌, ◌↔◌, Bool, true, false, none, some, List, [], ◌∷◌, arith,
  string_eq, nat_eq, pair_eq, lookup, insert, delete, int_eq, list_eq,
}
use p2p_dapp.Packet.{Address, StatusPacket, ExtendedGossipPacket, RumorMessage}
use p2p_dapp.VectorClock.{next_id}
use p2p_dapp.GossipHandler.{
  GossipHandler, new_gossip_handler, notify_listeners_for_status, notify_all, notifications,
  get_listener_for_status, delete_listener_for_status,
}
use p2p_dapp.Mongering.{Effects, status_packet, process_rumor_message}
use p2p_dapp.Mongering.Exchange.Round.{SameGossip}
use p2p_dapp.Mongering.Waiting.{pending_of, wait_for_status, send_rumor_with_timeout}
use p2p_dapp.Mongering.Waiting.Loop.{in_time, Answered}
use p2p_dapp.Mongering.Waiting.Answered.{send_rumor_with_timeout_lem}
use p2p_dapp.Mongering.Waiting.Taken.{rumor_answered}
use p2p_dapp.Tests.Exchanges.{each_once, each_once-Ranges, new_peer}
use p2p_dapp.Tests.Clocks.{hello, new-IsConsistent}

abbrev extended : ExtendedGossipPacket
extended = record { packet = hello; sender_addr = "a" }

abbrev status_of : String → ℕ → StatusPacket
status_of origin id = record { want = record { identifier = origin; next_id = id } ∷ [] }

-- The peer "c" has the message, and the peer "b" has not when the timer stops the wait.
abbrev statuses : List (Address × StatusPacket)
statuses = ("c", status_of "a" 2) ∷ ("b", status_of "a" 1) ∷ []

unanswered :
    (send_rumor_with_timeout extended "a" 1 "b" (in_time statuses []) new_gossip_handler).1
    ≡ some (record new_gossip_handler { mongering_channels = ("b", []) ∷ [] }, false)
unfolding send_rumor_with_timeout wait_for_status notify_listeners_for_status notify_all
    notifications get_listener_for_status delete_listener_for_status lookup insert delete
unanswered = refl

answered :
    (send_rumor_with_timeout extended "a" 1 "c" (in_time statuses []) new_gossip_handler).1
    ≡ some (record new_gossip_handler { mongering_channels = ("c", []) ∷ [] }, true)
unfolding send_rumor_with_timeout wait_for_status notify_listeners_for_status notify_all
    notifications get_listener_for_status delete_listener_for_status lookup insert delete
answered = refl

send_rumor_with_timeout_lem_example :
    (left : GossipHandler) × (answered : Bool) × (send_rumor_with_timeout extended "a" 1 "c"
        (in_time statuses [])
        new_gossip_handler
      ≡ ((hello, "c") ∷ [], some (left, answered)))
    × ((answered ≡ true) ↔ Answered "c" "a" 1 statuses)
    × (pending_of "c" ("a", 1) left ≡ none)
    × SameGossip new_gossip_handler left
    × ((q : Address) (key : String × ℕ) (n : ℕ)
        → ◌≢◌ {A = Address × (String × ℕ)} (q, key) ("c", ("a", 1))
        → pending_of q key new_gossip_handler ≡ some n
        → (m : ℕ) × (pending_of q key left ≡ some m) × (n ≤ m))
unfolding lookup
send_rumor_with_timeout_lem_example =
    send_rumor_with_timeout_lem extended "a" 1 "c" statuses [] new_gossip_handler refl

abbrev hello_rumor : RumorMessage
hello_rumor = record { origin = "a"; id = 1; text = "hello" }

rumor_answered_example :
    (f : Effects) × (s : StatusPacket) × (left : GossipHandler) × (process_rumor_message each_once
        extended new_peer
      ≡ some f)
    × (f.sent ≡ (status_packet s, "a") ∷ [])
    × (send_rumor_with_timeout extended "a" 1 "b"
          (in_time (statuses ++ ("b", s) ∷ []) [])
          new_gossip_handler
        ≡ ((hello, "b") ∷ [], some (left, true)))
unfolding lookup next_id
rumor_answered_example =
    rumor_answered each_once extended hello_rumor new_peer statuses [] [] new_gossip_handler
      each_once-Ranges refl refl new-IsConsistent (omega arith) (omega arith) (omega arith) refl
