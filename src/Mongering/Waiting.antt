-- ===== src/Mongering/Waiting.antt =====
-- `sendRumorWithTimeout` of gossiper/rumormongering.go: the listener that waits for the status of the
-- peer that a message was sent to.
pub mod Channels
pub mod Loop
pub mod Answered
pub mod Taken
use mathlib.Core.Option
use p2p_dapp.Base.{
  ℕ, String, Bool, true, false, Option, none, some, List, [], ◌∷◌, map, ltb, if◌then◌else◌,
  string_eq, nat_eq, pair_eq, lookup, int_eq, list_eq,
}
use p2p_dapp.Packet.{Address, StatusPacket, ExtendedGossipPacket}
use p2p_dapp.GossipHandler.{
  GossipHandler, listeners_of, get_listener_for_status, delete_listener_for_status,
  notify_listeners_for_status,
}
use p2p_dapp.Gossiper.{Sent}

-- The notifications in the channel of a listener, where there is one.
abbrev pub pending_of : Address → String × ℕ → GossipHandler → Option ℕ
pending_of peer key h = lookup key (listeners_of peer h)

-- What comes while a goroutine waits: a status from an address, or the tick of its timer.
pub data Arrival : Type 0 where
  got_status : Address → StatusPacket → Arrival
  timeout : Arrival

-- The channel of the listener has a notification to receive.
abbrev pub is_notified : Address → String × ℕ → GossipHandler → Bool
is_notified peer key h = elim (pending_of peer key h) [ none ↦ false | some n ↦ ltb 0 n ]

-- The loop of `select`: a notification is received as soon as there is one. `none` is a wait that is
-- not over.
unfoldable pub wait_for_status :
    String → ℕ → Address → List Arrival → GossipHandler → Option (GossipHandler × Bool)
unfolding notify_listeners_for_status
wait_for_status origin id peer [] h =
    if is_notified peer (origin, id) h then some (h, true) else none
wait_for_status origin id peer (timeout ∷ arrivals) h = some (h, is_notified peer (origin, id) h)
wait_for_status origin id peer (got_status sender s ∷ arrivals) h =
    let rest = wait_for_status origin id peer arrivals (notify_listeners_for_status sender s h) in
    if is_notified peer (origin, id) h then some (h, true) else rest

-- The packet is sent once the listener is there, and the listener goes with what its channel holds.
unfoldable pub send_rumor_with_timeout :
    ExtendedGossipPacket
    → String
    → ℕ
    → Address
    → List Arrival
    → GossipHandler
    → Sent × Option (GossipHandler × Bool)
unfolding get_listener_for_status delete_listener_for_status wait_for_status
send_rumor_with_timeout e origin id peer arrivals h = (
  (e.packet, peer) ∷ [],
  Option.map (λ r. (delete_listener_for_status origin id peer r.0, r.1))
      (wait_for_status origin id peer arrivals (get_listener_for_status origin id peer h).0),
)
