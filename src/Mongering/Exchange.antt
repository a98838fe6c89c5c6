-- ===== src/Mongering/Exchange.antt =====
-- Exchanges between two peers, with the handlers of both: one sends its status, the other answers it
-- with the message that it lacks, and it takes that message.
pub mod Round
pub mod CatchUp
pub mod BothWays
pub mod Progress
pub mod Covered
use mathlib.Core.Option
use p2p_dapp.Base.{
  ℕ, zero, suc, false, Option, none, some, [], ◌∷◌, if◌then◌else◌, ◌==◌, string_eq, nat_eq, pair_eq,
  int_eq, list_eq,
}
use p2p_dapp.Packet.{GossipPacket, ExtendedGossipPacket}
use p2p_dapp.VectorClock.{VectorClock}
use p2p_dapp.Dispatch.{receive_packet}
use p2p_dapp.Gossiper.{Gossiper, Sent}
use p2p_dapp.Mongering.{
  Effects, my_status_packet, handle_peer_status, process_rumor_message, process_tlc_message,
}

module _ (range : VectorClock → VectorClock) where
  -- What the peer does with the packet that answers its status; a status in return is not followed.
  unfoldable pub take_answer : ExtendedGossipPacket → Gossiper → Option Gossiper
  take_answer e h = elim (receive_packet false e.packet) [
    | none ↦ some h
    | some t ↦
        if t == "rumor"
        then Option.map (λ (r : Effects). r.peer) (process_rumor_message range e h)
        else if t == "tlcMes"
        then Option.map (λ (r : Effects). r.peer) (process_tlc_message range e h)
        else some h
  ]

  unfoldable pub take_answers : Sent → Gossiper → Gossiper → Option Gossiper
  unfolding take_answer
  take_answers [] g h = some h
  take_answers ((p, to) ∷ sent) g h =
      elim (take_answer (record { packet = p; sender_addr = g.address }) h) [
        | none ↦ none
        | some h' ↦ take_answers sent g h'
      ]

  -- One exchange: the peer h sends its status to g, as a round of the anti-entropy does.
  unfoldable pub exchange : Gossiper × Gossiper → Option (Gossiper × Gossiper)
  unfolding take_answers
  exchange (g, h) =
      elim (handle_peer_status range
        (record { packet = my_status_packet range h; sender_addr = h.address }) g) [
          | none ↦ none
          | some r ↦ Option.map (λ h'. (r.peer, h')) (take_answers r.sent g h)
        ]

  unfoldable pub exchanges : ℕ → Gossiper × Gossiper → Option (Gossiper × Gossiper)
  exchanges zero s = some s
  exchanges (suc n) s = elim (exchange s) [ none ↦ none | some s' ↦ exchanges n s' ]
