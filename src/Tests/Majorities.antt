-- ===== src/Tests/Majorities.antt =====
-- The loop of `gossipWithConfirmation` at a concrete input: one acknowledgement, then the
-- confirmation of the peer itself.
use p2p_dapp.Base.{
  ◌+◌, ◌%◌, ◌^◌, ◌≡◌, refl, Bool, true, false, ◌||◌, some, List, [], ◌∷◌, arith, if◌then◌else◌,
  string_eq, nat_eq, pair_eq, lookup, length, int_eq, list_eq,
}
use p2p_dapp.Packet.{PrivateMessage, TlcMessage}
use p2p_dapp.GossipHandler.{new_gossip_handler}
use p2p_dapp.Blockchain.{new_blockchain_handler, no_message}
use p2p_dapp.Tlc.{Setting, Gossiping, Event, gossip_with_confirmation}
use p2p_dapp.Tlc.Majority.{gossip_with_confirmation_once}
use p2p_dapp.Tests.Clocks.{new-IsConsistent}

abbrev setting : Setting
setting = record { name = "a"; size = 3; range = λ clock. clock; wait_confirmations = true }

abbrev message : TlcMessage
message = record no_message { origin = "a"; id = 7 }

abbrev reply : PrivateMessage
reply = record { origin = "b"; id = 7; text = ""; destination = "a"; hop_limit = 10 }

abbrev events : List Event
events = Event.ack reply ∷ Event.confirmation ∷ []

abbrev fresh : Gossiping
fresh = record {
  blockchain = new_blockchain_handler;
  gossip = new_gossip_handler;
  witnesses = [];
  delivered = false;
  sent = [];
}

gossip_with_confirmation_once_example :
    (s' : Gossiping) × (over : Bool) × (gossip_with_confirmation 10 setting message events fresh
      ≡ some (s', over))
    × (length s'.sent ≡ (if over || s'.delivered then 1 else 0))
    × (s'.blockchain.my_time ≡ (if over then (0 + 1) % 2 ^ 32 else 0))
unfolding lookup
gossip_with_confirmation_once_example =
    gossip_with_confirmation_once setting message events fresh 10 refl (omega arith) tt
      new-IsConsistent (omega arith)
