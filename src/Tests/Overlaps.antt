-- ===== src/Tests/Overlaps.antt =====
-- Two peers that end a round, at concrete inputs.
use p2p_dapp.Base.{
  String, ◌≡◌, refl, Bool, true, false, Option, none, some, List, [], ◌∷◌, arith, string_eq, nat_eq,
  pair_eq, lookup, insert, pos, int_eq, list_eq, In, here, there,
}
use p2p_dapp.Packet.{PrivateMessage, TlcMessage}
use p2p_dapp.GossipHandler.{new_gossip_handler, store_message}
use p2p_dapp.VectorClock.{update_status, next_id, advance, check_if_i_need_peer_status}
use p2p_dapp.Blockchain.{
  save_confirmation, note_confirmed, get_message_original_round, new_blockchain_handler, no_message,
  of_round,
}
use p2p_dapp.Causal.{Handling, handle_tlc_message, reads_nil, panics, unless_panics}
use p2p_dapp.Tlc.{Setting, Gossiping, Event, gossip_with_confirmation}
use p2p_dapp.Tlc.Confirmations.{Known}
use p2p_dapp.Tlc.Overlap.{Joins, rounds_overlap}

abbrev names : List String
names = "a" ∷ "b" ∷ "c" ∷ []

abbrev setting : String → Setting
setting name = record { name = name; size = 3; range = λ clock. clock; wait_confirmations = true }

abbrev message : String → TlcMessage
message name = record no_message { origin = name; id = 7 }

abbrev reply : PrivateMessage
reply = record { origin = "c"; id = 7; text = ""; destination = "a"; hop_limit = 10 }

abbrev handling : String → Handling
handling name = record {
  name = name;
  hop_limit = 10;
  modes = record { hw3ex2 = false; hw3ex3 = true; hw3ex4 = false; ack_all = false };
  clock = [];
  order = [];
  fuel = 1;
}

-- An acknowledgement, the confirmation of the peer "c", and a check.
abbrev events : String → List Event
events name =
    Event.ack reply
    ∷ Event.handled (handling name) (record no_message {
      origin = "c";
      id = 8;
      confirmed = pos 7;
      vector_clock = some (record { want = [] });
    })
    ∷ Event.confirmation
    ∷ []

abbrev fresh : Gossiping
fresh = record {
  blockchain = new_blockchain_handler;
  gossip = new_gossip_handler;
  witnesses = [];
  delivered = false;
  sent = [];
}

abbrev outcome : String → Option (Gossiping × Bool)
outcome name = gossip_with_confirmation 10 (setting name) (message name) (events name) fresh

abbrev end_of : Option (Gossiping × Bool) → Gossiping
end_of none = fresh
end_of (some r) = r.0

fresh-Known : Known names fresh.blockchain
unfolding lookup
fresh-Known r = record { distinct = tt; known = λ o i. elim i [ ] }

a-Joins : Joins names (setting "a") (events "a") fresh
a-Joins = record {
  size = refl;
  member = here refl;
  waits = refl;
  known = fresh-Known;
  from = (there (there (here refl)), tt);
}

b-Joins : Joins names (setting "b") (events "b") fresh
b-Joins = record {
  size = refl;
  member = there (here refl);
  waits = refl;
  known = fresh-Known;
  from = (there (there (here refl)), tt);
}

run_a-over : outcome "a" ≡ some (end_of (outcome "a"), true)
unfolding gossip_with_confirmation lookup insert store_message update_status next_id advance
    handle_tlc_message reads_nil panics unless_panics check_if_i_need_peer_status save_confirmation
    note_confirmed get_message_original_round
run_a-over = refl

run_b-over : outcome "b" ≡ some (end_of (outcome "b"), true)
unfolding gossip_with_confirmation lookup insert store_message update_status next_id advance
    handle_tlc_message reads_nil panics unless_panics check_if_i_need_peer_status save_confirmation
    note_confirmed get_message_original_round
run_b-over = refl

rounds_overlap_example :
    (o : String) × (m : TlcMessage) × (m' : TlcMessage) × In o names
    × (lookup o (of_round 0 (end_of (outcome "a")).blockchain.confirmations) ≡ some m)
    × (lookup o (of_round 0 (end_of (outcome "b")).blockchain.confirmations) ≡ some m')
rounds_overlap_example =
    rounds_overlap names 10 (setting "a") (setting "b") (message "a") (message "b") (events "a")
      (events "b") fresh (end_of (outcome "a")) fresh (end_of (outcome "b")) (omega arith) a-Joins
      b-Joins refl run_a-over run_b-over
