-- ===== src/Tests/Deciding.antt =====
-- The consensus of two peers after the messages that they have handled, at concrete inputs.
use p2p_dapp.Base.{
  ℕ, ◌+◌, String, ◌≡◌, refl, inr, true, false, some, [], ◌∷◌, string_eq, nat_eq, pair_eq, lookup,
  insert, ℤ, pos, minus_one, int_eq, list_eq,
}
use p2p_dapp.Packet.{Bytes, BlockPublish, TlcMessage}
use p2p_dapp.VectorClock.{check_if_i_need_peer_status}
use p2p_dapp.Blockchain.{
  new_blockchain_handler, BlockchainHandler, TlcMessages, of_round, zero_hash, is_zero,
  save_confirmation, save_message_seen, note_confirmed, count_if, get_message_original_round,
  fitter, fittest,
}
use p2p_dapp.Blockchain.Hash.{utf8, bytes_of, little_endian, tx_hash, block_hash}
use p2p_dapp.Blockchain.Consensus.{
  SameBlock, beaten, reconfirmed, check_if_consensus_reached, View, consensus_unique,
}
use p2p_dapp.Blockchain.Chain.{name_taken, history_known, is_tx_block_valid}
use p2p_dapp.Causal.{
  Handling, check_for_causal_property, take_confirmation, acknowledged, handle_tlc_message,
  reads_nil, panics, unless_panics,
}
use p2p_dapp.Tlc.{after_handling}

abbrev framed : Bytes → Bytes
framed x = 1 ∷ x

abbrev block_of : String → BlockPublish
block_of name = record {
  prev_hash = zero_hash;
  transaction = record { name = name; size = 1; metafile_hash = 9 ∷ [] };
}

abbrev handling : Handling
handling = record {
  name = "c";
  hop_limit = 10;
  modes = record { hw3ex2 = false; hw3ex3 = true; hw3ex4 = true; ack_all = false };
  clock = [];
  order = [];
  fuel = 3;
}

abbrev message_of : String → String → ℕ → ℤ → ℕ → TlcMessage
message_of origin file id confirmed fitness = record {
  origin = origin;
  id = id;
  confirmed = confirmed;
  tx_block = block_of file;
  vector_clock = some (record { want = [] });
  fitness = fitness;
}

-- A message of a peer in a round, and then its confirmation, are handled.
abbrev heard : String → String → ℕ → ℕ → BlockchainHandler → BlockchainHandler
heard origin file id fitness b =
    after_handling handling (message_of origin file (id + 1) (pos id) fitness)
      (after_handling handling (message_of origin file id minus_one fitness) b)

-- The first peer hears of "a" in two rounds, the second one of "b" as well, which is less fit.
abbrev one : BlockchainHandler
one = heard "a" "f" 3 5 (heard "a" "f" 1 5 new_blockchain_handler)

abbrev other : BlockchainHandler
other = heard "a" "f" 3 5 (heard "b" "g" 1 3 (heard "a" "f" 1 5 new_blockchain_handler))

abbrev decision : TlcMessage
decision = message_of "a" "f" 2 (pos 1) 5

abbrev seen_in : BlockchainHandler → TlcMessages
seen_in b = of_round 0 b.message_seen

decisions :
    (check_if_consensus_reached framed
        (of_round 0 one.confirmations)
        (of_round 1 one.confirmations)
        0
        one
      ≡ some (some decision))
    × (check_if_consensus_reached framed
          (of_round 0 other.confirmations)
          (of_round 1 other.confirmations)
          0
          other
        ≡ some (some decision))
unfolding handle_tlc_message reads_nil panics unless_panics take_confirmation acknowledged
    check_for_causal_property check_if_i_need_peer_status get_message_original_round count_if
    note_confirmed save_confirmation save_message_seen is_tx_block_valid name_taken history_known
    is_zero zero_hash fittest fitter check_if_consensus_reached beaten reconfirmed block_hash
    tx_hash bytes_of utf8 little_endian after_handling lookup insert
decisions = (refl, refl)

one_view : View 0 one
unfolding handle_tlc_message reads_nil panics unless_panics take_confirmation acknowledged
    check_for_causal_property check_if_i_need_peer_status get_message_original_round count_if
    note_confirmed save_confirmation save_message_seen is_tx_block_valid name_taken history_known
    is_zero zero_hash fittest fitter check_if_consensus_reached beaten reconfirmed block_hash
    tx_hash bytes_of utf8 little_endian after_handling lookup insert
one_view = record {
  order = of_round 0 one.confirmations;
  order1 = of_round 1 one.confirmations;
  seen = seen_in one;
  ranges = record { sound = (refl, tt); complete = λ k. refl };
  ranges1 = record { sound = (refl, tt); complete = λ k. refl };
  seen_ranges = record { sound = (refl, tt); complete = λ k. refl };
  saw = refl;
}

other_view : View 0 other
unfolding handle_tlc_message reads_nil panics unless_panics take_confirmation acknowledged
    check_for_causal_property check_if_i_need_peer_status get_message_original_round count_if
    note_confirmed save_confirmation save_message_seen is_tx_block_valid name_taken history_known
    is_zero zero_hash fittest fitter check_if_consensus_reached beaten reconfirmed block_hash
    tx_hash bytes_of utf8 little_endian after_handling lookup insert
other_view = record {
  order = of_round 0 other.confirmations;
  order1 = of_round 1 other.confirmations;
  seen = seen_in other;
  ranges = record { sound = (refl, (refl, tt)); complete = λ k. refl };
  ranges1 = record { sound = (refl, tt); complete = λ k. refl };
  seen_ranges = record { sound = (refl, (refl, tt)); complete = λ k. refl };
  saw = refl;
}

consensus_unique_example : SameBlock framed decision decision
unfolding one_view other_view handle_tlc_message reads_nil panics unless_panics take_confirmation
    acknowledged check_for_causal_property check_if_i_need_peer_status get_message_original_round
    count_if note_confirmed save_confirmation save_message_seen is_tx_block_valid name_taken
    history_known is_zero zero_hash fittest fitter check_if_consensus_reached beaten reconfirmed
    block_hash tx_hash bytes_of utf8 little_endian after_handling lookup insert
consensus_unique_example =
    consensus_unique framed 0 one other one_view other_view decision decision decisions.0
      decisions.1 (inr ("a", message_of "a" "f" 1 minus_one 5, refl, refl, refl))
      (inr ("a", message_of "a" "f" 1 minus_one 5, refl, refl, refl)) (λ e. refl)
