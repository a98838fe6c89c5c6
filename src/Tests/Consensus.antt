-- ===== src/Tests/Consensus.antt =====
-- A whole round of `qscRound` at concrete inputs: three peers, of which "b" confirms in each round.
use mathlib.Core.Option
use p2p_dapp.Base.{
  ℕ, ◌+◌, ◌≡◌, refl, true, false, Option, none, some, List, [], ◌∷◌, string_eq, nat_eq, pair_eq,
  lookup, insert, ℤ, pos, minus_one, int_eq, list_eq,
}
use p2p_dapp.Packet.{Bytes, BlockPublish, TlcMessage}
use p2p_dapp.VectorClock.{next_id, advance, update_status, check_if_i_need_peer_status}
use p2p_dapp.GossipHandler.{new_gossip_handler, store_message}
use p2p_dapp.Blockchain.{
  new_blockchain_handler, zero_hash, is_zero, no_message, save_confirmation, save_message_seen,
  note_confirmed, count_if, get_message_original_round, fitter, fittest,
  get_tlc_with_highest_fitness, TlcMessages,
}
use p2p_dapp.Blockchain.Hash.{utf8, bytes_of, little_endian, tx_hash, block_hash}
use p2p_dapp.Blockchain.Consensus.{beaten, reconfirmed, check_if_consensus_reached}
use p2p_dapp.Blockchain.Chain.{name_taken, history_known, is_tx_block_valid, on_top, settle}
use p2p_dapp.Causal.{
  Handling, Handled, check_for_causal_property, take_confirmation, acknowledged, handle_tlc_message,
  reads_nil, panics, unless_panics,
}
use p2p_dapp.Tlc.{
  Setting, Gossiping, Event, tlc_packet, create_tlc_message, send_gossip_with_confirmation,
  get_id_for_confirmations, confirm, check_for_confirmations_majority, deliver, on_ack,
  after_handling, on_event, continue, loop, gossip_with_confirmation,
}
use p2p_dapp.Qsc.{
  Progress, decided, tlc_round, reached, stage, after_stage, next_stage, decide, qsc_round,
}

abbrev framed : Bytes → Bytes
framed x = 1 ∷ x

abbrev block : BlockPublish
block = record {
  prev_hash = zero_hash;
  transaction = record { name = "f"; size = 1; metafile_hash = 9 ∷ [] };
}

abbrev peer : Setting
peer = record { name = "a"; size = 3; range = λ clock. clock; wait_confirmations = true }

abbrev first : TlcMessage
first = record no_message {
  origin = "a";
  id = 1;
  confirmed = minus_one;
  tx_block = block;
  fitness = 5;
}

abbrev start : Gossiping
start = record {
  blockchain = new_blockchain_handler;
  gossip = record new_gossip_handler {
    seq_id = 2;
    message_storage = ("a", (1, tlc_packet first) ∷ []) ∷ [];
    my_status = ("a", 2) ∷ [];
  };
  witnesses = [];
  delivered = false;
  sent = [];
}

abbrev handling : Handling
handling = record {
  name = "a";
  hop_limit = 10;
  modes = record { hw3ex2 = false; hw3ex3 = true; hw3ex4 = true; ack_all = false };
  clock = [];
  order = [];
  fuel = 3;
}

-- What "b" sends: its message of the round, and its confirmation of it.
abbrev of_b : ℕ → ℤ → TlcMessage
of_b id confirmed = record no_message {
  origin = "b";
  id = id;
  confirmed = confirmed;
  tx_block = block;
  vector_clock = some (record { want = [] });
  fitness = 3;
}

abbrev acked : ℕ → Event
acked id =
    Event.ack (record { origin = "b"; id = id; text = ""; destination = "a"; hop_limit = 10 })

abbrev round_events : ℕ → ℕ → List Event
round_events mine id =
    Event.handled handling (of_b id minus_one)
    ∷ acked mine
    ∷ Event.handled handling (of_b (id + 1) (pos id))
    ∷ Event.confirmation
    ∷ []

abbrev range : ℕ → TlcMessages → TlcMessages
range n messages = messages

abbrev run : Option Progress
run =
    qsc_round framed 10 peer range first (round_events 1 1) (round_events 3 3) (round_events 5 5)
      start

abbrev result : Progress
result = elim run [ none ↦ Progress.no_round start | some r ↦ r ]

runs : (run ≡ some result) × (Option.map (λ m. m.tx_block) (decided result) ≡ some block)
unfolding qsc_round stage tlc_round reached next_stage after_stage decide gossip_with_confirmation
    loop continue on_event panics after_handling on_ack deliver check_for_confirmations_majority
    confirm send_gossip_with_confirmation get_id_for_confirmations create_tlc_message store_message
    update_status advance next_id handle_tlc_message reads_nil unless_panics take_confirmation
    acknowledged check_for_causal_property check_if_i_need_peer_status get_message_original_round
    count_if note_confirmed save_confirmation save_message_seen is_tx_block_valid name_taken
    history_known is_zero zero_hash get_tlc_with_highest_fitness fittest fitter
    check_if_consensus_reached beaten reconfirmed settle on_top block_hash tx_hash bytes_of utf8
    little_endian lookup insert
runs = (refl, refl)

-- The message of "b", on top of a block that "a" does not know: "a" does not acknowledge it, but
-- takes its confirmation.
abbrev unknown_block : ℕ → ℤ → TlcMessage
unknown_block id confirmed = record (of_b id confirmed) {
  tx_block = record block { prev_hash = 7 ∷ [] };
}

abbrev unseen_events : ℕ → ℕ → List Event
unseen_events mine id =
    Event.handled handling (unknown_block id minus_one)
    ∷ acked mine
    ∷ Event.handled handling (unknown_block (id + 1) (pos id))
    ∷ Event.confirmation
    ∷ []

unseen_blocks_panic :
    qsc_round framed 10 peer range first
      (unseen_events 1 1)
      (unseen_events 3 3)
      (unseen_events 5 5)
      start
    ≡ none
unfolding qsc_round stage tlc_round reached next_stage after_stage decide gossip_with_confirmation
    loop continue on_event panics after_handling on_ack deliver check_for_confirmations_majority
    confirm send_gossip_with_confirmation get_id_for_confirmations create_tlc_message store_message
    update_status advance next_id handle_tlc_message reads_nil unless_panics take_confirmation
    acknowledged check_for_causal_property check_if_i_need_peer_status get_message_original_round
    count_if note_confirmed save_confirmation save_message_seen is_tx_block_valid name_taken
    history_known is_zero zero_hash get_tlc_with_highest_fitness fittest fitter
    check_if_consensus_reached beaten reconfirmed settle on_top block_hash tx_hash bytes_of utf8
    little_endian lookup insert
unseen_blocks_panic = refl

head_of : Bytes → ℕ
head_of [] = 0
head_of (x ∷ xs) = x

abbrev idle : Handled
idle = record {
  blockchain = new_blockchain_handler;
  ack = none;
  sends_status = false;
  confirms = false;
  again = false;
}

abbrev outcome : TlcMessage → Handled
outcome m = elim (handle_tlc_message handling m new_blockchain_handler) [ none ↦ idle | some h ↦ h ]
