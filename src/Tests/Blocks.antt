-- ===== src/Tests/Blocks.antt =====
-- Blocks, chains and consensus at concrete inputs. The hash keeps its input: no two inputs collide.
use mathlib.Core.List.{reverse}
use p2p_dapp.Base.{
  ◌↔◌, ℕ, ◌≤◌, ◌<◌, String, ◌≡◌, refl, ap, ◌≢◌, ◌⊎◌, true, none, some, List, [], ◌∷◌, map, arith,
  string_eq, nat_eq, pair_eq, lookup, length, int_eq, Ranges, list_eq,
}
use p2p_dapp.Packet.{Bytes, BlockPublish, TlcMessage, TxPublish}
use p2p_dapp.Blockchain.{
  TlcMessages, BlockchainHandler, new_blockchain_handler, zero_hash, is_zero, no_message, fitter,
  fittest, get_tlc_with_highest_fitness,
}
use p2p_dapp.Blockchain.Hash.{utf8, bytes_of, little_endian, tx_hash, block_hash}
use p2p_dapp.Blockchain.Fitness.{highest_fitness}
use p2p_dapp.Blockchain.Consensus.{
  beaten, reconfirmed, check_if_consensus_reached, Agreed, check_if_consensus_reached_iff,
}
use p2p_dapp.Blockchain.Chain.{
  History, Chain, Fresh, name_taken, history_known, is_tx_block_valid, is_tx_block_valid_iff,
  on_top, settle, settle-Chain, filenames, get_blockchain, name_of, printed_names,
  get_blockchain_loops,
}

abbrev whole : Bytes → Bytes
whole x = x

abbrev transaction : String → TxPublish
transaction name = record { name = name; size = 1; metafile_hash = 9 ∷ [] }

abbrev first : BlockPublish
first = record { prev_hash = zero_hash; transaction = transaction "f" }

abbrev second : BlockPublish
second = record { prev_hash = 1 ∷ []; transaction = transaction "g" }

abbrev third : BlockPublish
third = record { prev_hash = 2 ∷ []; transaction = transaction "h" }

abbrev history : History
history = (1 ∷ [], first) ∷ (2 ∷ [], second) ∷ []

abbrev message : TlcMessage
message = record no_message { origin = "a"; id = 1; tx_block = third; fitness = 5 }

abbrev confirmed : TlcMessages
confirmed = ("a", message) ∷ []

abbrev handler : BlockchainHandler
handler = record new_blockchain_handler {
  message_seen = (0, confirmed) ∷ [];
  committed_history = history;
  top_blockchain_hash = 2 ∷ [];
}

one-nonzero : (k : ℕ) → (k ∷ []) ≢ zero_hash
unfolding zero_hash
one-nonzero k e = let q : ◌≡◌ {A = ℕ} 1 32 = ap length e in absurd (omega arith)

history-Chain : Chain history (2 ∷ []) (second ∷ first ∷ [])
unfolding lookup
history-Chain = (one-nonzero 2, refl, (one-nonzero 1, refl, refl))

history-Ranges : Ranges history history
unfolding lookup
history-Ranges = record { sound = (refl, (refl, tt)); complete = λ k. refl }

confirmed-Ranges : Ranges confirmed confirmed
unfolding lookup
confirmed-Ranges = record { sound = (refl, tt); complete = λ k. refl }

decided : check_if_consensus_reached whole confirmed confirmed 0 handler ≡ some (some message)
unfolding check_if_consensus_reached fittest fitter beaten reconfirmed block_hash tx_hash bytes_of
    utf8 little_endian lookup
decided = refl

highest_fitness_example :
    let best = get_tlc_with_highest_fitness confirmed in
    ((o : String) (m : TlcMessage) → lookup o confirmed ≡ some m → m.fitness ≤ best.fitness)
    × ((best ≡ no_message) ⊎ ((o : String) × (lookup o confirmed ≡ some best) × (0 < best.fitness)))
highest_fitness_example = highest_fitness confirmed confirmed confirmed-Ranges

check_if_consensus_reached_iff_example :
    (check_if_consensus_reached whole confirmed confirmed 0 handler ≡ some (some message)) ↔ (
      (message ≡ get_tlc_with_highest_fitness confirmed)
      × Agreed whole confirmed confirmed confirmed message)
unfolding lookup
check_if_consensus_reached_iff_example =
    check_if_consensus_reached_iff whole confirmed-Ranges confirmed-Ranges confirmed-Ranges 0
      handler refl message

is_tx_block_valid_iff_example :
    ((fuel : ℕ) × (is_tx_block_valid fuel history third handler ≡ some true))
    ↔ (Fresh "h" history × ((bs : List BlockPublish) × Chain history (2 ∷ []) bs))
is_tx_block_valid_iff_example = is_tx_block_valid_iff history third handler history-Ranges

third_valid : is_tx_block_valid 3 history third handler ≡ some true
unfolding is_tx_block_valid name_taken history_known lookup is_zero zero_hash
third_valid = refl

settle-Chain_example :
    let b' = settle whole (some message) no_message handler in
    Chain b'.committed_history b'.top_blockchain_hash
      (on_top whole third handler ∷ second ∷ first ∷ [])
unfolding on_top lookup block_hash tx_hash bytes_of utf8 little_endian zero_hash
settle-Chain_example =
    settle-Chain whole handler message no_message (second ∷ first ∷ []) history-Chain
      (λ e. let q : ◌≡◌ {A = ℕ} 7 32 = ap length e in absurd (omega arith)) (λ old f. absurd (cc))

printed_names_example :
    filenames 3 (2 ∷ []) [] history ≡ some (some (reverse (map name_of (second ∷ first ∷ []))))
printed_names_example = printed_names handler (second ∷ first ∷ []) history-Chain

get_blockchain_loops_example : get_blockchain 1000 handler ≡ none
get_blockchain_loops_example =
    get_blockchain_loops handler (second ∷ first ∷ []) history-Chain (omega arith) 1000
