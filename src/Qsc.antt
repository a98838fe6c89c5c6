-- ===== src/Qsc.antt =====
-- `tlcRound` of gossiper/tlc.go and `qscRound` of gossiper/qsc.go: three rounds of gossip with
-- confirmation, and then the consensus. The events that come in each round are arguments.
pub mod Ledger
pub mod Total
pub mod Staged
pub mod Round
use mathlib.Core.Option
use p2p_dapp.Base.{
  ℕ, ◌+◌, ◌%◌, ◌^◌, Bool, true, false, not, ◌&&◌, Option, none, some, List, map, if◌then◌else◌,
  string_eq, nat_eq, pair_eq, lookup, minus_one, int_eq, list_eq,
}
use p2p_dapp.Packet.{Bytes, BlockPublish, TlcMessage}
use p2p_dapp.GossipHandler.{GossipHandler}
use p2p_dapp.Blockchain.{TlcMessages, BlockchainHandler, of_round, get_tlc_with_highest_fitness}
use p2p_dapp.Blockchain.Consensus.{check_if_consensus_reached}
use p2p_dapp.Blockchain.Chain.{settle}
use p2p_dapp.Causal.{Modes}
use p2p_dapp.Files.{FileMetadata}
use p2p_dapp.Tlc.{Setting, Gossiping, Event, create_tlc_message, gossip_with_confirmation}

-- `tlcRound`
unfoldable pub tlc_round :
    ℕ → Setting → TlcMessage → List Event → Gossiping → Option (Gossiping × Bool)
tlc_round stubborn_timeout p =
    gossip_with_confirmation stubborn_timeout (record p { wait_confirmations = true })

-- A round that still waits, one that has left no confirmations, and one that has left some.
pub data Stage : Type 0 where
  waiting : Gossiping → Stage
  unconfirmed : Gossiping → Stage
  confirmed : Gossiping → TlcMessages → Stage

-- The confirmations of a round, once the round is over.
unfoldable pub reached : ℕ → Gossiping × Bool → Stage
reached round (s, false) = Stage.waiting s
reached round (s, true) = elim (lookup round s.blockchain.confirmations) [
  | none ↦ Stage.unconfirmed s
  | some messages ↦ Stage.confirmed s messages
]

unfoldable pub stage : ℕ → Setting → ℕ → TlcMessage → List Event → Gossiping → Option Stage
unfolding tlc_round reached
stage stubborn_timeout p round m events s =
    Option.map (reached round) (tlc_round stubborn_timeout p m events s)

-- Where `qscRound` is: it waits in one of its rounds, it has returned because a round has left no
-- confirmations, or it has ended with the message that is agreed on, if there is one.
pub data Progress : Type 0 where
  waits : Gossiping → Progress
  no_round : Gossiping → Progress
  ended : Gossiping → Option TlcMessage → Progress

-- What is agreed on at the end, and where the peer then is.
abbrev pub decided : Progress → Option TlcMessage
decided (Progress.waits s) = none
decided (Progress.no_round s) = none
decided (Progress.ended s consensus) = consensus

abbrev pub state : Progress → Gossiping
state (Progress.waits s) = s
state (Progress.no_round s) = s
state (Progress.ended s consensus) = s

unfoldable pub after_stage :
    Option Stage → (Gossiping → TlcMessages → Option Progress) → Option Progress
after_stage none rest = none
after_stage (some (Stage.waiting s)) rest = some (Progress.waits s)
after_stage (some (Stage.unconfirmed s)) rest = some (Progress.no_round s)
after_stage (some (Stage.confirmed s messages)) rest = rest s messages

-- A message with the block and the fitness of another begins the next round.
unfoldable pub next_stage : ℕ → Setting → ℕ → TlcMessage → List Event → Gossiping → Option Stage
unfolding stage
next_stage stubborn_timeout p round highest events s =
    elim (create_tlc_message p highest.tx_block minus_one highest.fitness s.gossip) [
      | none ↦ none
      | some (g, m) ↦ stage stubborn_timeout p round m events (record s { gossip = g })
    ]

-- `createAndPublishTxBlock` with the fitness that is drawn: the peer, the message, and whether it is
-- gossiped at once instead of queued for a round.
unfoldable pub create_and_publish_tx_block :
    Setting → Modes → FileMetadata → ℕ → Gossiping → Option (Gossiping × TlcMessage × Bool)
create_and_publish_tx_block p modes file fitness s =
    let block : BlockPublish = record {
      prev_hash = s.blockchain.previous_block_hash;
      transaction = record {
        name = file.file_name;
        size = file.size;
        metafile_hash = file.metafile_hash;
      };
    } in
    Option.map
      (λ r. (record s { gossip = r.0 }, r.1, modes.hw3ex2 && not modes.hw3ex3 && not modes.hw3ex4))
      (create_tlc_message p block minus_one fitness s.gossip)

module _ (sha256 : Bytes → Bytes) where
  -- The end of `qscRound`. The confirmations are the maps as they are then: the peer keeps the
  -- maps that it has loaded. `range` gives the order of its nth range over a map.
  unfoldable pub decide :
      (ℕ → TlcMessages → TlcMessages) → ℕ → TlcMessage → Gossiping → Option Progress
  decide range round highest s =
      Option.map
        (λ consensus.
          Progress.ended (record s { blockchain = settle sha256 consensus highest s.blockchain })
            consensus)
        (check_if_consensus_reached sha256 (range 2 (of_round round s.blockchain.confirmations))
          (range 3 (of_round ((round + 1) % 2 ^ 32) s.blockchain.confirmations)) round s.blockchain)

  -- `qscRound`; `none` is the endless update of the clock, or the panic of the consensus.
  unfoldable pub qsc_round :
      ℕ
      → Setting
      → (ℕ → TlcMessages → TlcMessages)
      → TlcMessage
      → List Event
      → List Event
      → List Event
      → Gossiping
      → Option Progress
  unfolding stage after_stage next_stage decide
  qsc_round stubborn_timeout p range m events events1 events2 s =
      let round = s.blockchain.my_time in
      after_stage (stage stubborn_timeout p round m events s) (λ s1 messages.
        after_stage
          (next_stage stubborn_timeout p ((round + 1) % 2 ^ 32)
            (get_tlc_with_highest_fitness (range 0 messages)) events1 s1)
          (λ s2 messages1.
            let highest = get_tlc_with_highest_fitness (range 1 messages1) in
            after_stage (next_stage stubborn_timeout p ((round + 2) % 2 ^ 32) highest events2 s2)
              (λ s3 messages2. decide range round highest s3)))

  -- `processClientBlocks` on one message.
  unfoldable pub process_client_block :
      ℕ
      → Setting
      → Modes
      → (ℕ → TlcMessages → TlcMessages)
      → TlcMessage
      → List Event
      → List Event
      → List Event
      → Gossiping
      → Option Gossiping
  unfolding qsc_round
  process_client_block stubborn_timeout p modes range m events events1 events2 s =
      if modes.hw3ex4
      then Option.map state (qsc_round stubborn_timeout p range m events events1 events2 s)
      else Option.map (λ r. r.0) (tlc_round stubborn_timeout p m events s)
