-- ===== src/Blockchain.antt =====
-- gossiper/blockchainhandler.go, the pure parts of gossiper/qsc.go, and the hashes and the choice
-- of the fittest message of gossiper/utils.go. SHA-256 is an argument.
pub mod Hash
pub mod Fitness
pub mod Consensus
pub mod Chain
use p2p_dapp.Base.{
  ℕ, ◌+◌, String, Bool, true, none, some, [], ◌∷◌, ltb, leb, if◌then◌else◌, ◌==◌, string_eq, nat_eq,
  pair_eq, Dict, lookup, insert, ℤ, pos, minus_one, gt_int, to_uint32, int_eq, list_eq,
}
use p2p_dapp.Packet.{Bytes, TxPublish, BlockPublish, TlcMessage, StatusPacket}

-- `[32]byte{}`
unfoldable pub zero_hash : Bytes
zero_hash =
    0 ∷ 0 ∷ 0 ∷ 0 ∷ 0 ∷ 0 ∷ 0 ∷ 0 ∷ 0 ∷ 0 ∷ 0 ∷ 0 ∷ 0 ∷ 0 ∷ 0 ∷ 0 ∷ 0 ∷ 0 ∷ 0 ∷ 0 ∷ 0 ∷ 0 ∷ 0 ∷ 0
    ∷ 0 ∷ 0 ∷ 0 ∷ 0 ∷ 0 ∷ 0 ∷ 0 ∷ 0 ∷ []

-- The test `h == [32]byte{}`.
unfoldable pub is_zero : Bytes → Bool
unfolding zero_hash
is_zero h = h == zero_hash

-- A map of messages by origin (`SafeTLCMessagesMap`).
abbrev pub TlcMessages : Type 0
TlcMessages = Dict String TlcMessage

-- `tlc_status` keeps the ids of the confirmed messages of each origin, as the keys of a map.
pub record BlockchainHandler : Type 0 where
  pub my_time : ℕ
  pub tlc_status : Dict String (Dict ℤ Bool)
  pub confirmations : Dict ℕ TlcMessages
  pub message_seen : Dict ℕ TlcMessages
  pub committed_history : Dict Bytes BlockPublish
  pub top_blockchain_hash : Bytes
  pub previous_block_hash : Bytes

abbrev pub new_blockchain_handler : BlockchainHandler
new_blockchain_handler = record {
  my_time = 0;
  tlc_status = [];
  confirmations = [];
  message_seen = [];
  committed_history = [];
  top_blockchain_hash = zero_hash;
  previous_block_hash = zero_hash;
}

-- The messages saved for a round, none where there is no map.
abbrev pub of_round : ℕ → Dict ℕ TlcMessages → TlcMessages
of_round round m = elim (lookup round m) [ none ↦ [] | some messages ↦ messages ]

-- Confirmations of earlier rounds are dropped.
unfoldable pub save_confirmation : ℕ → String → TlcMessage → BlockchainHandler → BlockchainHandler
save_confirmation round origin tlc b =
    if leb b.my_time round
    then record b {
      confirmations =
          insert round (insert origin tlc (of_round round b.confirmations)) b.confirmations;
    }
    else b

unfoldable pub save_message_seen : ℕ → String → TlcMessage → BlockchainHandler → BlockchainHandler
save_message_seen round origin tlc b = record b {
  message_seen = insert round (insert origin tlc (of_round round b.message_seen)) b.message_seen;
}

abbrev pub ids_of : String → BlockchainHandler → Dict ℤ Bool
ids_of origin b = elim (lookup origin b.tlc_status) [ none ↦ [] | some ids ↦ ids ]

unfoldable pub count_if : (ℤ → Bool) → Dict ℤ Bool → ℕ
count_if test [] = 0
count_if test ((key, v) ∷ ids) = count_if test ids + (if test key then 1 else 0)

-- The round of a message: how many confirmed ids of its origin are below it. The counter is a
-- uint32, far above any number of ids.
unfoldable pub get_message_original_round : String → ℕ → ℤ → BlockchainHandler → ℕ
unfolding count_if
get_message_original_round origin id confirmed b =
    if gt_int confirmed minus_one
    then count_if (λ key. gt_int confirmed key) (ids_of origin b)
    else count_if (λ key. ltb (to_uint32 key) id) (ids_of origin b)

-- A confirmed id of an origin is noted.
unfoldable pub note_confirmed : String → ℤ → BlockchainHandler → BlockchainHandler
note_confirmed origin confirmed b = record b {
  tlc_status = insert origin (insert confirmed true (ids_of origin b)) b.tlc_status;
}

-- `&TLCMessage{Fitness: 0}`
abbrev pub no_message : TlcMessage
no_message = record {
  origin = "";
  id = 0;
  confirmed = pos 0;
  tx_block = record {
    prev_hash = zero_hash;
    transaction = record { name = ""; size = 0; metafile_hash = [] };
  };
  vector_clock = none;
  fitness = 0;
}

-- A message replaces the best one so far if it is fitter.
unfoldable pub fitter : TlcMessage → TlcMessage → TlcMessage
fitter best m = if ltb best.fitness m.fitness then m else best

unfoldable pub fittest : TlcMessage → TlcMessages → TlcMessage
unfolding fitter
fittest best [] = best
fittest best ((origin, m) ∷ messages) = fittest (fitter best m) messages

-- The argument lists the confirmations in the order of the `range`.
unfoldable pub get_tlc_with_highest_fitness : TlcMessages → TlcMessage
unfolding fittest
get_tlc_with_highest_fitness = fittest no_message
