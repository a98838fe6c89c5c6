-- ===== src/Causal/Again.antt =====
-- Which messages are put back in the queue for ever.
use p2p_dapp.Base.{◌≡◌, true, false, string_eq, pair_eq, int_eq, list_eq}
use p2p_dapp.Blockchain.{BlockchainHandler}
use p2p_dapp.Causal.{Handled}
use p2p_dapp.Causal.Rounds.{SameRounds}

-- The handler is as it was but for the messages seen, and the message is put back in the queue.
abbrev Back : BlockchainHandler → Handled → Type 0
Back b h =
    (h.again ≡ true)
    × (h.confirms ≡ false)
    × SameRounds b h.blockchain
    × (h.blockchain.confirmations ≡ b.confirmations)
