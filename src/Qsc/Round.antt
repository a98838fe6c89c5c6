-- ===== src/Qsc/Round.antt =====
-- `qscRound` as a whole against the ledger of transactions.
use p2p_dapp.Base.{string_eq, nat_eq, pair_eq, int_eq, list_eq}
use p2p_dapp.Qsc.Ledger.{Ledger}
