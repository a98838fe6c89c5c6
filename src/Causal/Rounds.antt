-- ===== src/Causal/Rounds.antt =====
-- When a confirmation is taken, and which round the later messages of its origin have.
use p2p_dapp.Base.{
  ℕ, ◌≤◌, ◌≡◌, false, some, List, string_eq, nat_eq, pair_eq, lookup, All, int_eq, list_eq,
}
use p2p_dapp.Packet.{PeerStatus, TlcMessage}
use p2p_dapp.VectorClock.{VectorClock, check_if_i_need_peer_status}
use p2p_dapp.Blockchain.{BlockchainHandler, save_confirmation, note_confirmed}
use p2p_dapp.Causal.{clock_of, Handling, Handled}

-- The clock has every message that the status counts.
abbrev pub Known : VectorClock → List PeerStatus → Type 0
Known clock want =
    All (λ e. (id : ℕ) × (lookup e.identifier clock ≡ some id) × (e.next_id ≤ id)) want

-- The handler's fields that the saving of a message leaves.
abbrev pub SameRounds : BlockchainHandler → BlockchainHandler → Type 0
SameRounds b b' = (b'.tlc_status ≡ b.tlc_status) × (b'.my_time ≡ b.my_time)

-- What it takes that a message is taken as a confirmation, and what the handler then is.
abbrev Taken : Handling → ℕ → TlcMessage → BlockchainHandler → Handled → Type 0
Taken p round m b h =
    (check_if_i_need_peer_status p.clock (clock_of m).want ≡ false)
    × (h.again ≡ false)
    × (h.blockchain ≡ save_confirmation round m.origin m (note_confirmed m.origin m.confirmed b))
