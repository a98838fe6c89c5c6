-- ===== src/Causal/Frame.antt =====
-- What the handling of TLC messages leaves as it was.
use p2p_dapp.Base.{
  ℕ, String, ◌≡◌, refl, ◌∙◌, subst, inl, inr, Bool, true, false, ◌&&◌, Option, none, some, arith,
  if◌then◌else◌, Option-cases, mapped,
}
use p2p_dapp.Packet.{PrivateMessage, TlcMessage}
use p2p_dapp.Blockchain.{
  BlockchainHandler, get_message_original_round, save_confirmation, save_message_seen,
  note_confirmed,
}
use p2p_dapp.Causal.{
  clock_of, unless_panics, Handling, Handled, check_for_causal_property, take_confirmation,
  acknowledged, ack_of, handle_tlc_message,
}

-- The round and the committed chain.
abbrev pub SameLedger : BlockchainHandler → BlockchainHandler → Type 0
SameLedger b b' =
    (b'.my_time ≡ b.my_time)
    × (b'.committed_history ≡ b.committed_history)
    × (b'.top_blockchain_hash ≡ b.top_blockchain_hash)

pub SameLedger-trans :
    (a b c : BlockchainHandler) → SameLedger a b → SameLedger b c → SameLedger a c
SameLedger-trans a b c p q = (q.0 ∙ p.0, q.1 ∙ p.1, q.2 ∙ p.2)

pub save_confirmation-SameLedger :
    (round : ℕ) (origin : String) (m : TlcMessage) (b : BlockchainHandler)
    → SameLedger b (save_confirmation round origin m b)
unfolding save_confirmation
save_confirmation-SameLedger round origin m b = (ground arith, ground arith, ground arith)

saved-SameLedger :
    (test : Bool) (round : ℕ) (m : TlcMessage) (b : BlockchainHandler)
    → SameLedger b (if test then save_message_seen round m.origin m b else b)
unfolding save_message_seen
saved-SameLedger true round m b = (refl, refl, refl)
saved-SameLedger false round m b = (refl, refl, refl)

causal-SameLedger :
    (p : Handling) (m : TlcMessage) (b : BlockchainHandler)
    → SameLedger b (check_for_causal_property m.origin (clock_of m) m.confirmed p.clock b).0
unfolding check_for_causal_property note_confirmed
causal-SameLedger p m b = (ground arith, ground arith, ground arith)

take_confirmation-SameLedger :
    (p : Handling) (round : ℕ) (m : TlcMessage) (ack : Option PrivateMessage)
    (b : BlockchainHandler)
    → SameLedger b (take_confirmation p round m ack b).blockchain
unfolding take_confirmation
take_confirmation-SameLedger p round m ack b =
    let c = causal-SameLedger p m b in
    let b' = (check_for_causal_property m.origin (clock_of m) m.confirmed p.clock b).0 in
    let k = save_confirmation-SameLedger round m.origin m b' in
    (ground (arith, c.0, k.0), ground (arith, c.1, k.1), ground (arith, c.2, k.2))

pub handle-SameLedger :
    (p : Handling) (m : TlcMessage) (b : BlockchainHandler) (h : Handled)
    → handle_tlc_message p m b ≡ some h
    → SameLedger b h.blockchain
unfolding handle_tlc_message
handle-SameLedger p m b h e = elim (Option-cases (unless_panics p m b)) [
  | inl ends ↦ absurd (ground (arith, ends))
  | inr (valid, known) ↦
      let round = get_message_original_round m.origin m.id m.confirmed b in
      let acks = valid && acknowledged p.modes round m b in
      let b0 = if acks && p.modes.hw3ex4 then save_message_seen round m.origin m b else b in
      let after = take_confirmation p round m (if acks then some (ack_of p m) else none) b0 in
      subst (λ x. SameLedger b x.blockchain) (mapped _ _ valid h known e)
        (SameLedger-trans b b0 after.blockchain
          (saved-SameLedger (acks && p.modes.hw3ex4) round m b)
          (take_confirmation-SameLedger p round m (if acks then some (ack_of p m) else none) b0))
]
