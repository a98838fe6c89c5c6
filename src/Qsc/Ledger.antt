-- ===== src/Qsc/Ledger.antt =====
-- The committed chain over a whole round of `qscRound`.
use mathlib.Core.Option
use p2p_dapp.Base.{
  ℕ, ◌+◌, ◌%◌, ◌^◌, ◌≡◌, refl, sym, ap, ◌∙◌, subst, ◌≢◌, inl, inr, Bool, true, false, Option, none,
  some, List, ◌∷◌, map, string_eq, nat_eq, pair_eq, Option-cases, lookup, minus_one, int_eq,
  list_eq,
}
use p2p_dapp.Packet.{Bytes, BlockPublish, TlcMessage, TxPublish}
use p2p_dapp.Blockchain.{
  TlcMessages, BlockchainHandler, zero_hash, of_round, get_tlc_with_highest_fitness,
}
use p2p_dapp.Blockchain.Hash.{block_hash}
use p2p_dapp.Blockchain.Consensus.{check_if_consensus_reached}
use p2p_dapp.Blockchain.Chain.{Chain, on_top, settle, settle-Chain}
use p2p_dapp.Tlc.{Setting, Gossiping, Event, create_tlc_message, gossip_with_confirmation}
use p2p_dapp.Tlc.Frame.{SameChain, Keeps, Keeps-of_same, gossip-Keeps}
use p2p_dapp.Qsc.{
  Stage, Progress, decided, state, tlc_round, reached, stage, next_stage, after_stage, decide,
  qsc_round,
}

-- A run leads to states with the chain of the first, which then may settle.
abbrev Stays : Gossiping → Option Stage → Type 0
Stays s none = Unit {0}
Stays s (some (Stage.waiting t)) = SameChain s.blockchain t.blockchain
Stays s (some (Stage.unconfirmed t)) = SameChain s.blockchain t.blockchain
Stays s (some (Stage.confirmed t messages)) = SameChain s.blockchain t.blockchain

reached-Stays :
    (round : ℕ) (s : Gossiping) (r : Option (Gossiping × Bool))
    → Keeps s r
    → Stays s (Option.map (reached round) r)
unfolding reached
reached-Stays round s none k = tt
reached-Stays round s (some (t, false)) k = k
reached-Stays round s (some (t, true)) k =
    elim (Option-cases (lookup round t.blockchain.confirmations)) [
      | inl gone ↦ rw (gone, reached) k
      | inr (messages, e) ↦ rw (e, reached) k
    ]

stage-Stays :
    (stubborn_timeout : ℕ) (p : Setting) (round : ℕ) (m : TlcMessage) (es : List Event)
    (s t : Gossiping)
    → SameChain s.blockchain t.blockchain
    → Stays s (stage stubborn_timeout p round m es t)
unfolding stage tlc_round
stage-Stays stubborn_timeout p round m es s t k =
    let q = record p { wait_confirmations = true } in
    reached-Stays round s (gossip_with_confirmation stubborn_timeout q m es t)
      (Keeps-of_same s t _ k (gossip-Keeps q m stubborn_timeout es t))

next_stage-Stays :
    (stubborn_timeout : ℕ) (p : Setting) (round : ℕ) (m : TlcMessage) (es : List Event)
    (s t : Gossiping)
    → SameChain s.blockchain t.blockchain
    → Stays s (next_stage stubborn_timeout p round m es t)
unfolding next_stage
next_stage-Stays stubborn_timeout p round m es s t k =
    elim (Option-cases (create_tlc_message p m.tx_block minus_one m.fitness t.gossip)) [
      | inl gone ↦ rw (gone, next_stage) tt
      | inr ((g, n), e) ↦
          rw (e, next_stage)
            (stage-Stays stubborn_timeout p round n es s (record t { gossip = g }) k)
    ]

-- The ledger as the transactions alone, newest first. A decision puts its transaction on top.
abbrev pub Ledger : Type 0
Ledger = List TxPublish

abbrev pub append : Option TlcMessage → Ledger → Ledger
append none ledger = ledger
append (some m) ledger = m.tx_block.transaction ∷ ledger

-- The chain of hashes from the top of the handler leads through blocks with these transactions.
abbrev pub Represents : BlockchainHandler → Ledger → Type 0
Represents b ledger =
    (blocks : List BlockPublish) × Chain b.committed_history b.top_blockchain_hash blocks
    × (map (λ x. x.transaction) blocks ≡ ledger)

-- No block on top of the chain hashes to zero, or to the hash of a committed block that is not on
-- top as well.
pub record IsApart (sha256 : Bytes → Bytes) (b : BlockchainHandler) : Type 0 where
  pub nonzero : (x : BlockPublish) → block_hash sha256 (on_top sha256 x b) ≢ zero_hash
  pub apart :
      (x old : BlockPublish)
      → lookup (block_hash sha256 (on_top sha256 x b)) b.committed_history ≡ some old
      → old.prev_hash ≡ b.top_blockchain_hash

Represents-same :
    (b b' : BlockchainHandler) (ledger : Ledger)
    → SameChain b b'
    → Represents b ledger
    → Represents b' ledger
Represents-same b b' ledger (history, top) (blocks, c, e) = (
  blocks,
  subst (λ h. Chain h b'.top_blockchain_hash blocks) (sym history)
      (subst (λ t. Chain b.committed_history t blocks) (sym top) c),
  e,
)

module _ (sha256 : Bytes → Bytes) where
  settle-Represents :
      (consensus : Option TlcMessage) (highest : TlcMessage) (b : BlockchainHandler)
      (ledger : Ledger)
      → IsApart sha256 b
      → Represents b ledger
      → Represents (settle sha256 consensus highest b) (append consensus ledger)
  unfolding settle
  settle-Represents none highest b ledger a r = r
  settle-Represents (some m) highest b ledger a (blocks, c, e) = (
    on_top sha256 m.tx_block b ∷ blocks,
    settle-Chain sha256 b m highest blocks c (a.nonzero m.tx_block) (a.apart m.tx_block),
    ap (◌∷◌ m.tx_block.transaction) e,
  )

  IsApart-same : (b b' : BlockchainHandler) → SameChain b b' → IsApart sha256 b → IsApart sha256 b'
  unfolding on_top
  IsApart-same b b' (history, top) a = record {
    nonzero = λ x.
        subst (λ t. block_hash sha256 (record x { prev_hash = t }) ≢ zero_hash) (sym top)
          (a.nonzero x);
    apart = λ x old found.
        a.apart x old (
          subst
            (λ t.
              lookup (block_hash sha256 (record x { prev_hash = t })) b.committed_history
              ≡ some old)
            top
            (subst (λ h. lookup (block_hash sha256 (on_top sha256 x b')) h ≡ some old) history
              found))
        ∙ sym top;
  }

  -- The ledger after a run that goes on, from the ledger before.
  abbrev Refines : Ledger → Option Progress → Type 0
  Refines ledger none = Unit {0}
  Refines ledger (some r) = Represents (state r).blockchain (append (decided r) ledger)

  module _ (s : Gossiping) (ledger : Ledger) (apart : IsApart sha256 s.blockchain)
      (represents : Represents s.blockchain ledger) where
    decide-Refines :
        (range : ℕ → TlcMessages → TlcMessages) (round : ℕ) (highest : TlcMessage) (t : Gossiping)
        → SameChain s.blockchain t.blockchain
        → Refines ledger (decide sha256 range round highest t)
    unfolding decide
    decide-Refines range round highest t k =
        elim (Option-cases (
          check_if_consensus_reached sha256 (range 2 (of_round round t.blockchain.confirmations))
            (range 3 (of_round ((round + 1) % 2 ^ 32) t.blockchain.confirmations)) round
            t.blockchain)) [
              | inl panics ↦ rw (panics, decide) tt
              | inr (consensus, e) ↦
                  rw (e, decide)
                    (settle-Represents consensus highest t.blockchain ledger
                      (IsApart-same s.blockchain t.blockchain k apart)
                      (Represents-same s.blockchain t.blockchain ledger k represents))
            ]

    after_stage-Refines :
        (r : Option Stage) (rest : Gossiping → TlcMessages → Option Progress)
        → Stays s r
        → ((t : Gossiping) (messages : TlcMessages)
            → SameChain s.blockchain t.blockchain
            → Refines ledger (rest t messages))
        → Refines ledger (after_stage r rest)
    unfolding after_stage
    after_stage-Refines none rest k more = tt
    after_stage-Refines (some (Stage.waiting t)) rest k more =
        Represents-same s.blockchain t.blockchain ledger k represents
    after_stage-Refines (some (Stage.unconfirmed t)) rest k more =
        Represents-same s.blockchain t.blockchain ledger k represents
    after_stage-Refines (some (Stage.confirmed t messages)) rest k more = more t messages k

  Refines-result :
      (ledger : Ledger) (o : Option Progress) (r : Progress)
      → o ≡ some r
      → Refines ledger o
      → Represents (state r).blockchain (append (decided r) ledger)
  Refines-result ledger o r e h = subst (Refines ledger) e h

-- The chain of a peer represents a ledger of transactions, and no block on top of it hashes to zero
-- or collides with a committed block. Whatever events come in the rounds of `qscRound` and wherever
-- it then is, the chain represents the same ledger, or, where it has ended with an agreement, that
-- ledger with the transaction of the message that is agreed on put on top.
pub qsc_round-Represents :
    (sha256 : Bytes → Bytes) (stubborn_timeout : ℕ) (p : Setting)
    (range : ℕ → TlcMessages → TlcMessages) (m : TlcMessage) (events events1 events2 : List Event)
    (s : Gossiping) (ledger : Ledger) (r : Progress)
    → IsApart sha256 s.blockchain
    → Represents s.blockchain ledger
    → qsc_round sha256 stubborn_timeout p range m events events1 events2 s ≡ some r
    → Represents (state r).blockchain (append (decided r) ledger)
unfolding qsc_round
qsc_round-Represents sha256 stubborn_timeout p range m events events1 events2 s ledger r apart
      represents e =
    let round = s.blockchain.my_time in
    let after = after_stage-Refines sha256 s ledger apart represents in
    Refines-result sha256 ledger _ r e (
      after (stage stubborn_timeout p round m events s) _
        (stage-Stays stubborn_timeout p round m events s s (refl, refl))
        (λ s1 messages k1.
          after
            (next_stage stubborn_timeout p ((round + 1) % 2 ^ 32)
              (get_tlc_with_highest_fitness (range 0 messages)) events1 s1)
            _
            (next_stage-Stays stubborn_timeout p ((round + 1) % 2 ^ 32)
              (get_tlc_with_highest_fitness (range 0 messages)) events1 s s1 k1)
            (λ s2 messages1 k2.
              let highest = get_tlc_with_highest_fitness (range 1 messages1) in
              after (next_stage stubborn_timeout p ((round + 2) % 2 ^ 32) highest events2 s2) _
                (next_stage-Stays stubborn_timeout p ((round + 2) % 2 ^ 32) highest events2 s s2 k2)
                (λ s3 messages2 k3.
                  decide-Refines sha256 s ledger apart represents range round highest s3 k3))))
