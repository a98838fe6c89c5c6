-- ===== src/Qsc/Total.antt =====
-- A whole round of `qscRound` does not fail before the consensus.
use p2p_dapp.Base.{
  ℕ, ◌+◌, ◌-◌, ◌%◌, ◌^◌, ◌<◌, ◌≡◌, refl, ◌∙◌, ◌≢◌, ◌⊎◌, inl, inr, Option, none, some, List, arith,
  string_eq, nat_eq, pair_eq, Bool-cases, Option-cases, lookup, length, int_eq, list_eq,
}
use p2p_dapp.Packet.{Bytes, TlcMessage}
use p2p_dapp.GossipHandler.{messages_of}
use p2p_dapp.GossipHandler.Least.{IsConsistent}
use p2p_dapp.Blockchain.{
  TlcMessages, BlockchainHandler, of_round, no_message, fittest, get_tlc_with_highest_fitness,
}
use p2p_dapp.Blockchain.Consensus.{beaten, reconfirmed, check_if_consensus_reached}
use p2p_dapp.Blockchain.Chain.{settle}
use p2p_dapp.Tlc.Majority.{Clocked}
use p2p_dapp.Tlc.{Setting, Gossiping, Event}
use p2p_dapp.Qsc.{Stage, Progress, stage, after_stage, decide, qsc_round}
use p2p_dapp.Qsc.Staged.{IsReady, IsStaged, stage-IsStaged, next_stage-IsStaged}

-- Three rounds later, if the run has ended.
abbrev pub IsLater : ℕ → Progress → Type 0
IsLater time (Progress.waits s) = Unit {0}
IsLater time (Progress.no_round s) = Unit {0}
IsLater time (Progress.ended s consensus) = s.blockchain.my_time ≡ (time + 3) % 2 ^ 32

module _ (sha256 : Bytes → Bytes) (range : ℕ → TlcMessages → TlcMessages) (time : ℕ) where
  -- A run does not fail, but where no message of the first round was seen at its end.
  abbrev pub Total : Option Progress → Type 0
  Total o =
      ((r : Progress) × (o ≡ some r) × IsLater time r)
      ⊎ ((highest : TlcMessage) × (t : Gossiping) × (o ≡ decide sha256 range time highest t)
          × (lookup time t.blockchain.message_seen ≡ none))

  decided_there :
      (confirmations confirmations1 : TlcMessages) (seen : TlcMessages) (b : BlockchainHandler)
      → lookup time b.message_seen ≡ some seen
      → check_if_consensus_reached sha256 confirmations confirmations1 time b ≢ none
  unfolding check_if_consensus_reached
  decided_there confirmations confirmations1 seen b saw h =
      let best = fittest no_message confirmations in
      elim (Bool-cases (beaten sha256 best seen)) [
        | inl loses ↦ ground (arith, saw, loses)
        | inr wins ↦ elim (Bool-cases (reconfirmed sha256 best confirmations1)) [
          | inl again ↦ ground (arith, saw, wins, again)
          | inr gone ↦ ground (arith, saw, wins, gone)
        ]
      ]

  my_time-settle :
      (consensus : Option TlcMessage) (highest : TlcMessage) (b : BlockchainHandler)
      → (settle sha256 consensus highest b).my_time ≡ b.my_time
  unfolding settle
  my_time-settle none highest b = refl
  my_time-settle (some m) highest b = refl

  decide-Total :
      (highest : TlcMessage) (t : Gossiping)
      → t.blockchain.my_time ≡ (time + 3) % 2 ^ 32
      → Total (decide sha256 range time highest t)
  unfolding decide
  decide-Total highest t later = elim (Option-cases (lookup time t.blockchain.message_seen)) [
    | inl gone ↦ inr (highest, t, refl, gone)
    | inr (seen, saw) ↦
        let first = range 2 (of_round time t.blockchain.confirmations) in
        let second = range 3 (of_round ((time + 1) % 2 ^ 32) t.blockchain.confirmations) in
        elim (Option-cases (check_if_consensus_reached sha256 first second time t.blockchain)) [
          | inl none_there ↦ absurd (decided_there first second seen t.blockchain saw none_there)
          | inr (consensus, e) ↦ inl (
            Progress.ended (record t { blockchain = settle sha256 consensus highest t.blockchain })
                consensus,
            rw (e, decide) refl,
            my_time-settle consensus highest t.blockchain ∙ later,
          )
        ]
  ]

  after_stage-Total :
      (p : Setting) (k at : ℕ) (o : Option Stage) (rest : Gossiping → TlcMessages → Option Progress)
      → IsStaged p k at o
      → ((s : Gossiping) (messages : TlcMessages)
          → IsReady p k s.gossip
          → s.blockchain.my_time ≡ at
          → Total (rest s messages))
      → Total (after_stage o rest)
  unfolding after_stage
  after_stage-Total p k at none rest a more = absurd a
  after_stage-Total p k at (some (Stage.waiting s)) rest a more = inl (Progress.waits s, refl, tt)
  after_stage-Total p k at (some (Stage.unconfirmed s)) rest a more =
      inl (Progress.no_round s, refl, tt)
  after_stage-Total p k at (some (Stage.confirmed s messages)) rest a more = more s messages a.0 a.1

-- `qscRound` by a peer whose handler is consistent and has room for six more messages, over any
-- events that come: it does not fail in its three rounds, and where it has ended, the
-- round is three later (a uint32); but where no message of the first round was seen at
-- the end of the third, the consensus panics.
pub qsc_round-Total :
    (sha256 : Bytes → Bytes) (stubborn_timeout : ℕ) (p : Setting)
    (range : ℕ → TlcMessages → TlcMessages) (m : TlcMessage) (events events1 events2 : List Event)
    (s : Gossiping)
    → 0 < stubborn_timeout
    → Clocked events × Clocked events1 × Clocked events2
    → IsConsistent s.gossip
    → length (messages_of p.name s.gossip) + 6 < 2 ^ 32 - 1
    → Total sha256 range s.blockchain.my_time
        (qsc_round sha256 stubborn_timeout p range m events events1 events2 s)
unfolding qsc_round
qsc_round-Total sha256 stubborn_timeout p range m events events1 events2 s stubborn clocked
      consistent room =
    let k = length (messages_of p.name s.gossip) in
    let time = s.blockchain.my_time in
    let after = after_stage-Total sha256 range time p in
    after (k + 1) ((time + 1) % 2 ^ 32) (stage stubborn_timeout p time m events s) _
      (stage-IsStaged stubborn_timeout p stubborn k time time m events s (omega arith) clocked.0
        (consistent, omega arith) refl)
      (λ s1 messages r1 t1.
        after (k + 1 + 2) (((time + 1) % 2 ^ 32 + 1) % 2 ^ 32) _ _
          (next_stage-IsStaged stubborn_timeout p stubborn (k + 1) ((time + 1) % 2 ^ 32)
            ((time + 1) % 2 ^ 32) (get_tlc_with_highest_fitness (range 0 messages)) events1 s1
            (omega arith) clocked.1 r1 t1)
          (λ s2 messages1 r2 t2.
            let highest = get_tlc_with_highest_fitness (range 1 messages1) in
            after (k + 1 + 2 + 2) ((((time + 1) % 2 ^ 32 + 1) % 2 ^ 32 + 1) % 2 ^ 32) _ _
              (next_stage-IsStaged stubborn_timeout p stubborn (k + 1 + 2)
                (((time + 1) % 2 ^ 32 + 1) % 2 ^ 32) ((time + 2) % 2 ^ 32) highest events2 s2
                (omega arith) clocked.2 r2 t2)
              (λ s3 messages2 r3 t3. decide-Total sha256 range time highest s3 (t3 ∙ omega arith))))
