-- ===== src/Blockchain/Consensus.antt =====
-- `checkIfConsensusReached` of gossiper/qsc.go: which message of a round is agreed on.
use p2p_dapp.Base.{
  ltb, ltb→lt, ◌<◌, ◌⊎◌, ◌+◌, ◌%◌, ◌^◌, ap, ℕ, ◌≤◌, String, ◌≡◌, refl, sym, ◌∙◌, subst, ◌↔◌, inl,
  inr, Bool, true, false, not, ◌&&◌, ◌||◌, Option, none, some, [], ◌∷◌, arith, leb, if◌then◌else◌,
  ◌==◌, string_eq, nat_eq, pair_eq, Bool-cases, lookup, All, int_eq, Ranges, list_eq, In, here,
  there, All-In, All_of_In, In-of_lookup,
}
use p2p_dapp.Packet.{Bytes, TlcMessage}
use p2p_dapp.Blockchain.{
  of_round, TlcMessages, BlockchainHandler, no_message, fittest, get_tlc_with_highest_fitness,
}
use p2p_dapp.Blockchain.Hash.{block_hash}
use p2p_dapp.Blockchain.Fitness.{highest_fitness}

module _ (sha256 : Bytes → Bytes) where
  abbrev pub SameBlock : TlcMessage → TlcMessage → Type 0
  SameBlock m n = block_hash sha256 m.tx_block ≡ block_hash sha256 n.tx_block

  abbrev pub same_block : TlcMessage → TlcMessage → Bool
  same_block m n = block_hash sha256 m.tx_block == block_hash sha256 n.tx_block

  -- Has a message been seen that is at least as fit, with another block?
  unfoldable pub beaten : TlcMessage → TlcMessages → Bool
  beaten best [] = false
  beaten best ((origin, saw) ∷ seen) =
      (leb best.fitness saw.fitness && not (same_block saw best)) || beaten best seen

  unfoldable pub reconfirmed : TlcMessage → TlcMessages → Bool
  reconfirmed best [] = false
  reconfirmed best ((origin, m) ∷ confirmations) =
      same_block m best || reconfirmed best confirmations

  -- The arguments list the confirmations in the orders of the ranges. `none` is the failed type
  -- assertion where no message was seen in the round, a panic; `some none` is nil.
  unfoldable pub check_if_consensus_reached :
      TlcMessages → TlcMessages → ℕ → BlockchainHandler → Option (Option TlcMessage)
  unfolding beaten reconfirmed
  check_if_consensus_reached confirmations_s confirmations_s1 initial_round b =
      let best = fittest no_message confirmations_s in
      elim (lookup initial_round b.message_seen) [
        | none ↦ none
        | some seen ↦
            if beaten best seen
            then some none
            else if reconfirmed best confirmations_s1
            then some (some best)
            else some none
      ]

  beaten-false :
      (best : TlcMessage) (seen : TlcMessages)
      → (beaten best seen ≡ false) ↔ All (λ p. best.fitness ≤ p.1.fitness → SameBlock p.1 best) seen
  unfolding beaten
  beaten-false best [] = (λ _. tt, λ _. refl)
  beaten-false best ((o, saw) ∷ seen) =
      let same =
        (list_eq {A = ℕ}).beq_iff (block_hash sha256 saw.tx_block)
          (block_hash sha256 best.tx_block) in
      (
        λ h. (λ le. ground (arith, same), (beaten-false best seen).0 (ground arith)),
        λ k. ground (arith, k.0, same, (beaten-false best seen).1 k.1),
      )

  reconfirmed-true :
      (best : TlcMessage) (confirmations : TlcMessages)
      → reconfirmed best confirmations ≡ true
      → (p : String × TlcMessage) × In p confirmations × SameBlock p.1 best
  unfolding reconfirmed
  reconfirmed-true best [] h = cc
  reconfirmed-true best ((o, m) ∷ confirmations) h = elim (Bool-cases (same_block m best)) [
    | inl same ↦ ((o, m), here refl, (list_eq.beq_iff _ _).0 same)
    | inr other ↦
        let (p, i, q) = reconfirmed-true best confirmations (ground arith) in (p, there i, q)
  ]

  SameBlock-true : (m n : TlcMessage) → SameBlock m n → same_block m n ≡ true
  SameBlock-true m n = (list_eq.beq_iff _ _).1

  reconfirmed_of_In :
      (best : TlcMessage) (confirmations : TlcMessages) (p : String × TlcMessage)
      → In p confirmations
      → SameBlock p.1 best
      → reconfirmed best confirmations ≡ true
  unfolding reconfirmed
  reconfirmed_of_In best [] p i q = elim i [ ]
  reconfirmed_of_In best ((o, m) ∷ confirmations) p (here e) q =
      ground (arith, SameBlock-true m best (subst (λ x. SameBlock x.1 best) e q))
  reconfirmed_of_In best ((o, m) ∷ confirmations) p (there i) q =
      ground (arith, reconfirmed_of_In best confirmations p i q)

  -- What it takes to agree on a message, from the maps: no confirmation of the first round is
  -- fitter, every message seen in that round that is at least as fit has the same block, and a
  -- confirmation of the next round has that block again.
  pub record Agreed (s s1 seen : TlcMessages) (m : TlcMessage) : Type 0 where
    pub fits : (o : String) (n : TlcMessage) → lookup o s ≡ some n → n.fitness ≤ m.fitness
    pub unbeaten :
        (o : String) (n : TlcMessage)
        → lookup o seen ≡ some n
        → m.fitness ≤ n.fitness
        → SameBlock n m
    pub again : (o : String) × (n : TlcMessage) × (lookup o s1 ≡ some n) × SameBlock n m

  module _ {os s os1 s1 oseen seen : TlcMessages} (rs : Ranges os s) (rs1 : Ranges os1 s1)
      (rseen : Ranges oseen seen) (round : ℕ) (b : BlockchainHandler)
      (saw : lookup round b.message_seen ≡ some oseen) where
    returned :
        (m : TlcMessage)
        → check_if_consensus_reached os os1 round b ≡ some (some m)
        → (m ≡ fittest no_message os)
          × (beaten (fittest no_message os) oseen ≡ false)
          × (reconfirmed (fittest no_message os) os1 ≡ true)
    unfolding check_if_consensus_reached
    returned m h = ground (arith, saw)

    Agreed-of_tests :
        (best : TlcMessage)
        → ((o : String) (n : TlcMessage) → lookup o s ≡ some n → n.fitness ≤ best.fitness)
        → beaten best oseen ≡ false
        → reconfirmed best os1 ≡ true
        → Agreed s s1 seen best
    Agreed-of_tests best fits unbeaten again =
        let ((o, n), i, q) = reconfirmed-true best os1 again in
        record {
          fits = fits;
          unbeaten = λ o' n' f.
              All-In (λ p. best.fitness ≤ p.1.fitness → SameBlock p.1 best)
                ((beaten-false best oseen).0 unbeaten)
                (In-of_lookup oseen o' n' (rseen.complete o' ∙ f));
          again = (o, n, All-In (λ p. lookup p.0 s1 ≡ some p.1) rs1.sound i, q);
        }

    -- A message that is returned is agreed on, whatever the orders of the ranges.
    pub consensus-Agreed :
        (m : TlcMessage)
        → check_if_consensus_reached os os1 round b ≡ some (some m)
        → Agreed s s1 seen m
    unfolding check_if_consensus_reached get_tlc_with_highest_fitness
    consensus-Agreed m h =
        let (e, unbeaten, again) = returned m h in
        subst (Agreed s s1 seen) (sym e)
          (Agreed-of_tests (fittest no_message os) (highest_fitness os s rs).0 unbeaten again)

    -- Where a fittest confirmation is agreed on, it is returned: nothing is refused that could be
    -- agreed on.
    Agreed-consensus :
        Agreed s s1 seen (get_tlc_with_highest_fitness os)
        → check_if_consensus_reached os os1 round b ≡ some (some (get_tlc_with_highest_fitness os))
    unfolding check_if_consensus_reached get_tlc_with_highest_fitness
    Agreed-consensus a =
        let (o, n, f, q) = a.again in
        let best = fittest no_message os in
        let unbeaten : beaten best oseen ≡ false = (beaten-false best oseen).1 (
          All_of_In (λ p. best.fitness ≤ p.1.fitness → SameBlock p.1 best) oseen
            (λ p i. a.unbeaten p.0 p.1 (All-In (λ p. lookup p.0 seen ≡ some p.1) rseen.sound i))) in
        let again : reconfirmed best os1 ≡ true =
          reconfirmed_of_In best os1 (o, n) (In-of_lookup os1 o n (rs1.complete o ∙ f)) q in
        rw (saw, check_if_consensus_reached, unbeaten, again)

    -- Whatever the orders of the ranges: a message is returned exactly when it is the fittest
    -- confirmation of the first round that the range finds, and is agreed on.
    pub check_if_consensus_reached_iff :
        (m : TlcMessage)
        → (check_if_consensus_reached os os1 round b ≡ some (some m))
          ↔ ((m ≡ get_tlc_with_highest_fitness os) × Agreed s s1 seen m)
    unfolding get_tlc_with_highest_fitness
    check_if_consensus_reached_iff m = (
      λ h. ((returned m h).0, consensus-Agreed m h),
      λ (e, a). Agreed-consensus (subst (Agreed s s1 seen) e a) ∙ ap (λ x. some (some x)) (sym e),
    )

  -- A message with the block and the fitness of this one is among the messages: another form of it.
  abbrev pub Form : TlcMessage → TlcMessages → Type 0
  Form m messages =
      (o : String) × (u : TlcMessage) × (lookup o messages ≡ some u)
      × (u.tx_block ≡ m.tx_block)
      × (u.fitness ≡ m.fitness)

  -- A fitter message, of which a form was confirmed or seen, is not decided against.
  fitter-SameBlock :
      (s s1 seen : TlcMessages) (m n : TlcMessage)
      → Agreed s s1 seen m
      → m.fitness < n.fitness
      → Form n s ⊎ Form n seen
      → SameBlock n m
  fitter-SameBlock s s1 seen m n a lt (inl (o, u, e, block, fitness)) =
      absurd (omega (arith, a.fits o u e, fitness))
  fitter-SameBlock s s1 seen m n a lt (inr (o, u, e, block, fitness)) =
      ap (block_hash sha256) (sym block) ∙ a.unbeaten o u e (omega (arith, fitness))

  Agreed-unique :
      (sa s1a seen_a sb s1b seen_b : TlcMessages) (m n : TlcMessage)
      → Agreed sa s1a seen_a m
      → Agreed sb s1b seen_b n
      → Form n sa ⊎ Form n seen_a
      → Form m sb ⊎ Form m seen_b
      → (m.fitness ≡ n.fitness → SameBlock m n)
      → SameBlock m n
  Agreed-unique sa s1a seen_a sb s1b seen_b m n a b has_n has_m tie =
      elim (Bool-cases (ltb m.fitness n.fitness)) [
        | inl lt ↦ sym (fitter-SameBlock sa s1a seen_a m n a (ltb→lt m.fitness n.fitness lt) has_n)
        | inr ge ↦ elim (Bool-cases (ltb n.fitness m.fitness)) [
          | inl gt ↦ fitter-SameBlock sb s1b seen_b n m b (ltb→lt n.fitness m.fitness gt) has_m
          | inr le ↦ tie (ground (arith, ge, le))
        ]
      ]

-- What a peer ranges over in its consensus of a round: its confirmations of the round and of the
-- next one, and the messages that it has seen in the round.
pub record View (round : ℕ) (b : BlockchainHandler) : Type 0 where
  pub order : TlcMessages
  pub order1 : TlcMessages
  pub seen : TlcMessages
  pub ranges : Ranges order (of_round round b.confirmations)
  pub ranges1 : Ranges order1 (of_round ((round + 1) % 2 ^ 32) b.confirmations)
  pub seen_ranges : Ranges seen seen
  pub saw : lookup round b.message_seen ≡ some seen

-- Two peers decide on messages of one round. Each of them has seen a message with the block and the
-- fitness of the other's decision in that round, or has such a message among its own confirmations of
-- the round; and if the two decisions are equally fit, their blocks have the same hash. Then the
-- blocks that they decide on have the same hash.
pub consensus_unique :
    (sha256 : Bytes → Bytes) (round : ℕ) (a b : BlockchainHandler) (va : View round a)
    (vb : View round b) (m n : TlcMessage)
    → check_if_consensus_reached sha256 va.order va.order1 round a ≡ some (some m)
    → check_if_consensus_reached sha256 vb.order vb.order1 round b ≡ some (some n)
    → Form sha256 n (of_round round a.confirmations) ⊎ Form sha256 n va.seen
    → Form sha256 m (of_round round b.confirmations) ⊎ Form sha256 m vb.seen
    → (m.fitness ≡ n.fitness → SameBlock sha256 m n)
    → SameBlock sha256 m n
consensus_unique sha256 round a b va vb m n decided_a decided_b has_n has_m tie =
    Agreed-unique sha256 _ _ va.seen _ _ vb.seen m n
      (consensus-Agreed sha256 va.ranges va.ranges1 va.seen_ranges round a va.saw m decided_a)
      (consensus-Agreed sha256 vb.ranges vb.ranges1 vb.seen_ranges round b vb.saw n decided_b) has_n
      has_m tie
