-- ===== src/Tlc/Overlap.antt =====
-- Two peers that end a round of `gossipWithConfirmation` have confirmations of a common peer.
use p2p_dapp.Base.{
  ℕ, suc, ◌<◌, String, ◌≡◌, refl, sym, ap, ◌∙◌, subst, inl, inr, true, false, some, List, [], ◌∷◌,
  arith, if◌then◌else◌, ◌==◌, string_eq, nat_eq, pair_eq, Bool-cases, lookup, length, lt→ltb,
  int_eq, list_eq, In, here, there, if_true,
}
use p2p_dapp.Base.Shared.{shared}
use p2p_dapp.Packet.{TlcMessage}
use p2p_dapp.Blockchain.{TlcMessages, of_round}
use p2p_dapp.Tlc.{
  Setting, Gossiping, Event, check_for_confirmations_majority, continue, loop,
  gossip_with_confirmation,
}
use p2p_dapp.Tlc.Confirmations.{keys, Known}
use p2p_dapp.Tlc.Quorum.{From, Majority, check-Ends, continue-Ends, loop-Ends, Ends}

-- A peer of the network that runs the loop and waits for confirmations; what it has confirmed, and
-- what it handles meanwhile, is from peers of the network.
pub record Joins (names : List String) (p : Setting) (events : List Event) (s : Gossiping)
    : Type 0 where
  pub size : p.size ≡ length names
  pub member : In p.name names
  pub waits : p.wait_confirmations ≡ true
  pub known : Known names s.blockchain
  pub from : From names events

module _ (names : List String) (stubborn_timeout : ℕ) (stubborn : 0 < stubborn_timeout) where
  gossip-Ends :
      (p : Setting) (tlc : TlcMessage) (events : List Event) (s : Gossiping)
      → Joins names p events s
      → Ends names s.blockchain.my_time p.size
          (gossip_with_confirmation stubborn_timeout p tlc events s)
  unfolding gossip_with_confirmation
  gossip-Ends p tlc events s j =
      let start = record s { witnesses = (p.name, 0) ∷ []; delivered = false; sent = [] } in
      let time = s.blockchain.my_time in
      let begins : gossip_with_confirmation stubborn_timeout p tlc events s
          ≡ continue (check_for_confirmations_majority p tlc start) (loop p tlc events) =
        if_true p.wait_confirmations _ _ j.waits
        ∙ ap
            (λ b.
              continue (check_for_confirmations_majority p tlc start)
                (λ t. if b then loop p tlc events t else some (t, true)))
            (lt→ltb 0 stubborn_timeout stubborn) in
      subst (Ends names time p.size) (sym begins) (
        continue-Ends names time p tlc j.member j.waits
          (check_for_confirmations_majority p tlc start) (loop p tlc events)
          (check-Ends names time p tlc j.member j.waits start (refl, j.known))
          (λ t. loop-Ends names time p tlc j.member j.waits events t j.from))

  gossip-Majority :
      (p : Setting) (tlc : TlcMessage) (events : List Event) (s s' : Gossiping)
      → Joins names p events s
      → gossip_with_confirmation stubborn_timeout p tlc events s ≡ some (s', true)
      → Majority names s.blockchain.my_time p.size s'
  gossip-Majority p tlc events s s' j e =
      subst (Ends names s.blockchain.my_time p.size) e (gossip-Ends p tlc events s j)

length-keys : (d : TlcMessages) → length (keys d) ≡ length d
length-keys [] = refl
length-keys (e ∷ d) = ap suc (length-keys d)

confirmed_by :
    (o : String) (d : TlcMessages) → In o (keys d) → (m : TlcMessage) × (lookup o d ≡ some m)
unfolding lookup
confirmed_by o [] i = elim i [ ]
confirmed_by o ((n, m) ∷ d) i = elim (Bool-cases (n == o)) [
  | inl same ↦ (m, rw same refl)
  | inr other ↦ elim i [
    | here e ↦ absurd (ground (arith, string_eq.beq_iff n o))
    | there j ↦ let (m', f) = confirmed_by o d j in (m', rw other f)
  ]
]

-- Two peers of a network, each with some rounds' confirmations of its peers only, run the loop of
-- `gossipWithConfirmation`, and wait for confirmations, from the same round on, while any events come
-- to each, of which the handled messages are from peers of the network. Where both have ended the
-- round, there is a peer of the network from which both have a confirmation in that round.
pub rounds_overlap :
    (names : List String) (stubborn_timeout : ℕ) (p q : Setting) (tlc tlc' : TlcMessage)
    (events events' : List Event) (s s' t t' : Gossiping)
    → 0 < stubborn_timeout
    → Joins names p events s
    → Joins names q events' t
    → s.blockchain.my_time ≡ t.blockchain.my_time
    → gossip_with_confirmation stubborn_timeout p tlc events s ≡ some (s', true)
    → gossip_with_confirmation stubborn_timeout q tlc' events' t ≡ some (t', true)
    → (o : String) × (m : TlcMessage) × (m' : TlcMessage) × In o names
      × (lookup o (of_round s.blockchain.my_time s'.blockchain.confirmations) ≡ some m)
      × (lookup o (of_round s.blockchain.my_time t'.blockchain.confirmations) ≡ some m')
rounds_overlap names stubborn_timeout p q tlc tlc' events events' s s' t t' stubborn j k same e f =
    let time = s.blockchain.my_time in
    let a = gossip-Majority names stubborn_timeout stubborn p tlc events s s' j e in
    let b =
      subst (λ r. Majority names r q.size t') (sym same)
        (gossip-Majority names stubborn_timeout stubborn q tlc' events' t t' k f) in
    let ours = of_round time s'.blockchain.confirmations in
    let theirs = of_round time t'.blockchain.confirmations in
    let (o, i, l) =
      shared (keys ours) (keys theirs) names (a.0 time).distinct (b.0 time).distinct
        (a.0 time).known (b.0 time).known
        (omega (arith, length-keys ours, length-keys theirs, j.size, k.size, a.1, b.1)) in
    let (m, em) = confirmed_by o ours i in
    let (m', em') = confirmed_by o theirs l in (o, m, m', (a.0 time).known o i, em, em')
