-- ===== src/Tlc/Confirmations.antt =====
-- Who the confirmations of a round are from: each from another peer of the network, whatever events
-- come to the loop of `gossipWithConfirmation`.
use p2p_dapp.Base.{
  ℕ, String, ◌≡◌, sym, subst, ◌⊎◌, inl, inr, Bool, true, false, not, ◌&&◌, ◌||◌, Option, none, some,
  List, [], ◌∷◌, map, arith, leb, if◌then◌else◌, ◌==◌, string_eq, nat_eq, pair_eq, eq_true,
  Bool-cases, Option-cases, Dict, insert, lookup-insert, minus_one, int_eq, list_eq, In, here,
  there, mapped,
}
use p2p_dapp.Base.Shared.{Distinct}
use p2p_dapp.Packet.{TlcMessage}
use p2p_dapp.Blockchain.{
  TlcMessages, BlockchainHandler, of_round, save_confirmation, save_message_seen, note_confirmed,
}
use p2p_dapp.Blockchain.{get_message_original_round}
use p2p_dapp.Packet.{PrivateMessage}
use p2p_dapp.Causal.{
  clock_of, unless_panics, acknowledged, ack_of, Handling, Handled, check_for_causal_property,
  take_confirmation, handle_tlc_message,
}
use p2p_dapp.Tlc.{after_handling}

abbrev pub keys : TlcMessages → List String
keys d = map (λ e. e.0) d

module _ (names : List String) where
  -- Confirmations of different peers, all of the network.
  pub record Counted (d : TlcMessages) : Type 0 where
    pub distinct : Distinct (keys d)
    pub known : (o : String) → In o (keys d) → In o names

  abbrev pub Known : BlockchainHandler → Type 0
  Known b = (r : ℕ) → Counted (of_round r b.confirmations)

  keys_step :
      (k j n : String) (v w : TlcMessage) (d : TlcMessages) (found : Bool)
      → (In j (keys (insert k v d)) → (j ≡ k) ⊎ In j (keys d))
      → In j (keys (if found then (k, v) ∷ d else (n, w) ∷ insert k v d))
      → (j ≡ k) ⊎ In j (n ∷ keys d)
  keys_step k j n v w d true rest (here e) = inl e
  keys_step k j n v w d true rest (there i) = inr (there i)
  keys_step k j n v w d false rest (here e) = inr (here e)
  keys_step k j n v w d false rest (there i) = elim (rest i) [
    | inl e ↦ inl e
    | inr old ↦ inr (there old)
  ]

  keys-insert :
      (k j : String) (v : TlcMessage) (d : TlcMessages)
      → In j (keys (insert k v d))
      → (j ≡ k) ⊎ In j (keys d)
  unfolding insert
  keys-insert k j v [] (here e) = inl e
  keys-insert k j v [] (there i) = elim i [ ]
  keys-insert k j v ((n, w) ∷ d) i = keys_step k j n v w d (n == k) (keys-insert k j v d) i

  Distinct-insert :
      (k : String) (v : TlcMessage) (d : TlcMessages)
      → Distinct (keys d)
      → Distinct (keys (insert k v d))
  unfolding insert
  Distinct-insert k v [] h = (λ i. elim i [ ], tt)
  Distinct-insert k v ((n, w) ∷ d) h = elim (Bool-cases (n == k)) [
    | inl same ↦ rw same (λ i. h.0 (subst (λ x. In x (keys d)) (sym (eq_true n k same)) i), h.1)
    | inr other ↦ rw other (
      λ i. elim (keys-insert k n v d i) [
        | inl e ↦ absurd (ground (arith, string_eq.beq_iff n k))
        | inr old ↦ h.0 old
      ],
      Distinct-insert k v d h.1,
    )
  ]

  insert-Counted :
      (k : String) (v : TlcMessage) (d : TlcMessages)
      → In k names
      → Counted d
      → Counted (insert k v d)
  insert-Counted k v d i c = record {
    distinct = Distinct-insert k v d c.distinct;
    known = λ o j. elim (keys-insert k o v d j) [
      | inl e ↦ subst (λ x. In x names) (sym e) i
      | inr old ↦ c.known o old
    ];
  }

  saved-Counted :
      (round r : ℕ) (d : TlcMessages) (all : Dict ℕ TlcMessages)
      → Counted d
      → Counted (of_round r all)
      → Counted (of_round r (insert round d all))
  saved-Counted round r d all c old =
      rw (lookup-insert round r d all, of_round)
        (elim (Bool-cases (round == r)) [ inl same ↦ rw same c | inr other ↦ rw other old ])

  pub save_confirmation-Known :
      (round : ℕ) (o : String) (m : TlcMessage) (b : BlockchainHandler)
      → In o names
      → Known b
      → Known (save_confirmation round o m b)
  unfolding save_confirmation
  save_confirmation-Known round o m b i k r = elim (Bool-cases (leb b.my_time round)) [
    | inr late ↦ rw late (k r)
    | inl due ↦ rw due (
        saved-Counted round r (insert o m (of_round round b.confirmations)) b.confirmations
          (insert-Counted o m (of_round round b.confirmations) i (k round)) (k r))
  ]

  pub Known-of_same :
      (b b' : BlockchainHandler) → b'.confirmations ≡ b.confirmations → Known b → Known b'
  Known-of_same b b' e k r = rw e (k r)

  if-Known :
      (test : Bool) (x y : BlockchainHandler) → Known x → Known y → Known (if test then x else y)
  if-Known true x y h k = h
  if-Known false x y h k = k

  seen-Known :
      (round : ℕ) (m : TlcMessage) (b : BlockchainHandler)
      → Known b
      → Known (save_message_seen round m.origin m b)
  unfolding save_message_seen
  seen-Known round m b k = k

  causal-Known :
      (p : Handling) (m : TlcMessage) (b : BlockchainHandler)
      → Known b
      → Known (check_for_causal_property m.origin (clock_of m) m.confirmed p.clock b).0
  unfolding check_for_causal_property note_confirmed
  causal-Known p m b =
      Known-of_same b (check_for_causal_property m.origin (clock_of m) m.confirmed p.clock b).0
        (ground arith)

  taken :
      (p : Handling) (round : ℕ) (m : TlcMessage) (ack : Option PrivateMessage)
      (b : BlockchainHandler)
      → (take_confirmation p round m ack b).blockchain ≡ (
          if (p.modes.hw3ex3 || p.modes.hw3ex4) && not (m.confirmed == minus_one)
          then (let c = check_for_causal_property m.origin (clock_of m) m.confirmed p.clock b in
              if c.1 then save_confirmation round m.origin m c.0 else c.0)
          else b)
  unfolding take_confirmation
  taken p round m ack b = ground arith

  take_confirmation-Known :
      (p : Handling) (round : ℕ) (m : TlcMessage) (ack : Option PrivateMessage)
      (b : BlockchainHandler)
      → In m.origin names
      → Known b
      → Known (take_confirmation p round m ack b).blockchain
  take_confirmation-Known p round m ack b i k =
      let c = check_for_causal_property m.origin (clock_of m) m.confirmed p.clock b in
      let kept = causal-Known p m b k in
      subst Known (sym (taken p round m ack b)) (
        if-Known ((p.modes.hw3ex3 || p.modes.hw3ex4) && not (m.confirmed == minus_one)) _ b
          (if-Known c.1 _ c.0 (save_confirmation-Known round m.origin m c.0 i kept) kept) k)

  handle-Known :
      (p : Handling) (m : TlcMessage) (b : BlockchainHandler) (h : Handled)
      → In m.origin names
      → Known b
      → handle_tlc_message p m b ≡ some h
      → Known h.blockchain
  unfolding handle_tlc_message
  handle-Known p m b h i k e = elim (Option-cases (unless_panics p m b)) [
    | inl ends ↦ absurd (ground (arith, ends))
    | inr (valid, known) ↦
        let round = get_message_original_round m.origin m.id m.confirmed b in
        let acks = valid && acknowledged p.modes round m b in
        let saves =
          if-Known (acks && p.modes.hw3ex4) (save_message_seen round m.origin m b) b
            (seen-Known round m b k) k in
        subst (λ x. Known x.blockchain) (mapped _ _ valid h known e)
          (take_confirmation-Known p round m (if acks then some (ack_of p m) else none) _ i saves)
  ]

  pub after_handling-Known :
      (h : Handling) (m : TlcMessage) (b : BlockchainHandler)
      → In m.origin names
      → Known b
      → Known (after_handling h m b)
  unfolding after_handling
  after_handling-Known h m b i k = elim (Option-cases (handle_tlc_message h m b)) [
    | inl ends ↦ rw (ends, after_handling) k
    | inr (r, e) ↦ rw (e, after_handling) (handle-Known h m b r i k e)
  ]
