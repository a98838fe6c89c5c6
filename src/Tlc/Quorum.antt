-- ===== src/Tlc/Quorum.antt =====
-- Two peers that end a round of `gossipWithConfirmation` have a confirmation of a common peer.
use p2p_dapp.Base.{
  ℕ, ◌+◌, ◌/◌, ◌%◌, ◌^◌, ◌<◌, String, ◌≡◌, refl, sym, ap, ◌∙◌, subst, ◌⊎◌, inl, inr, Bool, true,
  false, not, ◌&&◌, Option, none, some, List, [], ◌∷◌, arith, ltb, ◌==◌, string_eq, nat_eq, pair_eq,
  Bool-cases, Option-cases, insert, length, pos, int_eq, list_eq, In,
}
use p2p_dapp.Packet.{TlcMessage, PrivateMessage}
use p2p_dapp.GossipHandler.{GossipHandler, store_message}
use p2p_dapp.Blockchain.{save_confirmation, of_round}
use p2p_dapp.Causal.Frame.{save_confirmation-SameLedger}
use p2p_dapp.Causal.{panics}
use p2p_dapp.Tlc.Majority.{after-SameLedger}
use p2p_dapp.Tlc.Confirmations.{Known-of_same, Known, save_confirmation-Known, after_handling-Known}
use p2p_dapp.Tlc.{
  tlc_packet, new_tlc, Setting, Gossiping, Event, send_gossip_with_confirmation, confirm,
  create_tlc_message, check_for_confirmations_majority, deliver, on_ack, on_event, continue, loop,
}

-- The messages that are handled meanwhile are from peers of the network.
abbrev pub From : List String → List Event → Type 0
From names [] = Unit {0}
From names (Event.handled h m ∷ es) = In m.origin names × From names es
From names (Event.ack a ∷ es) = From names es
From names (Event.confirmation ∷ es) = From names es
From names (Event.timer ∷ es) = From names es

From-head :
    (names : List String) (e : Event) (es : List Event) → From names (e ∷ es) → From names (e ∷ [])
From-head names (Event.handled h m) es f = (f.0, tt)
From-head names (Event.ack a) es f = tt
From-head names Event.confirmation es f = tt
From-head names Event.timer es f = tt

From-tail :
    (names : List String) (e : Event) (es : List Event) → From names (e ∷ es) → From names es
From-tail names (Event.handled h m) es f = f.1
From-tail names (Event.ack a) es f = f
From-tail names Event.confirmation es f = f
From-tail names Event.timer es f = f

-- A check for the majority keeps the confirmations, and ends the round only by a majority.
abbrev Checked : ℕ → Gossiping → Gossiping × Bool → Type 0
Checked size s r =
    (r.0.blockchain.confirmations ≡ s.blockchain.confirmations)
    × (((r.1 ≡ false) × (r.0.blockchain.my_time ≡ s.blockchain.my_time))
        ⊎ ((r.1 ≡ true)
            × (size / 2 < length (of_round s.blockchain.my_time s.blockchain.confirmations))))

check-Checked :
    (p : Setting) (tlc : TlcMessage) (s : Gossiping) (r : Gossiping × Bool)
    → check_for_confirmations_majority p tlc s ≡ some r
    → Checked p.size s r
unfolding check_for_confirmations_majority send_gossip_with_confirmation
check-Checked p tlc s r e = elim (Option-cases (confirm p tlc s.gossip)) [
  | inl gone ↦ ground (arith, gone)
  | inr (c, made) ↦ ground (arith, made)
]

true-ne-false : ◌≡◌ {A = Bool} true false → ⊥
true-ne-false e = cc

-- An acknowledgement leaves the blockchain handler, or saves a confirmation of the peer itself.
abbrev Acknowledged : String → Gossiping → Option (Gossiping × Bool) → Type 0
Acknowledged name s none = Unit {0}
Acknowledged name s (some r) =
    (r.1 ≡ false)
    × ((r.0.blockchain ≡ s.blockchain)
        ⊎ ((m : TlcMessage) × (r.0.blockchain
              ≡ save_confirmation s.blockchain.my_time name m s.blockchain)))

confirm-origin :
    (p : Setting) (tlc : TlcMessage) (g : GossipHandler) (r : GossipHandler × TlcMessage)
    → confirm p tlc g ≡ some r
    → r.1.origin ≡ p.name
unfolding confirm create_tlc_message
confirm-origin p tlc g r e =
    elim (Option-cases (
      store_message (tlc_packet (new_tlc p tlc.tx_block (pos tlc.id) tlc.fitness g)) p.name g.seq_id
        (record g { seq_id = (g.seq_id + 1) % 2 ^ 32 }))) [
          | inl gone ↦ absurd (ground (arith, gone))
          | inr (x, made) ↦ ground (arith, made)
        ]

delivered-saves :
    (p : Setting) (r : GossipHandler × TlcMessage) (s : Gossiping)
    → p.wait_confirmations ≡ true
    → ((deliver p r s).1 ≡ false)
      × ((deliver p r s).0.blockchain
          ≡ save_confirmation s.blockchain.my_time r.1.origin r.1 s.blockchain)
unfolding deliver send_gossip_with_confirmation
delivered-saves p r s waits = rw (waits, deliver) (refl, refl)

on_ack-Acknowledged :
    (p : Setting) (tlc : TlcMessage) (a : PrivateMessage) (s : Gossiping)
    → p.wait_confirmations ≡ true
    → Acknowledged p.name s (on_ack p tlc a s)
unfolding on_ack
on_ack-Acknowledged p tlc a s waits = elim (Bool-cases (a.id == tlc.id && not s.delivered)) [
  | inr other ↦ rw (other, on_ack) (refl, inl refl)
  | inl mine ↦
      let s' = record s { witnesses = insert a.origin 0 s.witnesses } in
      elim (Bool-cases (ltb (p.size / 2) (length s'.witnesses))) [
        | inr few ↦ rw (mine, on_ack) (rw few (refl, inl refl))
        | inl many ↦ elim (Option-cases (confirm p tlc s.gossip)) [
          | inl gone ↦ rw (mine, on_ack) (rw many (rw gone tt))
          | inr (r, made) ↦
              let d = delivered-saves p r s' waits in
              let origin = confirm-origin p tlc s.gossip r made in
              rw (mine, on_ack)
                (rw many (
                  rw made (
                    d.0,
                    inr (
                      r.1,
                      d.1
                          ∙ ap (λ o. save_confirmation s.blockchain.my_time o r.1 s.blockchain)
                              origin,
                    ),
                  )))
        ]
      ]
]

module _ (names : List String) (time : ℕ) where
  -- The round goes on, and its confirmations are of different peers.
  abbrev pub Goes : Gossiping → Type 0
  Goes s = (s.blockchain.my_time ≡ time) × Known names s.blockchain

  -- A majority of the peers has confirmed in the round.
  abbrev pub Majority : ℕ → Gossiping → Type 0
  Majority size s =
      Known names s.blockchain × (size / 2 < length (of_round time s.blockchain.confirmations))

  abbrev pub Ends : ℕ → Option (Gossiping × Bool) → Type 0
  Ends size none = Unit {0}
  Ends size (some (s, true)) = Majority size s
  Ends size (some (s, false)) = Goes s

  Ends-of_Checked :
      (size : ℕ) (s : Gossiping) (r : Gossiping × Bool)
      → Goes s
      → Checked size s r
      → Ends size (some r)
  Ends-of_Checked size s (t, true) g c = elim c.1 [
    | inl goes ↦ absurd (true-ne-false goes.0)
    | inr ends ↦ (
      Known-of_same names s.blockchain t.blockchain c.0 g.1,
      subst (λ d. size / 2 < length (of_round time d)) (sym c.0)
          (subst (λ r. size / 2 < length (of_round r s.blockchain.confirmations)) g.0 ends.1),
    )
  ]
  Ends-of_Checked size s (t, false) g c = elim c.1 [
    | inl goes ↦ (goes.1 ∙ g.0, Known-of_same names s.blockchain t.blockchain c.0 g.1)
    | inr ends ↦ absurd (true-ne-false (sym ends.0))
  ]

  module _ (p : Setting) (tlc : TlcMessage) (member : In p.name names)
      (waits : p.wait_confirmations ≡ true) where
    pub check-Ends :
        (s : Gossiping) → Goes s → Ends p.size (check_for_confirmations_majority p tlc s)
    check-Ends s g = elim (Option-cases (check_for_confirmations_majority p tlc s)) [
      | inl gone ↦ rw gone tt
      | inr (r, e) ↦ rw e (Ends-of_Checked p.size s r g (check-Checked p tlc s r e))
    ]

    ack-Ends :
        (s : Gossiping) (r : Option (Gossiping × Bool))
        → Acknowledged p.name s r
        → Goes s
        → Ends p.size r
    ack-Ends s none a g = tt
    ack-Ends s (some (t, true)) a g = absurd (true-ne-false a.0)
    ack-Ends s (some (t, false)) (_, inl same) g = rw same g
    ack-Ends s (some (t, false)) (_, inr (m, saved)) g = rw saved (
      (save_confirmation-SameLedger s.blockchain.my_time p.name m s.blockchain).0 ∙ g.0,
      save_confirmation-Known names s.blockchain.my_time p.name m s.blockchain member g.1,
    )

    pub continue-Ends :
        (r : Option (Gossiping × Bool)) (rest : Gossiping → Option (Gossiping × Bool))
        → Ends p.size r
        → ((s : Gossiping) → Goes s → Ends p.size (rest s))
        → Ends p.size (continue r rest)
    unfolding continue
    continue-Ends none rest e more = tt
    continue-Ends (some (s, true)) rest e more = e
    continue-Ends (some (s, false)) rest e more = more s e

    on_event-Ends :
        (e : Event) (s : Gossiping)
        → From names (e ∷ [])
        → Goes s
        → Ends p.size (on_event p tlc e s)
    unfolding on_event
    on_event-Ends (Event.ack a) s f g =
        ack-Ends s (on_ack p tlc a s) (on_ack-Acknowledged p tlc a s waits) g
    on_event-Ends Event.confirmation s f g = rw (waits, on_event) (check-Ends s g)
    on_event-Ends Event.timer s f g = g
    on_event-Ends (Event.handled h m) s f g = elim (Bool-cases (panics h m s.blockchain)) [
      | inl crash ↦ rw (crash, on_event) tt
      | inr fine ↦
          rw (fine, on_event)
            (
              (after-SameLedger h m s.blockchain).0 ∙ g.0,
              after_handling-Known names h m s.blockchain f.0 g.1,
            )
    ]

    pub loop-Ends :
        (es : List Event) (s : Gossiping) → From names es → Goes s → Ends p.size (loop p tlc es s)
    unfolding loop
    loop-Ends [] s f g = g
    loop-Ends (e ∷ es) s f g =
        continue-Ends (on_event p tlc e s) (loop p tlc es)
          (on_event-Ends e s (From-head names e es f) g)
          (λ t. loop-Ends es t (From-tail names e es f))
