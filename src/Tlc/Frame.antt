-- ===== src/Tlc/Frame.antt =====
-- The loop of `gossipWithConfirmation` leaves the committed chain as it was.

use p2p_dapp.Base.{
  ℕ, ◌≡◌, refl, ◌∙◌, inl, inr, Bool, true, false, Option, none, some, List, [], ◌∷◌, arith, ltb,
  if◌then◌else◌, string_eq, nat_eq, pair_eq, Bool-cases, Option-cases, insert, int_eq, list_eq,
}
use p2p_dapp.Packet.{TlcMessage}
use p2p_dapp.GossipHandler.{GossipHandler}
use p2p_dapp.Blockchain.{BlockchainHandler}
use p2p_dapp.Causal.Frame.{save_confirmation-SameLedger}
use p2p_dapp.Causal.{panics}
use p2p_dapp.Tlc.Majority.{after-SameLedger}
use p2p_dapp.Tlc.{
  Setting, Gossiping, Event, send_gossip_with_confirmation, confirm,
  check_for_confirmations_majority, deliver, on_ack, on_event, continue, loop,
  gossip_with_confirmation,
}

-- The committed blocks and the top are the same.
abbrev pub SameChain : BlockchainHandler → BlockchainHandler → Type 0
SameChain b b' =
    (b'.committed_history ≡ b.committed_history) × (b'.top_blockchain_hash ≡ b.top_blockchain_hash)

pub SameChain-trans : (a b c : BlockchainHandler) → SameChain a b → SameChain b c → SameChain a c
SameChain-trans a b c p q = (q.0 ∙ p.0, q.1 ∙ p.1)

-- If the run goes on to a state, its chain is that of the first.
abbrev pub Keeps : Gossiping → Option (Gossiping × Bool) → Type 0
Keeps s none = Unit {0}
Keeps s (some r) = SameChain s.blockchain r.0.blockchain

pub Keeps-of_same :
    (s t : Gossiping) (r : Option (Gossiping × Bool))
    → SameChain s.blockchain t.blockchain
    → Keeps t r
    → Keeps s r
Keeps-of_same s t none k h = tt
Keeps-of_same s t (some (u, over)) k h = SameChain-trans s.blockchain t.blockchain u.blockchain k h

module _ (p : Setting) (tlc : TlcMessage) where
  check-Keeps : (s : Gossiping) → Keeps s (check_for_confirmations_majority p tlc s)
  unfolding check_for_confirmations_majority send_gossip_with_confirmation
  check-Keeps s = elim (Option-cases (confirm p tlc s.gossip)) [
    | inl gone ↦ ground (arith, gone)
    | inr (r, e) ↦ ground (arith, e)
  ]

  deliver-SameChain :
      (r : GossipHandler × TlcMessage) (s : Gossiping)
      → SameChain s.blockchain (deliver p r s).0.blockchain
  unfolding deliver send_gossip_with_confirmation
  deliver-SameChain r s =
      let k = save_confirmation-SameLedger s.blockchain.my_time r.1.origin r.1 s.blockchain in
      (ground (arith, k.1), ground (arith, k.2))

  on_ack-Keeps : (a : _) (s : Gossiping) → Keeps s (on_ack p tlc a s)
  unfolding on_ack
  on_ack-Keeps a s = elim (Option-cases (confirm p tlc s.gossip)) [
    | inl gone ↦ ground (arith, gone)
    | inr (r, e) ↦
        let k = deliver-SameChain r (record s { witnesses = insert a.origin 0 s.witnesses }) in
        ground (arith, e, k.0, k.1)
  ]

  on_event-Keeps : (e : Event) (s : Gossiping) → Keeps s (on_event p tlc e s)
  unfolding on_event
  on_event-Keeps (Event.ack a) s = on_ack-Keeps a s
  on_event-Keeps Event.confirmation s = elim (Bool-cases p.wait_confirmations) [
    | inl waits ↦ rw (waits, on_event) (check-Keeps s)
    | inr goes ↦ rw (goes, on_event) (refl, refl)
  ]
  on_event-Keeps Event.timer s = (refl, refl)
  on_event-Keeps (Event.handled h m) s = elim (Bool-cases (panics h m s.blockchain)) [
    | inl crash ↦ rw (crash, on_event) tt
    | inr fine ↦ let k = after-SameLedger h m s.blockchain in rw (fine, on_event) (k.1, k.2)
  ]

  continue-Keeps :
      (s : Gossiping) (r : Option (Gossiping × Bool)) (rest : Gossiping → Option (Gossiping × Bool))
      → Keeps s r
      → ((t : Gossiping) → SameChain s.blockchain t.blockchain → Keeps s (rest t))
      → Keeps s (continue r rest)
  unfolding continue
  continue-Keeps s none rest k more = tt
  continue-Keeps s (some (t, true)) rest k more = k
  continue-Keeps s (some (t, false)) rest k more = more t k

  loop-Keeps :
      (es : List Event) (s t : Gossiping)
      → SameChain s.blockchain t.blockchain
      → Keeps s (loop p tlc es t)
  unfolding loop
  loop-Keeps [] s t k = k
  loop-Keeps (e ∷ es) s t k =
      continue-Keeps s (on_event p tlc e t) (loop p tlc es)
        (Keeps-of_same s t (on_event p tlc e t) k (on_event-Keeps e t)) (loop-Keeps es s)

  if-Keeps :
      (s : Gossiping) (b : Bool) (x y : Option (Gossiping × Bool))
      → Keeps s x
      → Keeps s y
      → Keeps s (if b then x else y)
  if-Keeps s true x y h k = h
  if-Keeps s false x y h k = k

  pub gossip-Keeps :
      (stubborn_timeout : ℕ) (es : List Event) (s : Gossiping)
      → Keeps s (gossip_with_confirmation stubborn_timeout p tlc es s)
  unfolding gossip_with_confirmation
  gossip-Keeps stubborn_timeout es s =
      let start = record s { witnesses = (p.name, 0) ∷ []; delivered = false; sent = [] } in
      let run : (t : Gossiping)
          → SameChain s.blockchain t.blockchain
          → Keeps s (if ltb 0 stubborn_timeout then loop p tlc es t else some (t, true)) =
        λ t k. if-Keeps s (ltb 0 stubborn_timeout) _ _ (loop-Keeps es s t k) k in
      if-Keeps s p.wait_confirmations _ _
        (continue-Keeps s (check_for_confirmations_majority p tlc start) _ (check-Keeps start) run)
        (run start (refl, refl))
