-- ===== src/Tlc/Majority.antt =====
-- What the loop does until it returns: one confirmed message at most, and one round.
use p2p_dapp.Base.{
  if_true, ℕ, ◌+◌, ◌-◌, ◌%◌, ◌^◌, ◌<◌, ◌≡◌, refl, sym, ap, ◌∙◌, subst, ◌⊎◌, inl, inr, Bool, true,
  false, ◌||◌, Option, none, some, List, [], ◌∷◌, arith, if◌then◌else◌, Option-cases, length,
  lt→ltb, pos,
}
use p2p_dapp.Packet.{TlcMessage, StatusPacket}
use p2p_dapp.GossipHandler.{GossipHandler, messages_of}
use p2p_dapp.GossipHandler.Storage.{store_message-Stored}
use p2p_dapp.GossipHandler.Least.{IsConsistent}
use p2p_dapp.Blockchain.{BlockchainHandler}
use p2p_dapp.Causal.{Handling, handle_tlc_message, panics, reads_nil}
use p2p_dapp.Causal.Frame.{SameLedger, handle-SameLedger, save_confirmation-SameLedger}
use p2p_dapp.Tlc.{
  Setting, Gossiping, Event, create_tlc_message, tlc_packet, new_tlc, send_gossip_with_confirmation,
  confirm, check_for_confirmations_majority, after_handling, deliver, on_ack, on_event, continue,
  loop, gossip_with_confirmation,
}

-- The TLC messages that are handled meanwhile carry a vector clock.
abbrev pub Clocked : List Event → Type 0
Clocked [] = Unit {0}
Clocked (Event.handled h m ∷ es) = ((c : StatusPacket) × (m.vector_clock ≡ some c)) × Clocked es
Clocked (Event.ack a ∷ es) = Clocked es
Clocked (Event.confirmation ∷ es) = Clocked es
Clocked (Event.timer ∷ es) = Clocked es

Clocked-head : (e : Event) (es : List Event) → Clocked (e ∷ es) → Clocked (e ∷ [])
Clocked-head (Event.handled h m) es c = (c.0, tt)
Clocked-head (Event.ack a) es c = tt
Clocked-head Event.confirmation es c = tt
Clocked-head Event.timer es c = tt

Clocked-tail : (e : Event) (es : List Event) → Clocked (e ∷ es) → Clocked es
Clocked-tail (Event.handled h m) es c = c.1
Clocked-tail (Event.ack a) es c = c
Clocked-tail Event.confirmation es c = c
Clocked-tail Event.timer es c = c

clocked-panics :
    (h : Handling) (m : TlcMessage) (b : BlockchainHandler)
    → (c : StatusPacket) × (m.vector_clock ≡ some c)
    → panics h m b ≡ false
unfolding panics reads_nil
clocked-panics h m b (c, e) = ground (arith, e)

pub after-SameLedger :
    (h : Handling) (m : TlcMessage) (b : BlockchainHandler) → SameLedger b (after_handling h m b)
unfolding after_handling
after-SameLedger h m b = elim (Option-cases (handle_tlc_message h m b)) [
  | inl ends ↦ rw (ends, after_handling) (refl, refl, refl)
  | inr (r, e) ↦ rw (e, after_handling) (handle-SameLedger h m b r e)
]

module _ (p : Setting) (tlc : TlcMessage) (g : GossipHandler) (time : ℕ)
    (waits : p.wait_confirmations ≡ true) (consistent : IsConsistent g)
    (room : length (messages_of p.name g) + 1 < 2 ^ 32 - 1) where
  pub created_first : (r : GossipHandler × TlcMessage) × (confirm p tlc g ≡ some r)
  unfolding confirm create_tlc_message
  created_first = elim (Option-cases (confirm p tlc g)) [
    | inl gone ↦
        let (h', loaded, stored, _) =
          store_message-Stored (tlc_packet (new_tlc p tlc.tx_block (pos tlc.id) tlc.fitness g))
            p.name g.seq_id (record g { seq_id = (g.seq_id + 1) % 2 ^ 32 })
            (record { least = consistent.least; started = consistent.started }) room in
        absurd (ground (arith, gone, stored))
    | inr (r, e) ↦ (r, e)
  ]

  -- Nothing was sent yet.
  abbrev pub Before : Gossiping → Type 0
  Before s = (s.delivered ≡ false) × (s.gossip ≡ g) × (s.sent ≡ []) × (s.blockchain.my_time ≡ time)

  -- The confirmed message was sent, the round goes on.
  abbrev pub Delivered : Gossiping → Type 0
  Delivered s =
      (s.delivered ≡ true)
      × (length s.sent ≡ 1)
      × (s.blockchain.my_time ≡ time)
      × (s.gossip ≡ created_first.0.0)

  abbrev pub After : Option (Gossiping × Bool) → Type 0
  After none = ⊥
  After (some (s, true)) =
      (length s.sent ≡ 1)
      × (s.blockchain.my_time ≡ (time + 1) % 2 ^ 32)
      × (s.gossip ≡ created_first.0.0)
  After (some (s, false)) = Before s ⊎ Delivered s

  created : (s : Gossiping) → s.gossip ≡ g → confirm p tlc s.gossip ≡ some created_first.0
  created s e = ap (confirm p tlc) e ∙ created_first.1

  check-After :
      (s : Gossiping) → Before s ⊎ Delivered s → After (check_for_confirmations_majority p tlc s)
  unfolding check_for_confirmations_majority send_gossip_with_confirmation
  check-After s (inl b) = let e = created s b.1 in ground (arith, e, b.0, b.2, b.3)
  check-After s (inr d) = ground (arith, d.0, d.1, d.2, d.3)

  on_event-After :
      (e : Event) (s : Gossiping)
      → Clocked (e ∷ [])
      → Before s ⊎ Delivered s
      → After (on_event p tlc e s)
  unfolding on_event on_ack deliver send_gossip_with_confirmation
  on_event-After (Event.ack a) s k (inl b) =
      let r = created_first.0 in
      let e = created s b.1 in
      ground (
        arith,
        e,
        b.0,
        b.2,
        b.3,
        waits,
        (save_confirmation-SameLedger s.blockchain.my_time r.1.origin r.1 s.blockchain).0,
      )
  on_event-After (Event.ack a) s k (inr d) = ground (arith, d.0, d.1, d.2, d.3)
  on_event-After Event.confirmation s k b = rw (waits, on_event) (check-After s b)
  on_event-After Event.timer s k b = b
  on_event-After (Event.handled h m) s k (inl b) =
      rw (clocked-panics h m s.blockchain k.0, on_event)
        (inl (b.0, b.1, b.2, (after-SameLedger h m s.blockchain).0 ∙ b.3))
  on_event-After (Event.handled h m) s k (inr d) =
      rw (clocked-panics h m s.blockchain k.0, on_event)
        (inr (d.0, d.1, (after-SameLedger h m s.blockchain).0 ∙ d.2, d.3))

  continue-After :
      (r : Option (Gossiping × Bool)) (rest : Gossiping → Option (Gossiping × Bool))
      → After r
      → ((s : Gossiping) → Before s ⊎ Delivered s → After (rest s))
      → After (continue r rest)
  unfolding continue
  continue-After none rest a more = absurd a
  continue-After (some (s, true)) rest a more = a
  continue-After (some (s, false)) rest a more = more s a

  loop-After :
      (es : List Event) (s : Gossiping)
      → Clocked es
      → Before s ⊎ Delivered s
      → After (loop p tlc es s)
  unfolding loop
  loop-After [] s k b = b
  loop-After (e ∷ es) s k b =
      continue-After (on_event p tlc e s) (loop p tlc es)
        (on_event-After e s (Clocked-head e es k) b) (λ t. loop-After es t (Clocked-tail e es k))

  After-result :
      (r : Option (Gossiping × Bool))
      → After r
      → (s' : Gossiping) × (over : Bool) × (r ≡ some (s', over))
        × (length s'.sent ≡ (if over || s'.delivered then 1 else 0))
        × (s'.blockchain.my_time ≡ (if over then (time + 1) % 2 ^ 32 else time))
  After-result none a = absurd a
  After-result (some (s, true)) a = (s, true, refl, a.0, a.1)
  After-result (some (s, false)) (inl b) = (s, false, refl, rw (b.0, b.2) refl, b.3)
  After-result (some (s, false)) (inr d) = (s, false, refl, rw d.0 d.1, d.2)

-- What a whole run comes to.
pub gossip-After :
    (p : Setting) (tlc : TlcMessage) (events : List Event) (s : Gossiping) (stubborn_timeout : ℕ)
    (waits : p.wait_confirmations ≡ true)
    → 0 < stubborn_timeout
    → Clocked events
    → (consistent : IsConsistent s.gossip)
      (room : length (messages_of p.name s.gossip) + 1 < 2 ^ 32 - 1)
    → After p tlc s.gossip s.blockchain.my_time waits consistent room
        (gossip_with_confirmation stubborn_timeout p tlc events s)
unfolding gossip_with_confirmation
gossip-After p tlc events s stubborn_timeout waits stubborn clocked consistent room =
    let start = record s { witnesses = (p.name, 0) ∷ []; delivered = false; sent = [] } in
    let time = s.blockchain.my_time in
    let checked =
      check-After p tlc s.gossip time waits consistent room start (inl (refl, refl, refl, refl)) in
    let begins : gossip_with_confirmation stubborn_timeout p tlc events s
        ≡ continue (check_for_confirmations_majority p tlc start) (loop p tlc events) =
      if_true p.wait_confirmations _ _ waits
      ∙ ap
          (λ b.
            continue (check_for_confirmations_majority p tlc start)
              (λ t. if b then loop p tlc events t else some (t, true)))
          (lt→ltb 0 stubborn_timeout stubborn) in
    subst (After p tlc s.gossip time waits consistent room) (sym begins) (
      continue-After p tlc s.gossip time waits consistent room
        (check_for_confirmations_majority p tlc start) (loop p tlc events) checked
        (λ t. loop-After p tlc s.gossip time waits consistent room events t clocked))

-- `gossipWithConfirmation` of a message that waits for confirmations, with a stubborn timeout that is
-- not 0, by a peer whose handler is consistent and has room for one more message, over any events that
-- come, of which the TLC messages that are handled carry a vector clock: it does not fail; when it has returned, exactly one confirmed message was sent and the round is the next one (a uint32);
-- as long as it has not, the round is the same and at most one confirmed message was sent, exactly
-- one if the message is delivered.
pub gossip_with_confirmation_once :
    (p : Setting) (tlc : TlcMessage) (events : List Event) (s : Gossiping) (stubborn_timeout : ℕ)
    → p.wait_confirmations ≡ true
    → 0 < stubborn_timeout
    → Clocked events
    → IsConsistent s.gossip
    → length (messages_of p.name s.gossip) + 1 < 2 ^ 32 - 1
    → (s' : Gossiping) × (over : Bool) × (gossip_with_confirmation stubborn_timeout p tlc events s
        ≡ some (s', over))
      × (length s'.sent ≡ (if over || s'.delivered then 1 else 0))
      × (s'.blockchain.my_time
          ≡ (if over then (s.blockchain.my_time + 1) % 2 ^ 32 else s.blockchain.my_time))
gossip_with_confirmation_once p tlc events s stubborn_timeout waits stubborn clocked consistent
      room =
    After-result p tlc s.gossip s.blockchain.my_time waits consistent room
      (gossip_with_confirmation stubborn_timeout p tlc events s)
      (gossip-After p tlc events s stubborn_timeout waits stubborn clocked consistent room)
