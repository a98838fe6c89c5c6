-- ===== src/Mongering/Exchange/CatchUp.antt =====
-- A peer that exchanges statuses with another catches up with it.
use p2p_dapp.Base.{
  subst, ap, lookup, inl, inr, ◌⊎◌, ℕ, zero, suc, ◌≤◌, ◌<◌, String, ◌≡◌, refl, sym, ◌∙◌, none, some,
  arith, string_eq, nat_eq, pair_eq, Option-cases, int_eq, Has, Ranges, list_eq,
}
use p2p_dapp.Packet.{GossipPacket}
use p2p_dapp.VectorClock.{VectorClock, next_id, get_peer_status_for_peer}
use p2p_dapp.VectorClock.Compare.{Covers, get_peer_status-none_iff}
use p2p_dapp.VectorClock.Behind.{Covers-of_behind}
use p2p_dapp.GossipHandler.{messages_of}
use p2p_dapp.GossipHandler.Least.{IsConsistent}
use p2p_dapp.Gossiper.{Gossiper}
use p2p_dapp.Network.Authentic.{held}
use p2p_dapp.Mongering.Exchange.{exchange, exchanges}
use p2p_dapp.Mongering.Exchange.Round.{wanted_by, notified, notified-SameGossip, exchange-idle}
use p2p_dapp.Mongering.Exchange.Progress.{
  News, Unchanged, notified-Unchanged, idle-Ready, progress, lag, Ready,
}
use p2p_dapp.Mongering.Exchange.Covered.{some-ne-none, Covers-next_id}

module _ (range : VectorClock → VectorClock) (ranges : (c : VectorClock) → Ranges (range c) c) where
  -- What h has after the exchanges, for the clock of g.
  pub record CaughtUp (g h : Gossiper) (s : Gossiper × Gossiper) : Type 0 where
    pub sender_same : Unchanged range ranges g s.0
    pub news : News range ranges g h s.1
    pub covers : Covers s.1.gossip.my_status g.gossip.my_status
    pub has :
        (o : String) (i : ℕ)
        → 1 ≤ i
        → i < next_id o g.gossip.my_status
        → Has i (messages_of o s.1.gossip)
    pub keeps :
        (o : String) (i : ℕ) (p : GossipPacket) → held h o i ≡ some p → held s.1 o i ≡ some p
    pub consistent : IsConsistent s.1.gossip
    pub nothing_left :
        get_peer_status_for_peer (range s.0.gossip.my_status) (wanted_by range s.1) ≡ none

  caught :
      (g h : Gossiper)
      → Ready range ranges g h
      → Covers h.gossip.my_status g.gossip.my_status
      → CaughtUp g h (g, h)
  caught g h r c = record {
    sender_same = record { messages = λ o. refl; same_clock = refl; named = refl };
    news = λ o i p e. inl e;
    covers = c;
    has = λ o i low lt. (r.receiver.least o).filled i low (
        omega
          (arith, Covers-next_id g.gossip.my_status h.gossip.my_status o c (r.receiver.started o)));
    keeps = λ o i p e. e;
    consistent = r.receiver;
    nothing_left = (get_peer_status-none_iff (ranges _) (ranges _)).1 c;
  }

  caught_later :
      (g h : Gossiper) (s t : Gossiper × Gossiper)
      → Unchanged range ranges g s.0
      → News range ranges g h s.1
      → ((o : String) (i : ℕ) (p : GossipPacket) → held h o i ≡ some p → held s.1 o i ≡ some p)
      → CaughtUp s.0 s.1 t
      → CaughtUp g h t
  caught_later g h s t u news keeps c = record {
    sender_same = record {
      messages = λ o. c.sender_same.messages o ∙ u.messages o;
      same_clock = c.sender_same.same_clock ∙ u.same_clock;
      named = c.sender_same.named ∙ u.named;
    };
    news = λ o i p e. elim (c.news o i p e) [
      | inl before ↦ news o i p before
      | inr (there_, below) ↦ inr (
        ap (lookup i) (sym (u.messages o)) ∙ there_,
        subst (λ c. i < next_id o c) u.same_clock below,
      )
    ];
    covers = rw (← u.same_clock) c.covers;
    has = rw (← u.same_clock) c.has;
    keeps = λ o i p e. c.keeps o i p (keeps o i p e);
    consistent = c.consistent;
    nothing_left = c.nothing_left;
  }

  abbrev Reaches : ℕ → Gossiper → Gossiper → Type 0
  Reaches n g h = (t : Gossiper × Gossiper) × (exchanges range n (g, h) ≡ some t) × CaughtUp g h t

  one_more :
      (n : ℕ) (g h : Gossiper) (s : Gossiper × Gossiper)
      → exchange range (g, h) ≡ some s
      → Unchanged range ranges g s.0
      → News range ranges g h s.1
      → ((o : String) (i : ℕ) (p : GossipPacket) → held h o i ≡ some p → held s.1 o i ≡ some p)
      → Reaches n s.0 s.1
      → Reaches (suc n) g h
  unfolding exchanges
  one_more n g h s e u news keeps (t, rest, c) =
      (t, rw (e, exchanges) rest, caught_later g h s t u news keeps c)

  covered_at :
      (g h : Gossiper)
      → Ready range ranges g h
      → (lag range ranges g h ≤ 0) ⊎ Covers h.gossip.my_status g.gossip.my_status
      → Covers h.gossip.my_status g.gossip.my_status
  covered_at g h r (inl none_left) =
      Covers-of_behind (ranges g.gossip.my_status) r.sender.started h.gossip.my_status (omega arith)
  covered_at g h r (inr c) = c

  reaches :
      (n : ℕ) (g h : Gossiper)
      → Ready range ranges g h
      → (lag range ranges g h ≤ n) ⊎ Covers h.gossip.my_status g.gossip.my_status
      → Reaches n g h
  unfolding exchanges
  reaches zero g h r small = ((g, h), refl, caught g h r (covered_at g h r small))
  reaches (suc n) g h r small =
      elim (Option-cases
        (get_peer_status_for_peer (range g.gossip.my_status) (wanted_by range h))) [
          | inl nothing ↦
              let same = (notified-SameGossip range g h).clock in
              let c =
                (get_peer_status-none_iff (ranges g.gossip.my_status) (ranges h.gossip.my_status)).0
                  nothing in
              one_more n g h (notified range g h, h) (exchange-idle range g h nothing)
                (notified-Unchanged range ranges g h) (λ o i p e. inl e) (λ o i p e. e)
                (reaches n (notified range g h) h (idle-Ready range ranges g h r) (inr (rw same c)))
          | inr (ps, found) ↦
              let (s, done, p) = progress range ranges g h r ps found in
              one_more n g h s done p.sender_same p.news p.keeps (
                reaches n s.0 s.1 p.ready (elim small [
                  | inl le ↦ inl (omega (arith, p.less))
                  | inr c ↦ absurd (
                      some-ne-none (
                        sym found
                        ∙ (get_peer_status-none_iff (ranges g.gossip.my_status)
                              (ranges h.gossip.my_status)).1
                            c))
                ]))
        ]

  -- Two peers whose handlers are consistent, of which g has stored rumors and TLC messages under
  -- their origin and id and does not know of messages of h that h has not, and h has room for what
  -- it is behind. After as many exchanges as h is behind, or more, in which h sends its status and
  -- takes what g answers, no handler has failed, h has every message below the entries of the clock
  -- of g, which is as it was, and all that it had, and g finds nothing to send: the clock of h has
  -- every entry, at least as far.
  pub catches_up :
      (n : ℕ) (g h : Gossiper)
      → Ready range ranges g h
      → lag range ranges g h ≤ n
      → (t : Gossiper × Gossiper) × (exchanges range n (g, h) ≡ some t) × CaughtUp g h t
  catches_up n g h r le = reaches n g h r (inl le)
