-- ===== src/Mongering/Exchange/Progress.antt =====
-- One exchange brings a peer that is behind another closer to it.
use p2p_dapp.Base.{
  ◌⊎◌, inl, inr, ℕ, ◌+◌, ◌-◌, ◌^◌, ◌≤◌, ◌<◌, String, ◌≡◌, refl, sym, ap, ◌∙◌, subst, Bool, false,
  none, some, arith, ◌==◌, string_eq, nat_eq, pair_eq, eq_true, Bool-cases, lookup, length, int_eq,
  Ranges, by_key, list_eq, lookup-load_or_store_kept,
}
use p2p_dapp.Packet.{GossipPacket, PeerStatus}
use p2p_dapp.VectorClock.{VectorClock, next_id, get_peer_status_for_peer}
use p2p_dapp.VectorClock.Compare.{Ahead, get_peer_status-Lacks}
use p2p_dapp.VectorClock.Behind.{behind, behind-lt, le-behind, Ahead-In}
use p2p_dapp.GossipHandler.{GossipHandler, messages_of}
use p2p_dapp.GossipHandler.Storage.{Stored, store_message-Stored}
use p2p_dapp.GossipHandler.Least.{stored, IsConsistent}
use p2p_dapp.GossipHandler.Exchange.{get_packet_total, store_fresh}
use p2p_dapp.Gossiper.{Gossiper}
use p2p_dapp.Network.Authentic.{held}
use p2p_dapp.Mongering.Exchange.{exchange}
use p2p_dapp.Mongering.Exchange.Round.{
  SameGossip, IsGossip, answer-taken, wanted_by, notified, notified-SameGossip, exchange-answered,
}
use p2p_dapp.Mongering.Exchange.Covered.{messages_of-same, SameGossip-IsConsistent, stored_news}

module _ (range : VectorClock → VectorClock) (ranges : (c : VectorClock) → Ranges (range c) c) where
  -- The peer h has room for what it lacks of g.
  abbrev pub lag : Gossiper → Gossiper → ℕ
  lag g h = behind (range g.gossip.my_status) h.gossip.my_status

  -- Both handlers are consistent, what g has stored are rumors and TLC messages under their origin
  -- and id, h has its own messages, and there is room for what h lacks.
  pub record Ready (g h : Gossiper) : Type 0 where
    pub sender : IsConsistent g.gossip
    pub receiver : IsConsistent h.gossip
    pub filed : (o : String) (i : ℕ) (p : GossipPacket) → held g o i ≡ some p → IsGossip p o i
    pub own : next_id h.name g.gossip.my_status ≤ next_id h.name h.gossip.my_status
    pub room : (o : String) → length (messages_of o h.gossip) + lag g h < 2 ^ 32 - 1

  -- What k has is what h had, or a message of g below the clock of g.
  abbrev pub News : Gossiper → Gossiper → Gossiper → Type 0
  News g h k =
      (o : String) (i : ℕ) (p : GossipPacket)
      → held k o i ≡ some p
      → (held h o i ≡ some p) ⊎ ((held g o i ≡ some p) × (i < next_id o g.gossip.my_status))

  -- A peer with the messages, the clock and the name of another.
  pub record Unchanged (g g' : Gossiper) : Type 0 where
    pub messages : (o : String) → messages_of o g'.gossip ≡ messages_of o g.gossip
    pub same_clock : g'.gossip.my_status ≡ g.gossip.my_status
    pub named : g'.name ≡ g.name

  pub notified-Unchanged : (g h : Gossiper) → Unchanged g (notified range g h)
  notified-Unchanged g h = record {
    messages = messages_of-same g.gossip _ (notified-SameGossip range g h);
    same_clock = (notified-SameGossip range g h).clock;
    named = refl;
  }

  -- What an exchange does where there is something to send.
  pub record Progress (g h : Gossiper) (s : Gossiper × Gossiper) : Type 0 where
    pub ready : Ready s.0 s.1
    pub sender_same : Unchanged g s.0
    pub news : News g h s.1
    pub less : lag s.0 s.1 < lag g h
    pub keeps :
        (o : String) (i : ℕ) (p : GossipPacket) → held h o i ≡ some p → held s.1 o i ≡ some p

  module _ (g h : Gossiper) (r : Ready g h) where
    pub idle-Ready : Ready (notified range g h) h
    idle-Ready =
        let same = notified-SameGossip range g h in
        record {
          sender = SameGossip-IsConsistent g.gossip _ same r.sender;
          receiver = r.receiver;
          filed = λ o i p e. r.filed o i p (rw (← messages_of-same g.gossip _ same o) e);
          own = rw same.clock r.own;
          room = rw same.clock r.room;
        }

    module _ (ps : PeerStatus)
        (found : get_peer_status_for_peer (range g.gossip.my_status) (wanted_by range h)
          ≡ some ps) where
      asked :
          Ahead
            (lookup ps.identifier g.gossip.my_status)
            (lookup ps.identifier h.gossip.my_status)
            ps.next_id
      asked = get_peer_status-Lacks (ranges g.gossip.my_status) (ranges h.gossip.my_status) ps found

      not_own : (ps.identifier == h.name) ≡ false
      not_own =
          let (n, _, lt, k, e) =
            Ahead-In (ranges g.gossip.my_status) r.sender.started h.gossip.my_status ps asked in
          elim (Bool-cases (ps.identifier == h.name)) [
            | inl same ↦
                let o : ps.identifier ≡ h.name = eq_true ps.identifier h.name same in
                let le =
                  subst (λ x. next_id x g.gossip.my_status ≤ next_id x h.gossip.my_status) (sym o)
                    r.own in
                absurd (omega arith)
            | inr other ↦ other
          ]

      -- The clock of h is behind in the entry that is asked for.
      lag_pos : 1 ≤ lag g h
      lag_pos =
          let (n, entry, lt, k, _) =
            Ahead-In (ranges g.gossip.my_status) r.sender.started h.gossip.my_status ps asked in
          omega
            (arith, le-behind (range g.gossip.my_status) h.gossip.my_status ps.identifier n entry)

      asked-next : next_id ps.identifier h.gossip.my_status ≡ ps.next_id
      asked-next =
          sym (Ahead-In (ranges g.gossip.my_status) r.sender.started h.gossip.my_status ps asked).3

      module _ (p : GossipPacket) (s : GossipHandler) (loaded : Bool)
          (st : Stored p ps.identifier ps.next_id h.gossip s loaded) (h' : Gossiper)
          (name : h'.name ≡ h.name) (same : SameGossip s h'.gossip) where
        lag-falls : lag (notified range g h) h' < lag g h
        lag-falls =
            let (n, entry, lt, k, _) =
              Ahead-In (ranges g.gossip.my_status) r.sender.started h.gossip.my_status ps asked in
            rw ((notified-SameGossip range g h).clock, same.clock)
              (behind-lt (range g.gossip.my_status) h.gossip.my_status s.my_status ps.identifier n
                st.grows entry (omega arith) (omega (arith, st.moved (sym asked-next), asked-next)))

        kept : (o : String) (i : ℕ) (q : GossipPacket) → held h o i ≡ some q → held h' o i ≡ some q
        kept o i q e =
            ap (lookup i) (messages_of-same s h'.gossip same o)
            ∙ by_key (λ x. held h x i ≡ some q → lookup i (messages_of x s) ≡ some q) ps.identifier
                o (λ f. st.mine i ∙ lookup-load_or_store_kept ps.next_id i p q _ f)
                (λ ne f. ap (lookup i) (st.others o ne) ∙ f) e

        taken-News :
            held g ps.identifier ps.next_id ≡ some p
            → lookup ps.next_id (messages_of ps.identifier h.gossip) ≡ none
            → News g h h'
        taken-News there_ unknown o i q e =
            let (n, entry, lt, k, next) =
              Ahead-In (ranges g.gossip.my_status) r.sender.started h.gossip.my_status ps asked in
            by_key
              (λ x.
                lookup i (messages_of x s) ≡ some q
                → (held h x i ≡ some q)
                  ⊎ ((held g x i ≡ some q) × (i < next_id x g.gossip.my_status)))
              ps.identifier o
              (λ f. elim (stored_news ps.next_id i p q _ _ st.mine unknown f) [
                | inl old ↦ inl old
                | inr (ei, ep) ↦ inr (
                  subst (λ j. held g ps.identifier j ≡ some q) ei (there_ ∙ ap some ep),
                  omega (arith, ei, lt, next),
                )
              ])
              (λ ne f. inl (ap (lookup i) (sym (st.others o ne)) ∙ f))
              (ap (lookup i) (sym (messages_of-same s h'.gossip same o)) ∙ e)

        taken-Progress :
            held g ps.identifier ps.next_id ≡ some p
            → lookup ps.next_id (messages_of ps.identifier h.gossip) ≡ none
            → Progress g h (notified range g h, h')
        taken-Progress there_ unknown = record {
          ready = record {
            sender = idle-Ready.sender;
            receiver = SameGossip-IsConsistent s h'.gossip same st.consistent;
            filed = idle-Ready.filed;
            own =
                rw ((notified-SameGossip range g h).clock, same.clock, name)
                  (omega (arith, r.own, st.grows h.name));
            room = λ o.
                rw (messages_of-same s h'.gossip same o)
                  (omega (arith, r.room o, st.size o, lag-falls));
          };
          sender_same = notified-Unchanged g h;
          news = taken-News there_ unknown;
          less = lag-falls;
          keeps = kept;
        }

      pub progress : (s : Gossiper × Gossiper) × (exchange range (g, h) ≡ some s) × Progress g h s
      progress =
          let (p, have, there_) =
            get_packet_total r.sender (ranges g.gossip.my_status) (ranges h.gossip.my_status) ps
              found (λ o m q. omega (arith, r.receiver.started o m q)) in
          let small : length (messages_of ps.identifier h.gossip) + 1 < 2 ^ 32 - 1 =
            omega (arith, r.room ps.identifier, lag_pos) in
          let (s, loaded, stored, st) =
            store_message-Stored p ps.identifier ps.next_id h.gossip r.receiver small in
          let unknown : lookup ps.next_id (messages_of ps.identifier h.gossip) ≡ none =
            rw (← asked-next) (r.receiver.least ps.identifier).unknown in
          let (fresh, _) = store_fresh unknown st in
          let (h', taken, name, same) =
            answer-taken range p g.address ps.identifier ps.next_id h s
              (r.filed ps.identifier ps.next_id p there_) not_own (rw (← fresh) stored) in
          (
            (notified range g h, h'),
            exchange-answered range g h h' ps p found have taken,
            taken-Progress p s loaded st h' name same there_ unknown,
          )
