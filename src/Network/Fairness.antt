-- ===== src/Network/Fairness.antt =====
-- Each step of a peer is fair: what it stores is filed as its origin filed it.
use p2p_dapp.Base.{
  ℕ, ◌+◌, ◌%◌, ◌^◌, ◌≤◌, ◌<◌, String, ◌≡◌, refl, sym, ap, ◌∙◌, subst, ◌≢◌, inl, inr, Option, none,
  some, [], ◌∷◌, arith, ◌==◌, string_eq, nat_eq, pair_eq, Bool-cases, Option-cases, lookup, All,
  int_eq, list_eq, In, All-In,
}
use p2p_dapp.Packet.{Address, GossipPacket, StatusPacket}
use p2p_dapp.VectorClock.{VectorClock, create_my_status_packet}
use p2p_dapp.GossipHandler.{GossipHandler, messages_of, store_message, show_rumor}
use p2p_dapp.Gossiper.{Gossiper, Sent}
use p2p_dapp.Mongering.{Effects, handle_gossip_message, take_message, show_packet, status_packet}
use p2p_dapp.Network.{Network}
use p2p_dapp.Network.Storing.{Adds, Adds-same, store_message-Adds}
use p2p_dapp.Network.Authentic.{key, held, IsAuthentic, Fair}

module _ (names : Address → String) (distinct : (a b : Address) → names a ≡ names b → a ≡ b)
    {n : Network} (auth : IsAuthentic names distinct n) where
  abbrev pub IsFair : Address → Gossiper → Sent → Type 0
  IsFair a g sent = Fair names distinct n a g sent 0

  -- A stored message can be sent.
  pub held_sends :
      (a : Address) (o : String) (i : ℕ) (p : GossipPacket) (b : Address) (j : ℕ)
      → held (n.nodes a) o i ≡ some p
      → key p ≡ some (names b, j)
      → held (n.nodes b) (names b) j ≡ some p
  held_sends a o i p b j h k =
      let same : ◌≡◌ {A = Option (String × ℕ)} (some (o, i)) (some (names b, j)) =
        sym (auth.filed a o i p h) ∙ k in
      let eo : o ≡ names b = cc in
      let ei : i ≡ j = cc in
      auth.own a b j p (
        subst (λ x. held (n.nodes a) x j ≡ some p) eo
          (subst (λ x. held (n.nodes a) o x ≡ some p) ei h))

  -- A peer that stays as it is, but for what is not stored.
  pub still-Fair :
      (a : Address) (g : Gossiper) (sent : Sent)
      → g.name ≡ (n.nodes a).name
      → g.gossip.message_storage ≡ (n.nodes a).gossip.message_storage
      → g.gossip.seq_id ≡ (n.nodes a).gossip.seq_id
      → ((p : GossipPacket) (to b : Address) (i : ℕ)
          → In (p, to) sent
          → key p ≡ some (names b, i)
          → held (n.nodes b) (names b) i ≡ some p)
      → IsFair a g sent
  still-Fair a g sent name storage seq sends =
      let same : (o : String) (i : ℕ) → held g o i ≡ held (n.nodes a) o i =
        λ o i. rw storage refl in
      record {
        same_name = name ∙ auth.named a;
        keeps = λ o i p h. same o i ∙ h;
        news = λ o i p h. inl (sym (same o i) ∙ h);
        unused = λ i le. same (names a) i ∙ auth.unused a i (subst (λ k. k ≤ i) seq le);
        raised = omega (arith, seq);
        sends = sends;
      }

  -- A peer that creates a message with its next sequence number.
  pub created-Fair :
      (a : Address) (p : GossipPacket) (h : GossipHandler)
      → key p ≡ some (names a, (n.nodes a).gossip.seq_id)
      → (n.nodes a).gossip.seq_id + 1 < 2 ^ 32
      → Adds p
          (names a)
          (n.nodes a).gossip.seq_id
          (record ((n.nodes a).gossip) { seq_id = ((n.nodes a).gossip.seq_id + 1) % 2 ^ 32 })
          h
      → Fair names distinct n a (record (n.nodes a) { gossip = h }) [] 1
  created-Fair a p h k small adds = record {
    same_name = auth.named a;
    keeps = adds.keeps;
    news = λ o i q f. elim (adds.news o i q f) [
      | inl old ↦ inl old
      | inr (eq, eo, ei) ↦ inr (
        let pair : ◌≡◌ {A = Option (String × ℕ)} (some (names a, (n.nodes a).gossip.seq_id))
                (some (o, i)) =
              cc in
            ap key eq ∙ k ∙ pair,
        λ b eb. inr (distinct b a (sym eb ∙ eo)),
      )
    ];
    unused = λ i le. elim (Option-cases (lookup i (messages_of (names a) h))) [
      | inl none_there ↦ none_there
      | inr (q, f) ↦ elim (adds.news (names a) i q f) [
        | inl old ↦ let gone = auth.unused a i (omega (arith, adds.same_seq)) in absurd (cc)
        | inr (eq, eo, ei) ↦ absurd (omega (arith, adds.same_seq))
      ]
    ];
    raised = omega (arith, adds.same_seq);
    sends = λ q to b i w. elim w [ ];
  }

  keyed_pair :
      (q p : GossipPacket) (o o' : String) (i i' : ℕ)
      → q ≡ p
      → o' ≡ o
      → i' ≡ i
      → key p ≡ some (o, i)
      → key q ≡ some (o', i')
  keyed_pair q p o o' i i' eq eo ei k =
      let pair : ◌≡◌ {A = Option (String × ℕ)} (some (o, i)) (some (o', i')) = cc in
      ap key eq ∙ k ∙ pair

  -- A message of another peer that is on the wire is stored.
  arrived-Fair :
      (p : GossipPacket) (from to : Address) (o : String) (i : ℕ) (g : Gossiper) (sent : Sent)
      → In (p, from, to) n.wire
      → key p ≡ some (o, i)
      → o ≢ (n.nodes to).name
      → g.name ≡ (n.nodes to).name
      → Adds p o i (n.nodes to).gossip g.gossip
      → All (λ s. key s.0 ≡ none) sent
      → IsFair to g sent
  arrived-Fair p from to o i g sent w k other name adds silent = record {
    same_name = name ∙ auth.named to;
    keeps = adds.keeps;
    news = λ o' i' q f. elim (adds.news o' i' q f) [
      | inl old ↦ inl old
      | inr (eq, eo, ei) ↦ inr (
        keyed_pair q p o o' i i' eq eo ei k,
        λ b eb. inl (
            ap (λ x. held (n.nodes b) (names b) x) ei
            ∙ auth.wired p from to b i w (keyed_pair p p o (names b) i i refl (sym eb ∙ eo) refl k)
            ∙ ap some (sym eq)),
      )
    ];
    unused = λ j le. elim (Option-cases (held g (names to) j)) [
      | inl none_there ↦ none_there
      | inr (q, f) ↦ elim (adds.news (names to) j q f) [
        | inl old ↦ let gone = auth.unused to j (subst (λ x. x ≤ j) adds.same_seq le) in absurd (cc)
        | inr (eq, eo, ei) ↦ absurd (other (sym (auth.named to ∙ eo)))
      ]
    ];
    raised = omega (arith, adds.same_seq);
    sends = λ q t b j x f. let no_key = All-In (λ s. key s.0 ≡ none) silent x in absurd (cc);
  }

  one_status :
      (sent : Sent) (s : StatusPacket) (to : Address)
      → sent ≡ (status_packet s, to) ∷ []
      → All (λ x. key x.0 ≡ none) sent
  one_status sent s to e = subst (All (λ x. key x.0 ≡ none)) (sym e) (refl, tt)

  -- A message that arrives.
  pub message-Fair :
      (range : VectorClock → VectorClock) (p : GossipPacket) (from to : Address) (o : String)
      (i : ℕ) (effects : Effects)
      → In (p, from, to) n.wire
      → key p ≡ some (o, i)
      → handle_gossip_message range (record { packet = p; sender_addr = from }) o i (n.nodes to)
        ≡ some effects
      → IsFair to effects.peer effects.sent
  unfolding handle_gossip_message take_message show_packet show_rumor
  message-Fair range p from to o i effects w k h = elim (Bool-cases (o == (n.nodes to).name)) [
    | inl mine ↦
        let silent =
          one_status effects.sent (create_my_status_packet (range (n.nodes to).gossip.my_status))
            from (ground (arith, mine)) in
        still-Fair to effects.peer effects.sent (ground (arith, mine)) (ground (arith, mine))
          (ground (arith, mine))
          (λ q t b j x f. let no_key = All-In (λ s. key s.0 ≡ none) silent x in absurd (cc))
    | inr other ↦ elim (Option-cases (store_message p o i (n.nodes to).gossip)) [
      | inl stuck ↦ absurd (ground (arith, other, stuck))
      | inr ((g, loaded), stored) ↦
          arrived-Fair p from to o i effects.peer effects.sent w k
            (λ e. ground (arith, string_eq.beq_iff o (n.nodes to).name))
            (ground (arith, other, stored))
            (Adds-same (store_message-Adds p o i (n.nodes to).gossip g loaded stored)
              (ground (arith, other, stored)) (ground (arith, other, stored)))
            (one_status effects.sent (create_my_status_packet (range g.my_status)) from
              (ground (arith, other, stored)))
    ]
  ]
