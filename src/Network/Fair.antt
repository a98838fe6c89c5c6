-- ===== src/Network/Fair.antt =====
-- Every packet that a peer sends after it has handled one is fair.
use p2p_dapp.Base.{
  ℕ, String, ◌≡◌, refl, sym, ap, ◌∙◌, subst, ◌⊎◌, inl, inr, Bool, true, false, none, some, [], ◌∷◌,
  arith, if◌then◌else◌, ◌==◌, string_eq, nat_eq, pair_eq, eq_true, Bool-cases, Option-cases, lookup,
  All, int_eq, list_eq, In, All-In,
}
use p2p_dapp.Packet.{Address, GossipPacket, ExtendedGossipPacket, StatusPacket}
use p2p_dapp.VectorClock.{VectorClock, get_peer_status_for_peer, check_if_i_need_peer_status}
use p2p_dapp.GossipHandler.{GossipHandler, notify_listeners_for_status, get_packet_from_peer_status}
use p2p_dapp.GossipHandler.Exchange.{packet_of-messages}
use p2p_dapp.Dispatch.{receive_packet}
use p2p_dapp.Gossiper.{Sent}
use p2p_dapp.Search.{random_peer}
use p2p_dapp.Mongering.{
  Effects, process_rumor_message, process_tlc_message, handle_peer_status, anti_entropy,
  my_status_packet,
}
use p2p_dapp.Network.{Network, process_gossip}
use p2p_dapp.Network.Authentic.{key, held, IsAuthentic}
use p2p_dapp.Network.Fairness.{IsFair, held_sends, still-Fair, message-Fair}
use p2p_dapp.Network.Kinds.{type-tlc}

notify-same :
    (a : Address) (s : StatusPacket) (h : GossipHandler)
    → ((notify_listeners_for_status a s h).message_storage ≡ h.message_storage)
      × ((notify_listeners_for_status a s h).seq_id ≡ h.seq_id)
unfolding notify_listeners_for_status
notify-same a s h = elim (Option-cases (lookup a h.mongering_channels)) [
  | inl e ↦ ground (arith, e)
  | inr (c, e) ↦ ground (arith, e)
]

module _ (names : Address → String) (distinct : (a b : Address) → names a ≡ names b → a ≡ b)
    (range : VectorClock → VectorClock) {n : Network} (auth : IsAuthentic names distinct n) where
  -- What is sent is a status or a message that the peer holds.
  abbrev Sendable : Address → GossipPacket → Type 0
  Sendable a p = (key p ≡ none) ⊎ ((o : String) × (i : ℕ) × (held (n.nodes a) o i ≡ some p))

  pub sends-Sendable :
      (a : Address) (sent : Sent)
      → All (λ s. Sendable a s.0) sent
      → (p : GossipPacket) (to b : Address) (i : ℕ) → In (p, to) sent
      → key p ≡ some (names b, i)
      → held (n.nodes b) (names b) i ≡ some p
  sends-Sendable a sent all p to b i x k = elim (All-In (λ s. Sendable a s.0) all x) [
    | inl no_key ↦ absurd (cc)
    | inr (o, j, h) ↦ held_sends names distinct auth a o j p b i h k
  ]

  pub anti_entropy-Sendable :
      (a : Address) (i : ℕ) → All (λ s. Sendable a s.0) (anti_entropy range i (n.nodes a))
  unfolding anti_entropy
  anti_entropy-Sendable a i = elim (Option-cases (random_peer i (n.nodes a).peers)) [
    | inl e ↦ rw (e, anti_entropy) tt
    | inr (b, e) ↦ rw (e, anti_entropy) (inl refl, tt)
  ]

  one_sent : (sent : Sent) (x : GossipPacket × Address) → sent ≡ x ∷ [] → sent ≡ x ∷ []
  one_sent sent x e = e

  answer_silent :
      (a : Address) (b : Bool) (sent : Sent) (x : GossipPacket × Address)
      → key x.0 ≡ none
      → sent ≡ (if b then x ∷ [] else [])
      → All (λ s. Sendable a s.0) sent
  answer_silent a true sent x k e = subst (All (λ s. Sendable a s.0)) (sym e) (inl k, tt)
  answer_silent a false sent x k e = subst (All (λ s. Sendable a s.0)) (sym e) tt

  status-Fair :
      (e : ExtendedGossipPacket) (to : Address) (effects : Effects)
      → handle_peer_status range e (n.nodes to) ≡ some effects
      → IsFair names distinct auth to effects.peer effects.sent
  unfolding handle_peer_status
  status-Fair e to effects h = elim (Option-cases e.packet.status) [
    | inl gone ↦ absurd (ground (arith, gone))
    | inr (s, is) ↦
        let (storage, seq) = notify-same e.sender_addr s (n.nodes to).gossip in
        elim (Option-cases
          (get_peer_status_for_peer (range (n.nodes to).gossip.my_status) s.want)) [
            | inl nothing ↦
                still-Fair names distinct auth to effects.peer effects.sent
                  (ground (arith, is, nothing)) (ground (arith, is, nothing, storage))
                  (ground (arith, is, nothing, seq))
                  (sends-Sendable to effects.sent (
                    answer_silent to
                      (check_if_i_need_peer_status (n.nodes to).gossip.my_status s.want)
                      effects.sent (my_status_packet range (n.nodes to), e.sender_addr) refl
                      (ground (arith, is, nothing))))
            | inr (ps, found) ↦
                elim (Option-cases (get_packet_from_peer_status ps (n.nodes to).gossip)) [
                  | inl panics ↦ absurd (ground (arith, is, found, panics))
                  | inr (p, got) ↦
                      still-Fair names distinct auth to effects.peer effects.sent
                        (ground (arith, is, found, got)) (ground (arith, is, found, got, storage))
                        (ground (arith, is, found, got, seq))
                        (sends-Sendable to effects.sent (
                          subst (All (λ x. Sendable to x.0))
                            (sym (
                              one_sent effects.sent (p, e.sender_addr)
                                (ground (arith, is, found, got))))
                            (
                              inr (
                                ps.identifier,
                                ps.next_id,
                                sym (packet_of-messages ps (n.nodes to).gossip) ∙ got,
                              ),
                              tt,
                            )))
                ]
          ]
  ]

  rumor-Fair :
      (p : GossipPacket) (from to : Address) (effects : Effects)
      → In (p, from, to) n.wire
      → process_rumor_message range (record { packet = p; sender_addr = from }) (n.nodes to)
        ≡ some effects
      → IsFair names distinct auth to effects.peer effects.sent
  unfolding process_rumor_message
  rumor-Fair p from to effects w h = elim (Option-cases p.rumor) [
    | inl gone ↦ absurd (ground (arith, gone))
    | inr (r, e) ↦
        message-Fair names distinct auth range p from to r.origin r.id effects w (rw e refl)
          (ground (arith, e))
  ]

  tlc-Fair :
      (p : GossipPacket) (from to : Address) (effects : Effects)
      → In (p, from, to) n.wire
      → receive_packet false p ≡ some "tlcMes"
      → process_tlc_message range (record { packet = p; sender_addr = from }) (n.nodes to)
        ≡ some effects
      → IsFair names distinct auth to effects.peer effects.sent
  unfolding process_tlc_message
  tlc-Fair p from to effects w t h = elim (Option-cases p.tlc_message) [
    | inl gone ↦ absurd (ground (arith, gone))
    | inr (m, e) ↦
        message-Fair names distinct auth range p from to m.origin m.id effects w
          (rw (type-tlc p t, e) refl) (ground (arith, e))
  ]

  pub gossip-Fair :
      (p : GossipPacket) (from to : Address) (t : String) (effects : Effects)
      → In (p, from, to) n.wire
      → receive_packet false p ≡ some t
      → process_gossip range t (record { packet = p; sender_addr = from }) (n.nodes to)
        ≡ some effects
      → IsFair names distinct auth to effects.peer effects.sent
  unfolding process_gossip
  gossip-Fair p from to t effects w r h = elim (Bool-cases (t == "rumor")) [
    | inl is ↦ rumor-Fair p from to effects w (ground (arith, is))
    | inr a ↦ elim (Bool-cases (t == "tlcMes")) [
      | inl is ↦
          tlc-Fair p from to effects w (r ∙ ap some (eq_true t "tlcMes" is)) (ground (arith, a, is))
      | inr b ↦ elim (Bool-cases (t == "status")) [
        | inl is ↦
            status-Fair (record { packet = p; sender_addr = from }) to effects
              (ground (arith, a, b, is))
        | inr c ↦ absurd (ground (arith, a, b, c))
      ]
    ]
  ]
