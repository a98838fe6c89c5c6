-- ===== src/Network/Authentic.antt =====
-- Every message that a peer holds is the one that its origin created, in every reachable state of
-- the network.
use p2p_dapp.Base.{
  arith, if◌then◌else◌, ◌+◌, ℕ, ◌≤◌, String, ◌≡◌, refl, sym, ap, ◌∙◌, subst, ◌⊎◌, inl, inr, Option,
  none, some, [], ◌∷◌, ◌++◌, ◌==◌, string_eq, nat_eq, pair_eq, eq_refl, eq_true, Bool-cases, lookup,
  int_eq, list_eq, In, here, there,
}
use p2p_dapp.Packet.{Address, GossipPacket}
use p2p_dapp.GossipHandler.{messages_of}
use p2p_dapp.Gossiper.{Gossiper, Sent}
use p2p_dapp.Network.{Network, posted, after}

-- The origin and the id that a packet is stored under.
abbrev pub key : GossipPacket → Option (String × ℕ)
key p = elim p.rumor [
  | some r ↦ some (r.origin, r.id)
  | none ↦ elim p.tlc_message [ none ↦ none | some m ↦ some (m.origin, m.id) ]
]

-- What a peer holds under an origin and an id.
abbrev pub held : Gossiper → String → ℕ → Option GossipPacket
held g o i = lookup i (messages_of o g.gossip)

module _ (names : Address → String) (distinct : (a b : Address) → names a ≡ names b → a ≡ b) where
  pub record IsAuthentic (n : Network) : Type 0 where
    pub named : (a : Address) → (n.nodes a).name ≡ names a
    pub filed :
        (a : Address) (o : String) (i : ℕ) (p : GossipPacket)
        → held (n.nodes a) o i ≡ some p
        → key p ≡ some (o, i)
    pub own :
        (a b : Address) (i : ℕ) (p : GossipPacket)
        → held (n.nodes a) (names b) i ≡ some p
        → held (n.nodes b) (names b) i ≡ some p
    pub unused :
        (a : Address) (i : ℕ) → (n.nodes a).gossip.seq_id ≤ i → held (n.nodes a) (names a) i ≡ none
    pub wired :
        (p : GossipPacket) (from to b : Address) (i : ℕ)
        → In (p, from, to) n.wire
        → key p ≡ some (names b, i)
        → held (n.nodes b) (names b) i ≡ some p

  -- How one peer may change: what it held it holds, and what is new is filed, is held by its origin,
  -- and is below the next sequence number if it is its own; that number is raised for what is made.
  pub record Fair (n : Network) (a : Address) (g : Gossiper) (sent : Sent) (made : ℕ) : Type 0 where
    pub same_name : g.name ≡ names a
    pub keeps :
        (o : String) (i : ℕ) (p : GossipPacket)
        → held (n.nodes a) o i ≡ some p
        → held g o i ≡ some p
    pub news :
        (o : String) (i : ℕ) (p : GossipPacket)
        → held g o i ≡ some p
        → (held (n.nodes a) o i ≡ some p)
          ⊎ ((key p ≡ some (o, i))
              × ((b : Address) → o ≡ names b → (held (n.nodes b) (names b) i ≡ some p) ⊎ (b ≡ a)))
    pub unused : (i : ℕ) → g.gossip.seq_id ≤ i → held g (names a) i ≡ none
    pub raised : g.gossip.seq_id ≤ (n.nodes a).gossip.seq_id + made
    pub sends :
        (p : GossipPacket) (to b : Address) (i : ℕ)
        → In (p, to) sent
        → key p ≡ some (names b, i)
        → held (n.nodes b) (names b) i ≡ some p

  node_cases :
      (n : Network) (a : Address) (g : Gossiper) (sent : Sent) (b : Address)
      → ((a ≡ b) × ((after a g sent n).nodes b ≡ g)) ⊎ ((after a g sent n).nodes b ≡ n.nodes b)
  node_cases n a g sent b = elim (Bool-cases (a == b)) [
    | inl same ↦ inl (eq_true a b same, rw same)
    | inr other ↦ inr (rw other)
  ]

  module _ {n : Network} {a : Address} {g : Gossiper} {sent : Sent} {made : ℕ}
      (auth : IsAuthentic n) (fair : Fair n a g sent made) where
    abbrev next : Network
    next = after a g sent n

    held_next :
        (b : Address) (o : String) (i : ℕ) (p : GossipPacket)
        → held (n.nodes b) o i ≡ some p
        → held (next.nodes b) o i ≡ some p
    held_next b o i p h = elim (node_cases n a g sent b) [
      | inl (same, e) ↦
          ap (λ k. held k o i) e
          ∙ fair.keeps o i p (subst (λ c. held (n.nodes c) o i ≡ some p) (sym same) h)
      | inr e ↦ ap (λ k. held k o i) e ∙ h
    ]

    held_by_origin :
        (c : Address) (o : String) (i : ℕ) (p : GossipPacket)
        → o ≡ names c
        → held g o i ≡ some p
        → (held (n.nodes c) (names c) i ≡ some p) ⊎ (c ≡ a)
        → held (next.nodes c) (names c) i ≡ some p
    held_by_origin c o i p q h (inl old) = held_next c (names c) i p old
    held_by_origin c o i p q h (inr r) =
        let node : next.nodes a ≡ g = rw (eq_refl a) refl in
        subst (λ b. held (next.nodes b) (names b) i ≡ some p) (sym r)
          (ap (λ k. held k (names a) i) node ∙ subst (λ x. held g x i ≡ some p) (q ∙ ap names r) h)

    -- What a peer holds after the step, it held before, or it is new.
    held_before :
        (b : Address) (o : String) (i : ℕ) (p : GossipPacket)
        → held (next.nodes b) o i ≡ some p
        → (held (n.nodes b) o i ≡ some p)
          ⊎ ((key p ≡ some (o, i))
              × ((c : Address) → o ≡ names c → held (next.nodes c) (names c) i ≡ some p))
    held_before b o i p h = elim (node_cases n a g sent b) [
      | inl (same, e) ↦ elim (fair.news o i p (sym (ap (λ k. held k o i) e) ∙ h)) [
        | inl old ↦ inl (subst (λ c. held (n.nodes c) o i ≡ some p) same old)
        | inr (k, origin) ↦
            inr (k, λ c q. held_by_origin c o i p q (sym (ap (λ k. held k o i) e) ∙ h) (origin c q))
      ]
      | inr e ↦ inl (sym (ap (λ k. held k o i) e) ∙ h)
    ]

    In-posted :
        (xs : Sent) (p : GossipPacket) (from to : Address)
        → In (p, from, to) (posted a xs ++ n.wire)
        → In (p, to) xs ⊎ In (p, from, to) n.wire
    unfolding posted
    In-posted [] p from to i = inr i
    In-posted ((q, t) ∷ xs) p from to (here e) = inl (here (cc))
    In-posted ((q, t) ∷ xs) p from to (there i) = elim (In-posted xs p from to i) [
      | inl j ↦ inl (there j)
      | inr j ↦ inr j
    ]

    pub after-IsAuthentic : IsAuthentic next
    after-IsAuthentic = record {
      named = λ b. elim (node_cases n a g sent b) [
        | inl (same, e) ↦ ap (λ k. k.name) e ∙ fair.same_name ∙ ap names same
        | inr e ↦ ap (λ k. k.name) e ∙ auth.named b
      ];
      filed = λ b o i p h. elim (held_before b o i p h) [
        | inl old ↦ auth.filed b o i p old
        | inr (k, origin) ↦ k
      ];
      own = λ b c i p h. elim (held_before b (names c) i p h) [
        | inl old ↦ held_next c (names c) i p (auth.own b c i p old)
        | inr (k, origin) ↦ origin c refl
      ];
      unused = λ b i le. elim (node_cases n a g sent b) [
        | inl (same, e) ↦
            ap (λ k. held k (names b) i) e
            ∙ subst (λ c. held g (names c) i ≡ none) same
                (fair.unused i (subst (λ k. k.gossip.seq_id ≤ i) e le))
        | inr e ↦
            ap (λ k. held k (names b) i) e ∙ auth.unused b i (subst (λ k. k.gossip.seq_id ≤ i) e le)
      ];
      wired = λ p from to b i w k. elim (In-posted sent p from to w) [
        | inl now ↦ held_next b (names b) i p (fair.sends p to b i now k)
        | inr old ↦ held_next b (names b) i p (auth.wired p from to b i old k)
      ];
    }

    -- The sequence numbers after the step.
    pub after_raised :
        (b : Address)
        → (next.nodes b).gossip.seq_id ≤ (n.nodes b).gossip.seq_id + (if a == b then made else 0)
    after_raised b = elim (Bool-cases (a == b)) [
      | inl same ↦ ground (arith, same, fair.raised, eq_true a b same)
      | inr other ↦ ground (arith, other)
    ]
