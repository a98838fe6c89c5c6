-- ===== src/VectorClock/Compare.antt =====
-- The comparison of two clocks: what `get_peer_status_for_peer` finds, and when two peers are in
-- sync. A clock is ranged over in any order.
use p2p_dapp.Base.{
  ℕ, ◌≤◌, ◌<◌, String, ◌≡◌, refl, sym, ap, ◌∙◌, subst, ◌↔◌, false, Option, none, some, [], ◌∷◌,
  arith, string_eq, nat_eq, pair_eq, lookup, insert, lookup-insert, All, int_eq, Ranges,
  lookup_sound,
}
use p2p_dapp.Packet.{PeerStatus}
use p2p_dapp.VectorClock.{
  VectorClock, create_my_status_packet, origin_id_map, first_needed, get_peer_status_for_peer,
  check_if_i_need_peer_status,
}

-- An id that one clock has is at most the id that the other has for the same origin.
abbrev pub AtMost : Option ℕ → Option ℕ → Type 0
AtMost none b = Unit {0}
AtMost (some n) none = ⊥
AtMost (some n) (some id) = n ≤ id

-- `theirs` has every entry of `mine`, at least as far.
abbrev pub Covers : VectorClock → VectorClock → Type 0
Covers theirs mine = (o : String) → AtMost (lookup o mine) (lookup o theirs)

-- The id `k` is the first that `theirs` lacks, and this clock has it.
abbrev pub Ahead : Option ℕ → Option ℕ → ℕ → Type 0
Ahead none theirs k = ⊥
Ahead (some n) none k = k ≡ 1
Ahead (some n) (some id) k = (k ≡ id) × (id < n)

abbrev pub Lacks : VectorClock → VectorClock → PeerStatus → Type 0
Lacks theirs mine ps = Ahead (lookup ps.identifier mine) (lookup ps.identifier theirs) ps.next_id

-- The map that the other side builds from a status has the entries of the clock that was sent.
lookup-collect :
    (order entries acc : VectorClock) (o : String)
    → All (λ p. lookup p.0 entries ≡ some p.1) order
    → lookup o (origin_id_map (create_my_status_packet order).want acc)
      ≡ elim (lookup o order) [ none ↦ lookup o acc | some v ↦ some v ]
unfolding origin_id_map create_my_status_packet lookup
lookup-collect [] entries acc o h = refl
lookup-collect ((j, w) ∷ order) entries acc o h = ground (
  arith,
  string_eq.beq_iff j o,
  h.0,
  lookup-collect order entries (insert j w acc) o h.1,
  lookup-insert j o w acc,
  lookup_sound order entries o h.1,
)

pub lookup-origin_id_map :
    {order entries : VectorClock}
    → Ranges order entries
    → (o : String)
    → lookup o (origin_id_map (create_my_status_packet order).want []) ≡ lookup o entries
unfolding lookup
lookup-origin_id_map {order} {entries} r o =
    ground (arith, lookup-collect order entries [] o r.sound, r.complete o)

first_needed-Lacks :
    (order mine theirs : VectorClock) {ps : PeerStatus}
    → All (λ p. lookup p.0 mine ≡ some p.1) order
    → first_needed order theirs ≡ some ps
    → Lacks theirs mine ps
unfolding first_needed
first_needed-Lacks [] mine theirs h e = absurd (ground arith)
first_needed-Lacks ((o, n) ∷ order) mine theirs {ps} h e =
    ground (arith, h.0, first_needed-Lacks order mine theirs {ps = ps} h.1)

first_needed-none :
    (order theirs : VectorClock) (o : String)
    → first_needed order theirs ≡ none
    → AtMost (lookup o order) (lookup o theirs)
unfolding first_needed lookup
first_needed-none [] theirs o e = tt
first_needed-none ((j, m) ∷ order) theirs o e =
    ground (arith, string_eq.beq_iff j o, first_needed-none order theirs o)

Covers-first_needed :
    (order mine theirs : VectorClock)
    → All (λ p. lookup p.0 mine ≡ some p.1) order
    → Covers theirs mine
    → first_needed order theirs ≡ none
unfolding first_needed
Covers-first_needed [] mine theirs h c = refl
Covers-first_needed ((j, m) ∷ order) mine theirs h c =
    ground (arith, h.0, c j, Covers-first_needed order mine theirs h.1 c)

need-false :
    (order mine : VectorClock) (o : String)
    → check_if_i_need_peer_status mine (create_my_status_packet order).want ≡ false
    → AtMost (lookup o order) (lookup o mine)
unfolding check_if_i_need_peer_status create_my_status_packet lookup
need-false [] mine o e = tt
need-false ((j, m) ∷ order) mine o e =
    ground (arith, string_eq.beq_iff j o, need-false order mine o)

Covers-need :
    (order mine theirs : VectorClock)
    → All (λ p. lookup p.0 theirs ≡ some p.1) order
    → Covers mine theirs
    → check_if_i_need_peer_status mine (create_my_status_packet order).want ≡ false
unfolding check_if_i_need_peer_status create_my_status_packet
Covers-need [] mine theirs h c = refl
Covers-need ((j, m) ∷ order) mine theirs h c =
    ground (arith, h.0, c j, Covers-need order mine theirs h.1 c)

pub AtMost-antisymm : (x y : Option ℕ) → AtMost x y → AtMost y x → x ≡ y
AtMost-antisymm none none h k = refl
AtMost-antisymm none (some b) h k = absurd k
AtMost-antisymm (some a) none h k = absurd h
AtMost-antisymm (some a) (some b) h k = ap some (omega arith)

AtMost-of_eq : (x y : Option ℕ) → x ≡ y → AtMost x y
AtMost-of_eq none y h = tt
AtMost-of_eq (some a) none h = cc
AtMost-of_eq (some a) (some b) h = ground arith

module _ {oa a ob b : VectorClock} (ra : Ranges oa a) (rb : Ranges ob b) where
  theirs-eq :
      (o : String) → lookup o (origin_id_map (create_my_status_packet ob).want []) ≡ lookup o b
  theirs-eq = lookup-origin_id_map rb

  -- Whatever the order of the range, the request that the comparison finds is a message that the
  -- other peer lacks: the least one of its origin.
  pub get_peer_status-Lacks :
      (ps : PeerStatus)
      → get_peer_status_for_peer oa (create_my_status_packet ob).want ≡ some ps
      → Lacks b a ps
  unfolding get_peer_status_for_peer
  get_peer_status-Lacks ps h = rw (← theirs-eq ps.identifier) (first_needed-Lacks oa a _ ra.sound h)

  -- Nothing is found to send exactly when the other clock has every entry, at least as far.
  pub get_peer_status-none_iff :
      (get_peer_status_for_peer oa (create_my_status_packet ob).want ≡ none) ↔ Covers b a
  unfolding get_peer_status_for_peer
  get_peer_status-none_iff = (
    λ h o. rw (← ra.complete o, ← theirs-eq o) (first_needed-none oa _ o h),
    λ c.
        Covers-first_needed oa a _ ra.sound
          (λ o. subst (AtMost (lookup o a)) (sym (theirs-eq o)) (c o)),
  )

  -- A peer with clock a that gets the status of clock b has nothing to send and nothing to ask for
  -- exactly when the two clocks agree on every origin, whatever the orders of the ranges.
  pub in_sync_iff :
      ((get_peer_status_for_peer oa (create_my_status_packet ob).want ≡ none)
        × (check_if_i_need_peer_status a (create_my_status_packet ob).want ≡ false))
      ↔ ((o : String) → lookup o a ≡ lookup o b)
  unfolding get_peer_status_for_peer
  in_sync_iff = (
    λ h o.
        AtMost-antisymm (lookup o a) (lookup o b)
          (rw (← ra.complete o, ← theirs-eq o) (first_needed-none oa _ o h.0))
          (rw (← rb.complete o) (need-false ob a o h.1)),
    λ h. (
      Covers-first_needed oa a _ ra.sound (λ o. AtMost-of_eq _ _ (h o ∙ sym (theirs-eq o))),
      Covers-need ob a b rb.sound (λ o. AtMost-of_eq _ _ (sym (h o))),
    ),
  )
