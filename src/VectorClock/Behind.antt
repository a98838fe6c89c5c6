-- ===== src/VectorClock/Behind.antt =====
-- How many messages one clock is behind another: a measure of what a peer still has to get.
use p2p_dapp.Base.{
  ℕ, ◌+◌, ◌-◌, ◌≤◌, ◌<◌, String, ◌≡◌, refl, sym, ap, ◌∙◌, subst, Option, none, some, [], ◌∷◌, arith,
  string_eq, nat_eq, pair_eq, lookup, int_eq, Ranges, list_eq, In, here, there, In-of_lookup,
}
use p2p_dapp.Packet.{PeerStatus}
use p2p_dapp.VectorClock.{VectorClock, next_id}
use p2p_dapp.VectorClock.Compare.{AtMost, Covers, Ahead}

unfoldable pub behind : VectorClock → VectorClock → ℕ
behind [] theirs = 0
behind ((o, n) ∷ mine) theirs = (n - next_id o theirs) + behind mine theirs

behind-le :
    (mine theirs theirs' : VectorClock)
    → ((o : String) → next_id o theirs ≤ next_id o theirs')
    → behind mine theirs' ≤ behind mine theirs
unfolding behind
behind-le [] theirs theirs' h = omega arith
behind-le ((o, n) ∷ mine) theirs theirs' h = omega (arith, h o, behind-le mine theirs theirs' h)

-- An entry that the other clock comes closer to makes it less.
pub behind-lt :
    (mine theirs theirs' : VectorClock) (o : String) (n : ℕ)
    → ((o : String) → next_id o theirs ≤ next_id o theirs')
    → In (o, n) mine
    → next_id o theirs < n
    → next_id o theirs < next_id o theirs'
    → behind mine theirs' < behind mine theirs
unfolding behind
behind-lt [] theirs theirs' o n h i lt moved = elim i [ ]
behind-lt ((j, k) ∷ mine) theirs theirs' o n h (here e) lt moved =
    let eo : o ≡ j = ap (λ (x : String × ℕ). x.0) e in
    let en : n ≡ k = ap (λ (x : String × ℕ). x.1) e in
    subst
      (λ x.
        (x - next_id j theirs') + behind mine theirs' < (x - next_id j theirs) + behind mine theirs)
      en
      (subst
        (λ x.
          (n - next_id x theirs') + behind mine theirs'
          < (n - next_id x theirs) + behind mine theirs)
        eo (omega (arith, behind-le mine theirs theirs' h)))
behind-lt ((j, k) ∷ mine) theirs theirs' o n h (there i) lt moved =
    omega (arith, h j, behind-lt mine theirs theirs' o n h i lt moved)

pub le-behind :
    (mine theirs : VectorClock) (o : String) (n : ℕ)
    → In (o, n) mine
    → n - next_id o theirs ≤ behind mine theirs
unfolding behind
le-behind [] theirs o n i = elim i [ ]
le-behind ((j, k) ∷ mine) theirs o n (here e) =
    let eo : o ≡ j = ap (λ (x : String × ℕ). x.0) e in
    let en : n ≡ k = ap (λ (x : String × ℕ). x.1) e in
    subst (λ x. x - next_id o theirs ≤ (k - next_id j theirs) + behind mine theirs) (sym en)
      (subst (λ x. k - next_id x theirs ≤ (k - next_id j theirs) + behind mine theirs) (sym eo)
        (omega arith))
le-behind ((j, k) ∷ mine) theirs o n (there i) = omega (arith, le-behind mine theirs o n i)

covered :
    (mine theirs : Option ℕ)
    → ((n : ℕ) → mine ≡ some n → (2 ≤ n) × (n ≤ elim theirs [ none ↦ 1 | some k ↦ k ]))
    → AtMost mine theirs
covered none theirs h = tt
covered (some n) none h = absurd (omega (arith, h n refl))
covered (some n) (some k) h = (h n refl).1

module _ {order mine : VectorClock} (r : Ranges order mine)
    (started : (o : String) (n : ℕ) → lookup o mine ≡ some n → 2 ≤ n) (theirs : VectorClock) where
  entry-In : (o : String) (n : ℕ) → lookup o mine ≡ some n → In (o, n) order
  entry-In o n e = In-of_lookup order o n (r.complete o ∙ e)

  -- Nothing behind: the other clock has every entry, at least as far.
  pub Covers-of_behind : behind order theirs ≡ 0 → Covers theirs mine
  unfolding next_id
  Covers-of_behind h o =
      covered (lookup o mine) (lookup o theirs)
        (λ n e. (started o n e, omega (arith, le-behind order theirs o n (entry-In o n e))))

  next_id-entry : (o : String) (n : ℕ) → lookup o mine ≡ some n → next_id o mine ≡ n
  unfolding next_id
  next_id-entry o n e = rw (e, next_id) refl

  Ahead-entry :
      (a b : Option ℕ) (k : ℕ)
      → Ahead a b k
      → ((n : ℕ) → a ≡ some n → 2 ≤ n)
      → (n : ℕ) × (a ≡ some n) × (k < n) × (k ≡ elim b [ none ↦ 1 | some i ↦ i ])
  Ahead-entry none b k h low = absurd h
  Ahead-entry (some n) none k h low = (n, refl, omega (arith, low n refl), h)
  Ahead-entry (some n) (some i) k h low = (n, refl, omega arith, h.0)

  -- What is ahead is an entry of the range that the other clock is behind.
  pub Ahead-In :
      (ps : PeerStatus)
      → Ahead (lookup ps.identifier mine) (lookup ps.identifier theirs) ps.next_id
      → (n : ℕ) × In (ps.identifier, n) order
        × (ps.next_id < n)
        × (ps.next_id ≡ next_id ps.identifier theirs)
        × (next_id ps.identifier mine ≡ n)
  unfolding next_id
  Ahead-In ps h =
      let (n, e, lt, k) = Ahead-entry _ _ ps.next_id h (started ps.identifier) in
      (n, entry-In ps.identifier n e, lt, k, next_id-entry ps.identifier n e)
