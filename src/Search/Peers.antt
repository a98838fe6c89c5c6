-- ===== src/Search/Peers.antt =====
-- The peers that a search request can be sent to.
use p2p_dapp.Base.{
  subst, ℕ, zero, suc, ◌+◌, ◌<◌, ◌≡◌, refl, inl, inr, true, false, ◌||◌, some, List, [], ◌∷◌, ◌++◌,
  arith, ◌==◌, string_eq, nat_eq, pair_eq, eq_true, Bool-cases, length, int_eq, list_eq,
}
use p2p_dapp.Packet.{Address}
use p2p_dapp.Search.{member, difference, random_peer}

-- No address is in the list twice.
abbrev pub Distinct : List Address → Type 0
Distinct [] = Unit {0}
Distinct (a ∷ xs) = (member a xs ≡ false) × Distinct xs

unfoldable pub total : List (Address × ℕ) → ℕ
total [] = 0
total ((peer, budget) ∷ sent) = budget + total sent

-- The index that is drawn is within the length.
abbrev pub Within : (ℕ → ℕ → ℕ) → Type 0
Within random = (round n : ℕ) → 0 < n → random round n < n

member-append :
    (a p : Address) (xs : List Address) → member a (xs ++ p ∷ []) ≡ member a xs || (p == a)
unfolding member
member-append a p [] = ground arith
member-append a p (x ∷ xs) = ground (arith, member-append a p xs)

difference-other :
    (p : Address) (peers chosen : List Address)
    → member p peers ≡ false
    → difference peers (chosen ++ p ∷ []) ≡ difference peers chosen
unfolding difference member
difference-other p [] chosen h = refl
difference-other p (x ∷ xs) chosen h = ground (
  arith,
  string_eq.beq_iff p x,
  string_eq.beq_iff x p,
  member-append x p chosen,
  difference-other p xs chosen,
)

-- One peer that is drawn leaves one peer less.
pub length-difference :
    (p : Address) (peers chosen : List Address)
    → Distinct peers
    → member p (difference peers chosen) ≡ true
    → length (difference peers (chosen ++ p ∷ [])) + 1 ≡ length (difference peers chosen)
unfolding difference member
length-difference p [] chosen d h = absurd (cc)
length-difference p (x ∷ xs) chosen d h = elim (Bool-cases (p == x)) [
  | inl same ↦ ground (
    arith,
    same,
    member-append x p chosen,
    length-difference p xs chosen d.1,
    difference-other p xs chosen (rw (eq_true p x same) d.0),
  )
  | inr other ↦ ground (
    arith,
    string_eq.beq_iff p x,
    string_eq.beq_iff x p,
    member-append x p chosen,
    length-difference p xs chosen d.1,
  )
]

-- What the difference has, the first list has and the second has not.
pub member-difference :
    (a : Address) (xs ys : List Address)
    → member a (difference xs ys) ≡ true
    → (member a xs ≡ true) × (member a ys ≡ false)
unfolding member difference
member-difference a [] ys h = absurd (cc)
member-difference a (x ∷ xs) ys h = elim (Bool-cases (x == a)) [
  | inl same ↦ elim (Bool-cases (member x ys)) [
    | inl out ↦ ground (arith, member-difference a xs ys, same, string_eq.beq_iff x a)
    | inr keep ↦ (ground arith, subst (λ b. member b ys ≡ false) (eq_true x a same) keep)
  ]
  | inr other ↦ ground (arith, member-difference a xs ys)
]

pub random_peer_drawn :
    (i : ℕ) (xs : List Address) (a : Address) → random_peer i xs ≡ some a → member a xs ≡ true
unfolding random_peer member
random_peer_drawn i [] a h = cc
random_peer_drawn zero (x ∷ xs) a h = ground (arith, string_eq.beq_iff x a)
random_peer_drawn (suc i) (x ∷ xs) a h = ground (arith, random_peer_drawn i xs a h)

pub random_peer-member :
    (i : ℕ) (xs : List Address)
    → i < length xs
    → (p : Address) × (random_peer i xs ≡ some p) × (member p xs ≡ true)
unfolding random_peer member
random_peer-member i [] h = absurd (omega arith)
random_peer-member zero (x ∷ xs) h = (x, refl, ground (arith, string_eq.beq_iff x x))
random_peer-member (suc i) (x ∷ xs) h =
    let (p, e, m) = random_peer-member i xs (omega arith) in (p, e, ground arith)
