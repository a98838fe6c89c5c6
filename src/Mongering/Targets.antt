-- ===== src/Mongering/Targets.antt =====
-- Whom a message is rumor mongered to, and for how long.
use native.Mathlib.Nat.{mod-lt}
use p2p_dapp.Base.{
  ℕ, ◌%◌, ◌<◌, ◌≡◌, refl, ◌∙◌, ◌≢◌, ◌⊎◌, inl, inr, true, false, none, some, List, [], ◌∷◌, arith,
  ◌==◌, string_eq, nat_eq, pair_eq, Bool-cases, length, int_eq, list_eq,
}
use p2p_dapp.Packet.{Address}
use p2p_dapp.Search.{member, difference, random_peer}
use p2p_dapp.Search.Peers.{random_peer-member, member-difference}
use p2p_dapp.Mongering.{Turn, coin, draw_peer, monger, start_rumor_mongering}

-- No peer but this one is known.
abbrev pub Only : Address → List Address → Type 0
Only peer peers = (a : Address) → member a peers ≡ true → a ≡ peer

-- The round ends without a status, or with one and an even number.
abbrev pub GoesOn : Turn → Type 0
GoesOn t = (t.status_received ≡ false) ⊎ (t.draw % 2 ≡ 0)

-- The peers that a message is sent to by a peer that has drawn the first of them, over the rounds
-- that have ended.
pub data Mongers : Address → List Turn → List Address → Type 0 where
  -- The round of that peer has not ended.
  waits : {peer : Address} → Mongers peer [] (peer ∷ [])
  -- It has ended with a status and an odd number.
  stops :
      {peer : Address} {t : Turn} {turns : List Turn}
      → t.status_received ≡ true
      → t.draw % 2 ≡ 1
      → Mongers peer (t ∷ turns) (peer ∷ [])
  -- It has ended otherwise, and no other peer is known.
  lonely :
      {peer : Address} {t : Turn} {turns : List Turn}
      → GoesOn t
      → Only peer t.peers
      → Mongers peer (t ∷ turns) (peer ∷ [])
  -- It has ended otherwise, and another peer that is known is next.
  moves :
      {peer next : Address} {t : Turn} {turns : List Turn} {sent : List Address}
      → GoesOn t
      → member next t.peers ≡ true
      → next ≢ peer
      → Mongers next turns sent
      → Mongers peer (t ∷ turns) (peer ∷ sent)

only_member :
    (peer a : Address) (peers : List Address)
    → length (difference peers (peer ∷ [])) ≡ 0
    → member a peers ≡ true
    → a ≡ peer
unfolding difference member
only_member peer a [] h m = absurd (cc)
only_member peer a (x ∷ peers) h m =
    ground (arith, string_eq.beq_iff x a, string_eq.beq_iff peer x, only_member peer a peers, h, m)

-- A draw among the known peers but one.
abbrev Drawn : ℕ → Address → List Address → Type 0
Drawn i peer peers =
    ((draw_peer i (difference peers (peer ∷ [])) ≡ none) × Only peer peers)
    ⊎ ((next : Address) × (draw_peer i (difference peers (peer ∷ [])) ≡ some next)
        × (member next peers ≡ true)
        × (next ≢ peer))

undrawn : (i : ℕ) (peers : List Address) → (length peers == 0) ≡ true → draw_peer i peers ≡ none
unfolding draw_peer
undrawn i peers e = rw e refl

draw_among :
    (i : ℕ) (peers : List Address)
    → (length peers == 0) ≡ false
    → draw_peer i peers ≡ random_peer (i % length peers) peers
unfolding draw_peer
draw_among i peers e = rw e refl

drawn : (i : ℕ) (peer : Address) (peers : List Address) → Drawn i peer peers
unfolding member
drawn i peer peers =
    let others = difference peers (peer ∷ []) in
    elim (Bool-cases (length others == 0)) [
      | inl empty ↦
          inl (undrawn i others empty, λ a. only_member peer a peers (ground (arith, empty)))
      | inr some_left ↦
          let (next, e, in_others) =
            random_peer-member (i % length others) others (mod-lt i (ground (arith, some_left))) in
          let (known, other) = member-difference next peers (peer ∷ []) in_others in
          inr (
            next,
            draw_among i others some_left ∙ e,
            known,
            λ same. ground (arith, string_eq.beq_iff peer next),
          )
    ]

coin-GoesOn : (t : Turn) → (coin t == 0) ≡ true → GoesOn t
coin-GoesOn t h = elim (Bool-cases t.status_received) [
  | inl got ↦ inr (ground (arith, got))
  | inr missed ↦ inl missed
]

two_pos : 0 < 2
two_pos = omega arith

coin-stops : (t : Turn) → (coin t == 0) ≡ false → (t.status_received ≡ true) × (t.draw % 2 ≡ 1)
coin-stops t h = elim (Bool-cases t.status_received) [
  | inl got ↦ (got, ground (arith, got, mod-lt t.draw (two_pos)))
  | inr missed ↦ absurd (ground (arith, missed))
]

monger-Mongers : (turns : List Turn) (peer : Address) → Mongers peer turns (monger turns peer)
unfolding monger
monger-Mongers [] peer = waits
monger-Mongers (t ∷ turns) peer = elim (Bool-cases (coin t == 0)) [
  | inr stopped ↦ let (got, odd) = coin-stops t stopped in rw (stopped, monger) (stops got odd)
  | inl goes ↦ elim (drawn t.index peer t.peers) [
    | inl (none_left, only) ↦ rw (goes, monger) (rw none_left (lonely (coin-GoesOn t goes) only))
    | inr (next, e, known, other) ↦
        rw (goes, monger)
          (rw e (moves (coin-GoesOn t goes) known other (monger-Mongers turns next)))
  ]
]

-- Where no peer but the sender is known, a message is rumor mongered to no one. Otherwise it is sent
-- to a known peer that is not the sender. After each round that ends without a status, or with one
-- and an even number, it is sent to another peer that is known then, if there is one; it is sent to
-- no other peer, and to none after a round that ends with a status and an odd number.
pub start_rumor_mongering-Mongers :
    (sender : Address) (peers : List Address) (index : ℕ) (turns : List Turn)
    → (Only sender peers × (start_rumor_mongering sender peers index turns ≡ []))
      ⊎ ((first : Address) × (member first peers ≡ true)
          × (first ≢ sender)
          × Mongers first turns (start_rumor_mongering sender peers index turns))
unfolding start_rumor_mongering
start_rumor_mongering-Mongers sender peers index turns = elim (drawn index sender peers) [
  | inl (alone, only) ↦ inl (only, rw (start_rumor_mongering, alone) refl)
  | inr (first, e, known, other) ↦
      inr (first, known, other, rw (start_rumor_mongering, e) (monger-Mongers turns first))
]
