-- ===== src/Tests/Searches.antt =====
-- The split of a budget at a concrete input: three peers, of which one is the sender.
use p2p_dapp.Base.{ℕ, ◌+◌, ◌/◌, ◌≤◌, ◌≡◌, refl, some, List, [], ◌∷◌, arith, length, All}
use p2p_dapp.Packet.{Address}
use p2p_dapp.Search.{member, difference, forward_search_request_with_budget}
use p2p_dapp.Search.Budget.{forward_search_request_total}
use p2p_dapp.Search.Peers.{Distinct, Within, total}

abbrev first_one : ℕ → ℕ → ℕ
first_one round n = 0

abbrev known : List Address
known = "a" ∷ "b" ∷ "c" ∷ []

known-Distinct : Distinct known
unfolding member
known-Distinct = (refl, (refl, (refl, tt)))

first_one-Within : Within first_one
first_one-Within round n lt = lt

forward_search_request_total_example :
    (sent : List (Address × ℕ)) × (forward_search_request_with_budget
        (length (difference known ("b" ∷ [])) + 1)
        first_one
        known
        "b"
        5
      ≡ some sent)
    × (total sent ≡ 5)
    × All
        (λ s.
          (1 ≤ s.1)
          × (5 / length (difference known ("b" ∷ [])) ≤ s.1)
          × (s.1 ≤ 5 / length (difference known ("b" ∷ [])) + 1))
        sent
unfolding difference member
forward_search_request_total_example =
    forward_search_request_total first_one known "b" 5 first_one-Within known-Distinct (omega arith)
      (omega arith)
