-- ===== src/Search/Budget.antt =====
-- The whole budget is sent, in shares that differ by at most one, and the loop ends.
use native.Mathlib.Nat.{mod-lt, div-add-mod}
use p2p_dapp.Base.{
  ℕ, zero, suc, ◌+◌, ◌*◌, ◌/◌, ◌%◌, ◌≤◌, ◌<◌, ◌≡◌, refl, ◌∙◌, inl, inr, true, false, not, ◌&&◌,
  Option, none, some, List, [], ◌∷◌, ◌++◌, arith, ltb, ◌==◌, string_eq, nat_eq, pair_eq, Bool-cases,
  length, All, int_eq, list_eq,
}
use p2p_dapp.Packet.{Address}
use p2p_dapp.Search.{
  difference, random_peer, share_of, left_of, send_first, choose, share_loop,
  forward_search_request_with_budget,
}
use p2p_dapp.Search.Peers.{Distinct, total, Within, length-difference, random_peer-member}

-- The loop from n available peers with the budget for each and what is left to share.
abbrev Shares : Option (List (Address × ℕ)) → ℕ → ℕ → Type 0
Shares none for_each budget = ⊥
Shares (some sent) for_each budget =
    (total sent ≡ budget) × All (λ s. (1 ≤ s.1) × (for_each ≤ s.1) × (s.1 ≤ for_each + 1)) sent

Shares-step :
    (peer : Option Address) (rest : Option (List (Address × ℕ))) (p : Address)
    (for_each share left budget : ℕ)
    → peer ≡ some p
    → 1 ≤ share
    → for_each ≤ share
    → share ≤ for_each + 1
    → share + left ≡ budget
    → Shares rest for_each left
    → Shares (send_first peer share rest) for_each budget
unfolding send_first total
Shares-step peer none p for_each share left budget e low ge le sum h = absurd h
Shares-step peer (some sent) p for_each share left budget e low ge le sum h =
    rw e ((omega (arith, h.0, sum), ((low, ge, le), h.1)))

split_step :
    (n for_each to_share : ℕ)
    → to_share ≤ suc n
    → (to_share ≡ 0 → for_each ≡ 0 → ⊥)
    → (share_of for_each to_share + (n * for_each + left_of to_share) ≡ suc n * for_each + to_share)
      × (1 ≤ share_of for_each to_share)
      × (for_each ≤ share_of for_each to_share)
      × (share_of for_each to_share ≤ for_each + 1)
      × (left_of to_share ≤ n)
unfolding share_of left_of
split_step n for_each to_share le more = ground arith

module _ (random : ℕ → ℕ → ℕ) (within : Within random) (peers : List Address)
    (distinct : Distinct peers) where
  loop_ends :
      (fuel : ℕ) (chosen : List Address) (for_each to_share : ℕ)
      → length (difference peers chosen) ≡ 0
      → share_loop (suc fuel) random peers chosen for_each to_share ≡ some []
  unfolding share_loop
  loop_ends fuel chosen for_each to_share e = rw (e, share_loop) refl

  loop_stops :
      (fuel n : ℕ) (chosen : List Address) (for_each to_share : ℕ)
      → length (difference peers chosen) ≡ suc n
      → (to_share == 0 && for_each == 0) ≡ true
      → share_loop (suc fuel) random peers chosen for_each to_share ≡ some []
  unfolding share_loop
  loop_stops fuel n chosen for_each to_share e over =
      let some_left : (suc n == 0) ≡ false = ground arith in
      rw (e, share_loop, some_left, over) refl

  loop_sends :
      (fuel n : ℕ) (chosen : List Address) (for_each to_share : ℕ) (p : Address)
      → length (difference peers chosen) ≡ suc n
      → (to_share == 0 && for_each == 0) ≡ false
      → random_peer (random (length chosen) (suc n)) (difference peers chosen) ≡ some p
      → share_loop (suc fuel) random peers chosen for_each to_share
        ≡ send_first
            (some p)
            (share_of for_each to_share)
            (share_loop fuel random peers (chosen ++ p ∷ []) for_each (left_of to_share))
  unfolding share_loop choose
  loop_sends fuel n chosen for_each to_share p e more drawn =
      let some_left : (suc n == 0) ≡ false = ground arith in
      rw (e, share_loop, some_left, more, drawn) refl

  share_loop-Shares :
      (fuel n : ℕ) (chosen : List Address) (for_each to_share : ℕ)
      → length (difference peers chosen) ≡ n
      → n < fuel
      → to_share ≤ n
      → Shares
          (share_loop fuel random peers chosen for_each to_share)
          for_each
          (n * for_each + to_share)
  share_loop-Shares zero n chosen for_each to_share e enough le = absurd (omega arith)
  share_loop-Shares (suc fuel) zero chosen for_each to_share e enough le =
      rw (loop_ends fuel chosen for_each to_share e) (unfold total in (omega arith, tt))
  share_loop-Shares (suc fuel) (suc n) chosen for_each to_share e enough le =
      elim (Bool-cases (to_share == 0 && for_each == 0)) [
        | inl over ↦
            let none_left : for_each ≡ 0 = ground arith in
            rw (loop_stops fuel n chosen for_each to_share e over)
              (unfold total in (grind (arith, over, none_left), tt))
        | inr more ↦
            let (p, drawn, mem) =
              random_peer-member (random (length chosen) (suc n)) (difference peers chosen)
                (rw e (within (length chosen) (suc n) (omega arith))) in
            let (sum, low, ge, lt, left) = split_step n for_each to_share le (ground arith) in
            let rest =
              share_loop-Shares fuel n (chosen ++ p ∷ []) for_each (left_of to_share)
                (omega (arith, length-difference p peers chosen distinct mem, e)) (omega arith)
                left in
            rw (loop_sends fuel n chosen for_each to_share p e more drawn) (
              Shares-step (some p) _ p for_each (share_of for_each to_share)
                (n * for_each + left_of to_share) (suc n * for_each + to_share) refl low ge lt sum
                rest)
      ]

sent_of_Shares :
    (r : Option (List (Address × ℕ))) (for_each budget : ℕ)
    → Shares r for_each budget
    → (sent : List (Address × ℕ)) × (r ≡ some sent)
      × (total sent ≡ budget)
      × All (λ s. (1 ≤ s.1) × (for_each ≤ s.1) × (s.1 ≤ for_each + 1)) sent
sent_of_Shares none for_each budget h = absurd h
sent_of_Shares (some sent) for_each budget h = (sent, refl, h.0, h.1)

-- A request of which the budget is not 0, at a peer that knows someone else than the sender, once
-- each, is split whole: with one round more than there are such peers the loop ends, the
-- budgets sent sum up to the budget, none of them is 0, and each is the budget divided by
-- the number of those peers or one more.
pub forward_search_request_total :
    (random : ℕ → ℕ → ℕ) (peers : List Address) (sender : Address) (budget : ℕ)
    → Within random
    → Distinct peers
    → 0 < budget
    → 0 < length (difference peers (sender ∷ []))
    → (sent : List (Address × ℕ)) × (forward_search_request_with_budget
          (length (difference peers (sender ∷ [])) + 1)
          random
          peers
          sender
          budget
        ≡ some sent)
      × (total sent ≡ budget)
      × All
          (λ s.
            (1 ≤ s.1)
            × (budget / length (difference peers (sender ∷ [])) ≤ s.1)
            × (s.1 ≤ budget / length (difference peers (sender ∷ [])) + 1))
          sent
unfolding forward_search_request_with_budget
forward_search_request_total random peers sender budget within distinct more some_peer =
    let n = length (difference peers (sender ∷ [])) in
    let shares =
      share_loop-Shares random within peers distinct (n + 1) n (sender ∷ []) (budget / n)
        (budget % n) refl (omega arith) (let lt = mod-lt budget some_peer in omega (arith, lt)) in
    let goes : (ltb 0 budget && not (n == 0)) ≡ true = ground arith in
    let (sent, e, sum, fair) =
      sent_of_Shares _ (budget / n) (n * (budget / n) + budget % n) shares in
    (sent, rw goes e, sum ∙ div-add-mod budget (length (difference peers (sender ∷ []))), fair)
