-- ===== src/Search.antt =====
-- gossiper/filesearching.go and the peers that it uses: the budget of a search request is split over
-- the known peers. `rand.Intn` is an argument: the index that it gives in a round for a length.
pub mod Budget
pub mod Peers
use p2p_dapp.Base.{
  ℕ, zero, suc, ◌+◌, ◌-◌, ◌/◌, ◌%◌, Bool, false, not, ◌&&◌, ◌||◌, Option, none, some, List, [], ◌∷◌,
  ◌++◌, ltb, if◌then◌else◌, ◌==◌, string_eq, nat_eq, pair_eq, length, int_eq, list_eq,
}
use p2p_dapp.Packet.{Address}

unfoldable pub member : Address → List Address → Bool
member a [] = false
member a (b ∷ bs) = b == a || member a bs

-- `DifferenceString`: the addresses of the first list that are not in the second one.
unfoldable pub difference : List Address → List Address → List Address
unfolding member
difference [] others = []
difference (a ∷ xs) others =
    let rest = difference xs others in if member a others then rest else a ∷ rest

-- `AddPeer`
unfoldable pub add_peer : Address → List Address → List Address
unfolding member
add_peer peer peers = if member peer peers then peers else peers ++ peer ∷ []

-- `getRandomPeer` with the index that was drawn; `none` is an index out of range, a panic.
unfoldable pub random_peer : ℕ → List Address → Option Address
random_peer i [] = none
random_peer zero (a ∷ xs) = some a
random_peer (suc i) (a ∷ xs) = random_peer i xs

-- The budget of one request, and what is left to share after it.
unfoldable pub share_of : ℕ → ℕ → ℕ
share_of for_each to_share = if ltb 0 to_share then for_each + 1 else for_each

unfoldable pub left_of : ℕ → ℕ
left_of to_share = if ltb 0 to_share then to_share - 1 else to_share

-- One request goes out if a peer is drawn, and the rest follow.
unfoldable pub send_first :
    Option Address → ℕ → Option (List (Address × ℕ)) → Option (List (Address × ℕ))
send_first none share rest = none
send_first (some peer) share none = none
send_first (some peer) share (some sent) = some ((peer, share) ∷ sent)

-- The peers chosen so far, with the one that was drawn.
unfoldable pub choose : Option Address → List Address → List Address
choose none chosen = chosen
choose (some peer) chosen = chosen ++ peer ∷ []

-- The loop, with the peers chosen so far: the requests that are sent, each with its budget. The
-- first argument is the fuel.
unfoldable pub share_loop :
    ℕ → (ℕ → ℕ → ℕ) → List Address → List Address → ℕ → ℕ → Option (List (Address × ℕ))
unfolding difference random_peer share_of left_of send_first choose
share_loop zero random peers chosen for_each to_share = none
share_loop (suc fuel) random peers chosen for_each to_share =
    let available = difference peers chosen in
    let peer = random_peer (random (length chosen) (length available)) available in
    let rest = share_loop fuel random peers (choose peer chosen) for_each (left_of to_share) in
    if length available == 0
    then some []
    else if to_share == 0 && for_each == 0
    then some []
    else send_first peer (share_of for_each to_share) rest

-- `forwardSearchRequestWithBudget`: the peers are those known at the time, and the request is not
-- sent back to its sender.
unfoldable pub forward_search_request_with_budget :
    ℕ → (ℕ → ℕ → ℕ) → List Address → Address → ℕ → Option (List (Address × ℕ))
unfolding share_loop
forward_search_request_with_budget fuel random peers sender budget =
    let n = length (difference peers (sender ∷ [])) in
    if ltb 0 budget && not (n == 0)
    then share_loop fuel random peers (sender ∷ []) (budget / n) (budget % n)
    else some []
