-- ===== src/VectorClock.antt =====
-- gossiper/status.go: the vector clock of a peer and its comparison with the status of another.
-- The clock maps an origin to the least message id of it that is not known yet.
pub mod Update
pub mod Compare
pub mod Behind
use p2p_dapp.Base.{
  ℕ, zero, suc, ◌+◌, ◌%◌, ◌^◌, String, Bool, true, false, Option, none, some, List, [], ◌∷◌, map,
  ltb, leb, if◌then◌else◌, string_eq, nat_eq, pair_eq, Dict, lookup, insert, length, int_eq,
}
use p2p_dapp.Packet.{PeerStatus, StatusPacket}

abbrev pub VectorClock : Type 0
VectorClock = Dict String ℕ

-- `for found`: go up to the least unknown id, and write the clock at each step. An id is a uint32.
-- `none` means that the fuel ran out.
unfoldable pub advance {ℓ} :
    {V : Type ℓ} → ℕ → Dict ℕ V → String → ℕ → VectorClock → Option VectorClock
advance zero messages origin max_id entries = none
advance (suc fuel) messages origin max_id entries =
    let next = (max_id + 1) % 2 ^ 32 in
    let rest = advance fuel messages origin next (insert origin next entries) in
    elim (lookup max_id messages) [ none ↦ some entries | some _ ↦ rest ]

-- The id from which the search starts: the entry of the origin, or 1.
unfoldable pub next_id : String → VectorClock → ℕ
next_id origin entries = elim (lookup origin entries) [ none ↦ 1 | some n ↦ n ]

-- One round for each stored message, and the last test, are enough fuel.
unfoldable pub update_status {ℓ} :
    {V : Type ℓ} → String → ℕ → Dict ℕ V → VectorClock → Option VectorClock
update_status origin id messages entries =
    let max_id = next_id origin entries in
    if leb max_id id
    then advance (length messages + 1) messages origin max_id entries
    else some entries

-- The argument lists the clock in the order of the `range`.
unfoldable pub create_my_status_packet : VectorClock → StatusPacket
create_my_status_packet entries = record {
  want = map (λ e. record { identifier = e.0; next_id = e.1 }) entries;
}

-- `originIDMap` of getPeerStatusForPeer: a later element of the status wins.
unfoldable pub origin_id_map : List PeerStatus → Dict String ℕ → Dict String ℕ
origin_id_map [] acc = acc
origin_id_map (e ∷ es) acc = origin_id_map es (insert e.identifier e.next_id acc)

unfoldable pub first_needed : VectorClock → Dict String ℕ → Option PeerStatus
first_needed [] theirs = none
first_needed ((origin, next) ∷ entries) theirs =
    let rest = first_needed entries theirs in
    elim (lookup origin theirs) [
      | none ↦ some (record { identifier = origin; next_id = 1 })
      | some id ↦ if ltb id next then some (record { identifier = origin; next_id = id }) else rest
    ]

-- The first entry, in the order of the `range`, that the other peer lacks.
unfoldable pub get_peer_status_for_peer : VectorClock → List PeerStatus → Option PeerStatus
unfolding first_needed origin_id_map
get_peer_status_for_peer entries other = first_needed entries (origin_id_map other [])

-- Does the other status name a message that this clock lacks?
unfoldable pub check_if_i_need_peer_status : VectorClock → List PeerStatus → Bool
check_if_i_need_peer_status entries [] = false
check_if_i_need_peer_status entries (e ∷ es) =
    let rest = check_if_i_need_peer_status entries es in
    elim (lookup e.identifier entries) [
      | none ↦ true
      | some id ↦ if ltb id e.next_id then true else rest
    ]
