-- ===== src/Tests/Exchanges.antt =====
-- Exchanges between two peers at concrete inputs.
use p2p_dapp.Base.{
  ℕ, String, ◌≡◌, refl, subst, inl, inr, false, some, [], ◌∷◌, arith, ◌==◌, string_eq, nat_eq,
  pair_eq, eq_refl, eq_true, Bool-cases, lookup, delete, lookup-delete, All, int_eq, Ranges,
  list_eq,
}
use p2p_dapp.Packet.{GossipPacket}
use p2p_dapp.VectorClock.{VectorClock, next_id}
use p2p_dapp.VectorClock.Behind.{behind}
use p2p_dapp.Dispatch.{receive_packet, get_type_from_gossip, is_set}
use p2p_dapp.Gossiper.{Gossiper, new_gossiper}
use p2p_dapp.Network.Authentic.{held}
use p2p_dapp.Mongering.Exchange.{exchanges}
use p2p_dapp.Mongering.Exchange.Round.{IsGossip}
use p2p_dapp.Mongering.Exchange.CatchUp.{CaughtUp, catches_up}
use p2p_dapp.Mongering.Exchange.Progress.{Ready}
use p2p_dapp.Tests.Clocks.{hello, sender, sender-IsConsistent, new-IsConsistent}

-- A range that meets each key once, with the value that the map has for it.
abbrev pub each_once : VectorClock → VectorClock
each_once [] = []
each_once ((o, n) ∷ c) = (o, n) ∷ delete o (each_once c)

deleted_sound :
    (o : String) (n : ℕ) (c order : VectorClock)
    → All (λ p. lookup p.0 c ≡ some p.1) order
    → All (λ p. lookup p.0 ((o, n) ∷ c) ≡ some p.1) (delete o order)
unfolding lookup delete
deleted_sound o n c [] h = tt
deleted_sound o n c ((j, w) ∷ order) h = elim (Bool-cases (j == o)) [
  | inl same ↦ rw same (deleted_sound o n c order h.1)
  | inr other ↦ rw other (
    ground (arith, string_eq.beq_iff j o, string_eq.beq_iff o j, h.0),
    deleted_sound o n c order h.1,
  )
]

each_once_sound : (c : VectorClock) → All (λ p. lookup p.0 c ≡ some p.1) (each_once c)
unfolding lookup
each_once_sound [] = tt
each_once_sound ((o, n) ∷ c) =
    (rw (eq_refl o) refl, deleted_sound o n c (each_once c) (each_once_sound c))

each_once_complete : (c : VectorClock) (k : String) → lookup k (each_once c) ≡ lookup k c
unfolding lookup
each_once_complete [] k = refl
each_once_complete ((o, n) ∷ c) k =
    ground (arith, lookup-delete o k (each_once c), each_once_complete c k)

pub each_once-Ranges : (c : VectorClock) → Ranges (each_once c) c
each_once-Ranges c = record { sound = each_once_sound c; complete = each_once_complete c }

abbrev pub knows : Gossiper
knows = record (new_gossiper "c" "c" [] 2 10) { gossip = sender }

abbrev pub new_peer : Gossiper
new_peer = new_gossiper "b" "b" [] 2 10

hello-IsGossip : IsGossip hello "a" 1
unfolding receive_packet get_type_from_gossip is_set
hello-IsGossip = inl (refl, (record { origin = "a"; id = 1; text = "hello" }, refl, refl, refl))

only_hello :
    (i : ℕ) (p : GossipPacket) → lookup i ((1, hello) ∷ []) ≡ some p → (1 ≡ i) × (hello ≡ p)
unfolding lookup
only_hello i p e = ground arith

one_message : (i : ℕ) (p : GossipPacket) → lookup i ((1, hello) ∷ []) ≡ some p → IsGossip p "a" i
one_message i p e =
    let (ei, ep) = only_hello i p e in
    subst (λ q. IsGossip q "a" i) ep (subst (λ j. IsGossip hello "a" j) ei hello-IsGossip)

other_held :
    (o : String) (i : ℕ) (p : GossipPacket)
    → ("a" == o) ≡ false
    → held knows o i ≡ some p
    → IsGossip p o i
unfolding lookup
other_held o i p other e = absurd (ground (arith, other))

knows-filed : (o : String) (i : ℕ) (p : GossipPacket) → held knows o i ≡ some p → IsGossip p o i
unfolding lookup
knows-filed o i p e = elim (Bool-cases ("a" == o)) [
  | inl same ↦
      let eo = eq_true "a" o same in
      subst (λ x. held knows x i ≡ some p → IsGossip p x i) eo (one_message i p) e
  | inr other ↦ other_held o i p other e
]

pub knows-Ready : Ready each_once each_once-Ranges knows new_peer
unfolding lookup next_id behind delete
knows-Ready = record {
  sender = sender-IsConsistent;
  receiver = new-IsConsistent;
  filed = knows-filed;
  own = omega arith;
  room = λ o. omega arith;
}

catches_up_example :
    (t : Gossiper × Gossiper) × (exchanges each_once 3 (knows, new_peer) ≡ some t)
    × CaughtUp each_once each_once-Ranges knows new_peer t
unfolding lookup next_id behind delete
catches_up_example =
    catches_up each_once each_once-Ranges 3 knows new_peer knows-Ready (omega arith)
