-- ===== src/Mongering/Waiting/Answered.antt =====
-- When `sendRumorWithTimeout` ends with a status, and what it leaves of the listeners.

use p2p_dapp.Base.{
  ℕ, ◌≤◌, String, ◌≡◌, refl, sym, ◌∙◌, ◌≢◌, ◌↔◌, inl, inr, Bool, true, false, ◌&&◌, none, some,
  List, [], ◌∷◌, arith, ◌==◌, string_eq, nat_eq, pair_eq, eq_refl, eq_true, Bool-cases, int_eq,
  list_eq,
}
use p2p_dapp.Packet.{Address, StatusPacket, ExtendedGossipPacket}
use p2p_dapp.GossipHandler.{GossipHandler, get_listener_for_status, delete_listener_for_status}
use p2p_dapp.Mongering.Exchange.Round.{SameGossip}
use p2p_dapp.Mongering.Waiting.{Arrival, pending_of, is_notified, send_rumor_with_timeout}
use p2p_dapp.Mongering.Waiting.Loop.{in_time, Answered, Kept, wait-Waited}
use p2p_dapp.Mongering.Waiting.Channels.{pending_of-get, pending_of-delete}

listening :
    (origin : String) (id : ℕ) (peer : Address) (h : GossipHandler)
    → is_notified peer (origin, id) h ≡ false
    → pending_of peer (origin, id) (get_listener_for_status origin id peer h).0 ≡ some 0
listening origin id peer h idle =
    pending_of-get origin id peer peer (origin, id) h
    ∙ ground (arith, string_eq.beq_iff peer peer, eq_refl origin, eq_refl id, idle)

deleted :
    (origin : String) (id : ℕ) (peer : Address) (h : GossipHandler)
    → pending_of peer (origin, id) (delete_listener_for_status origin id peer h) ≡ none
deleted origin id peer h =
    pending_of-delete origin id peer peer (origin, id) h
    ∙ ground (arith, string_eq.beq_iff peer peer, eq_refl origin, eq_refl id)

keys_apart :
    (a q : Address) (k key : String × ℕ)
    → ◌≢◌ {A = Address × (String × ℕ)} (q, key) (a, k)
    → (a == q && k == key) ≡ false
keys_apart a q k key other = elim (Bool-cases (a == q)) [
  | inl ea ↦ elim (Bool-cases (k == key)) [
    | inl ek ↦ absurd (other (λ i. (sym (eq_true a q ea) i, sym (eq_true k key ek) i)))
    | inr ne ↦ rw (ea, ne) refl
  ]
  | inr ne ↦ rw ne refl
]

-- Another listener is not touched by the one of this wait.
others-Kept :
    (origin : String) (id : ℕ) (peer : Address) (h w : GossipHandler) (q : Address)
    (key : String × ℕ) (n : ℕ)
    → ◌≢◌ {A = Address × (String × ℕ)} (q, key) (peer, (origin, id))
    → Kept (get_listener_for_status origin id peer h).0 w
    → pending_of q key h ≡ some n
    → (m : ℕ) × (pending_of q key (delete_listener_for_status origin id peer w) ≡ some m) × (n ≤ m)
others-Kept origin id peer h w q key n other k f =
    let apart = keys_apart peer q (origin, id) key other in
    let (m, e, l) = k q key n (pending_of-get origin id peer q key h ∙ rw apart f) in
    (m, pending_of-delete origin id peer q key w ∙ ground (arith, apart, e), l)

-- A peer sends a message to another and waits for its status, while statuses of any peers come, and
-- then the timer. No notification is left of an earlier wait for that message and peer. Then it has
-- sent the packet, once, and the wait ends: with a status exactly when one of those that came is
-- from that peer and past the message. No listener for it is left, the messages and the clock are as
-- they were, and every other listener has at least what it had.
pub send_rumor_with_timeout_lem :
    (e : ExtendedGossipPacket) (origin : String) (id : ℕ) (peer : Address)
    (statuses : List (Address × StatusPacket)) (later : List Arrival) (h : GossipHandler)
    → is_notified peer (origin, id) h ≡ false
    → (left : GossipHandler) × (answered : Bool) × (send_rumor_with_timeout e origin id peer
          (in_time statuses later)
          h
        ≡ ((e.packet, peer) ∷ [], some (left, answered)))
      × ((answered ≡ true) ↔ Answered peer origin id statuses)
      × (pending_of peer (origin, id) left ≡ none)
      × SameGossip h left
      × ((q : Address) (key : String × ℕ) (n : ℕ)
          → ◌≢◌ {A = Address × (String × ℕ)} (q, key) (peer, (origin, id))
          → pending_of q key h ≡ some n
          → (m : ℕ) × (pending_of q key left ≡ some m) × (n ≤ m))
unfolding send_rumor_with_timeout
send_rumor_with_timeout_lem e origin id peer statuses later h idle =
    let h0 = (get_listener_for_status origin id peer h).0 in
    let w = wait-Waited peer origin id later statuses 0 h0 (listening origin id peer h idle) in
    (
      delete_listener_for_status origin id peer w.left,
      w.answered,
      rw w.ends refl,
      (
        λ t. elim (w.answered_iff.0 t) [ inl l ↦ absurd (omega arith) | inr a ↦ a ],
        λ a. w.answered_iff.1 (inr a),
      ),
      deleted origin id peer w.left,
      record { storage = w.same.storage; clock = w.same.clock },
      λ q key n other f. others-Kept origin id peer h w.left q key n other w.kept f,
    )
