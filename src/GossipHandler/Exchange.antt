-- ===== src/GossipHandler/Exchange.antt =====
-- One exchange of the anti-entropy protocol: a peer gets the status of another, sends the message
-- that the other lacks, and the other stores it.
use p2p_dapp.Base.{
  ℕ, ◌+◌, ◌-◌, ◌^◌, ◌≤◌, ◌<◌, String, ◌≡◌, refl, sym, ◌∙◌, inl, inr, Bool, false, Option, none,
  some, arith, string_eq, nat_eq, pair_eq, Option-cases, Dict, lookup, lookup-insert_self, length,
  int_eq, Has, Ranges,
}
use p2p_dapp.Packet.{GossipPacket, PeerStatus}
use p2p_dapp.VectorClock.{VectorClock, next_id, create_my_status_packet, get_peer_status_for_peer}
use p2p_dapp.VectorClock.Compare.{Ahead, get_peer_status-Lacks}
use p2p_dapp.GossipHandler.{GossipHandler, messages_of, store_message, get_packet_from_peer_status}
use p2p_dapp.GossipHandler.Storage.{Stored, store_message-Stored}
use p2p_dapp.GossipHandler.Least.{IsLeastUnknown, IsConsistent}

-- The message that a request names is stored, where the other clock holds no 0.
request-stored :
    (mine theirs : Option ℕ) (k : ℕ) (messages : Dict ℕ GossipPacket)
    → Ahead mine theirs k
    → ((n : ℕ) → mine ≡ some n → 2 ≤ n)
    → ((n : ℕ) → theirs ≡ some n → 1 ≤ n)
    → IsLeastUnknown messages (elim mine [ none ↦ 1 | some n ↦ n ])
    → Has k messages
request-stored none theirs k messages a low pos_low h = absurd a
request-stored (some n) none k messages a low pos_low h =
    rw a (h.filled 1 (omega arith) (omega (arith, low n refl)))
request-stored (some n) (some id) k messages a low pos_low h =
    rw a.0 (h.filled id (pos_low id refl) a.1)

-- A request is for the id that the other peer has as its next one.
Ahead-next :
    (mine theirs : Option ℕ) (k : ℕ)
    → Ahead mine theirs k
    → k ≡ elim theirs [ none ↦ 1 | some n ↦ n ]
Ahead-next none theirs k a = absurd a
Ahead-next (some n) none k a = a
Ahead-next (some n) (some id) k a = a.0

pub packet_of-messages :
    (ps : PeerStatus) (h : GossipHandler)
    → get_packet_from_peer_status ps h ≡ lookup ps.next_id (messages_of ps.identifier h)
unfolding get_packet_from_peer_status lookup
packet_of-messages ps h = ground arith

-- A message that was not there is stored as a new one.
pub store_fresh :
    {packet : GossipPacket} {origin : String} {id : ℕ} {h h' : GossipHandler} {loaded : Bool}
    → lookup id (messages_of origin h) ≡ none
    → Stored packet origin id h h' loaded
    → (loaded ≡ false) × (lookup id (messages_of origin h') ≡ some packet)
store_fresh {packet} {origin} {id} {h} fresh s =
    ground (arith, s.known, s.mine id, lookup-insert_self id packet (messages_of origin h))

module _ {h : GossipHandler} {oa ob b : VectorClock} (c : IsConsistent h)
    (ra : Ranges oa h.my_status) (rb : Ranges ob b) (ps : PeerStatus)
    (found : get_peer_status_for_peer oa (create_my_status_packet ob).want ≡ some ps) where
  -- A consistent peer that gets a status of ids from 1 up has the message that it finds to send:
  -- the type assertion of `getPacketFromPeerStatus` does not fail, and the message is the stored
  -- one.
  pub get_packet_total :
      ((o : String) (n : ℕ) → lookup o b ≡ some n → 1 ≤ n)
      → (p : GossipPacket) × (get_packet_from_peer_status ps h ≡ some p)
        × (lookup ps.next_id (messages_of ps.identifier h) ≡ some p)
  unfolding next_id
  get_packet_total low = elim (Option-cases (lookup ps.next_id (messages_of ps.identifier h))) [
    | inl e ↦ absurd (
        request-stored (lookup ps.identifier h.my_status) (lookup ps.identifier b) ps.next_id
          (messages_of ps.identifier h) (get_peer_status-Lacks ra rb ps found)
          (c.started ps.identifier) (low ps.identifier) (c.least ps.identifier) e)
    | inr (p, e) ↦ (p, packet_of-messages ps h ∙ e, e)
  ]

module _ {g h : GossipHandler} {oa ob : VectorClock} (cg : IsConsistent g) (ch : IsConsistent h)
    (ra : Ranges oa g.my_status) (rb : Ranges ob h.my_status) (ps : PeerStatus)
    (found : get_peer_status_for_peer oa (create_my_status_packet ob).want ≡ some ps) where
  target : next_id ps.identifier h.my_status ≡ ps.next_id
  unfolding next_id
  target = sym (Ahead-next _ _ ps.next_id (get_peer_status-Lacks ra rb ps found))

  -- When a consistent peer g gets the status of a consistent peer h and finds something to send,
  -- it has the message, and h, which has less than 2 ^ 32 - 2 messages of that origin, stores it as
  -- a new one: h stays consistent and its clock moves past that message.
  pub exchange_progress :
      length (messages_of ps.identifier h) + 1 < 2 ^ 32 - 1
      → (p : GossipPacket) × (h' : GossipHandler) × (get_packet_from_peer_status ps g ≡ some p)
        × (store_message p ps.identifier ps.next_id h ≡ some (h', false))
        × (lookup ps.next_id (messages_of ps.identifier h') ≡ some p)
        × IsConsistent h'
        × (next_id ps.identifier h.my_status ≡ ps.next_id)
        × (ps.next_id < next_id ps.identifier h'.my_status)
  exchange_progress size =
      let (p, sent, _) =
        get_packet_total cg ra rb ps found (λ o n e. omega (arith, ch.started o n e)) in
      let next = target in
      let (h', loaded, e, s) = store_message-Stored p ps.identifier ps.next_id h ch size in
      let (fresh, kept) = store_fresh (rw (← next) (ch.least ps.identifier).unknown) s in
      (p, h', sent, rw (← fresh) e, kept, s.consistent, next, s.moved (sym next))
