-- ===== src/Mongering/Waiting/Channels.antt =====
-- The channels of the listeners for a status, as the operations of gossiper/status.go change them.
use mathlib.Core.Option
use p2p_dapp.Base.{
  ℕ, ◌+◌, ◌<◌, String, ◌≡◌, refl, ap, inl, inr, ◌&&◌, none, some, List, [], ◌∷◌, arith, ltb,
  if◌then◌else◌, ◌==◌, string_eq, nat_eq, pair_eq, eq_true, Bool-cases, Option-cases, Dict, lookup,
  insert, delete, lookup-insert, lookup-delete, int_eq, load_or_store, lookup-load_or_store,
  list_eq, In, here, there,
}
use p2p_dapp.Packet.{Address, PeerStatus, StatusPacket}
use p2p_dapp.GossipHandler.{
  GossipHandler, listeners_of, get_listener_for_status, delete_listener_for_status, notifications,
  notify_all, notify_listeners_for_status,
}
use p2p_dapp.Mongering.Waiting.{pending_of}

-- An entry of the status is past the message.
abbrev pub Acknowledges : String → ℕ → List PeerStatus → Type 0
Acknowledges origin id want =
    (ps : PeerStatus) × In ps want × (ps.identifier ≡ origin) × (id < ps.next_id)

pub Acknowledges-notifications :
    (origin : String) (id : ℕ) (want : List PeerStatus)
    → Acknowledges origin id want
    → 0 < notifications (origin, id) want
unfolding notifications
Acknowledges-notifications origin id [] (ps, i, e, l) = elim i [ ]
Acknowledges-notifications origin id (x ∷ want) (ps, here e, eo, l) = ground (
  arith,
  ap (λ (q : PeerStatus). q.identifier) e,
  ap (λ (q : PeerStatus). q.next_id) e,
  eo,
  l,
  string_eq.beq_iff x.identifier origin,
)
Acknowledges-notifications origin id (x ∷ want) (ps, there i, eo, l) =
    let rest = Acknowledges-notifications origin id want (ps, i, eo, l) in omega arith

pub notifications-Acknowledges :
    (origin : String) (id : ℕ) (want : List PeerStatus)
    → 0 < notifications (origin, id) want
    → Acknowledges origin id want
unfolding notifications
notifications-Acknowledges origin id [] h = absurd (omega arith)
notifications-Acknowledges origin id (x ∷ want) h =
    elim (Bool-cases (x.identifier == origin && ltb id x.next_id)) [
      | inl past ↦ (
        x,
        here refl,
        ground (arith, past, string_eq.beq_iff x.identifier origin),
        ground (arith, past),
      )
      | inr other ↦
          let (ps, i, e, l) = notifications-Acknowledges origin id want (ground (arith, other)) in
          (ps, there i, e, l)
    ]

lookup-notify_all :
    (want : List PeerStatus) (key : String × ℕ) (m : Dict (String × ℕ) ℕ)
    → lookup key (notify_all want m) ≡ Option.map (λ n. n + notifications key want) (lookup key m)
unfolding lookup notify_all
lookup-notify_all want key [] = refl
lookup-notify_all want key ((k, n) ∷ m) = elim (Bool-cases (k == key)) [
  | inl same ↦ rw same (rw (eq_true k key same) refl)
  | inr other ↦ rw other (lookup-notify_all want key m)
]

listeners_of-insert :
    (a q : Address) (m : Dict (String × ℕ) ℕ) (h : GossipHandler)
    → listeners_of q (record h { mongering_channels = insert a m h.mongering_channels })
      ≡ (if a == q then m else listeners_of q h)
listeners_of-insert a q m h = ground (arith, lookup-insert a q m h.mongering_channels)

pub pending_of-notify :
    (a q : Address) (s : StatusPacket) (key : String × ℕ) (h : GossipHandler)
    → pending_of q key (notify_listeners_for_status a s h) ≡ (
        if a == q
        then Option.map (λ n. n + notifications key s.want) (pending_of q key h)
        else pending_of q key h)
unfolding notify_listeners_for_status lookup
pending_of-notify a q s key h = elim (Option-cases (lookup a h.mongering_channels)) [
  | inl empty ↦ ground (arith, empty, string_eq.beq_iff a q)
  | inr (m, found) ↦ ground (
    arith,
    found,
    listeners_of-insert a q (notify_all s.want m) h,
    lookup-notify_all s.want key m,
    string_eq.beq_iff a q,
  )
]

pub pending_of-get :
    (origin : String) (id : ℕ) (a q : Address) (key : String × ℕ) (h : GossipHandler)
    → pending_of q key (get_listener_for_status origin id a h).0 ≡ (
        if a == q && (origin, id) == key
        then some (elim (pending_of a (origin, id) h) [ none ↦ 0 | some n ↦ n ])
        else pending_of q key h)
unfolding get_listener_for_status
pending_of-get origin id a q key h = ground (
  arith,
  listeners_of-insert a q (load_or_store (origin, id) 0 (listeners_of a h)).1 h,
  lookup-load_or_store (origin, id) key 0 (listeners_of a h),
  string_eq.beq_iff a q,
)

pub pending_of-delete :
    (origin : String) (id : ℕ) (a q : Address) (key : String × ℕ) (h : GossipHandler)
    → pending_of q key (delete_listener_for_status origin id a h)
      ≡ (if a == q && (origin, id) == key then none else pending_of q key h)
unfolding delete_listener_for_status
pending_of-delete origin id a q key h = ground (
  arith,
  listeners_of-insert a q (delete (origin, id) (listeners_of a h)) h,
  lookup-delete (origin, id) key (listeners_of a h),
  string_eq.beq_iff a q,
)
