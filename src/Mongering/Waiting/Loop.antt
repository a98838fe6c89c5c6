-- ===== src/Mongering/Waiting/Loop.antt =====
-- The loop of `sendRumorWithTimeout`: when it receives, and what it leaves of the listeners.
use p2p_dapp.Base.{
  ℕ, ◌+◌, ◌≤◌, ◌<◌, String, ◌≡◌, refl, ap, ◌∙◌, subst, ◌↔◌, ◌⊎◌, inl, inr, Bool, true, false, some,
  List, [], ◌∷◌, arith, ltb, ◌==◌, string_eq, nat_eq, pair_eq, eq_true, Bool-cases, ltb→lt, lt→ltb,
  int_eq, list_eq, In, here, there,
}
use p2p_dapp.Packet.{Address, StatusPacket}
use p2p_dapp.GossipHandler.{GossipHandler, notifications, notify_listeners_for_status}
use p2p_dapp.Mongering.Exchange.Round.{SameGossip, notify-SameGossip}
use p2p_dapp.Mongering.Waiting.{
  Arrival, got_status, timeout, pending_of, is_notified, wait_for_status,
}
use p2p_dapp.Mongering.Waiting.Channels.{
  Acknowledges, Acknowledges-notifications, notifications-Acknowledges, pending_of-notify,
}

-- The statuses that come before the timer, and whatever comes after it.
abbrev pub in_time : List (Address × StatusPacket) → List Arrival → List Arrival
in_time [] later = timeout ∷ later
in_time ((sender, s) ∷ statuses) later = got_status sender s ∷ in_time statuses later

-- The status is from that peer, and past the message.
abbrev pub Past : Address → String → ℕ → Address × StatusPacket → Type 0
Past peer origin id (sender, s) = (sender ≡ peer) × Acknowledges origin id s.want

-- One of the statuses is.
abbrev pub Answered : Address → String → ℕ → List (Address × StatusPacket) → Type 0
Answered peer origin id statuses =
    (s : Address × StatusPacket) × In s statuses × Past peer origin id s

-- The channels that are there stay, with all that they hold.
abbrev pub Kept : GossipHandler → GossipHandler → Type 0
Kept h h' =
    (q : Address) (key : String × ℕ) (n : ℕ)
    → pending_of q key h ≡ some n
    → (m : ℕ) × (pending_of q key h' ≡ some m) × (n ≤ m)

notify-Kept :
    (a : Address) (s : StatusPacket) (h : GossipHandler)
    → Kept h (notify_listeners_for_status a s h)
notify-Kept a s h q key n e = elim (Bool-cases (a == q)) [
  | inl same ↦
      (n + notifications key s.want, pending_of-notify a q s key h ∙ rw (same, e) refl, omega arith)
  | inr other ↦ (n, pending_of-notify a q s key h ∙ rw other e, omega arith)
]

module _ (peer : Address) (origin : String) (id : ℕ) (later : List Arrival) where
  -- How a wait ends that begins with n notifications in its channel.
  pub record Waited (n : ℕ) (statuses : List (Address × StatusPacket)) (h : GossipHandler)
      : Type 0 where
    pub left : GossipHandler
    pub answered : Bool
    pub ends : wait_for_status origin id peer (in_time statuses later) h ≡ some (left, answered)
    pub answered_iff : (answered ≡ true) ↔ ((0 < n) ⊎ Answered peer origin id statuses)
    pub same : SameGossip h left
    pub kept : Kept h left

  received :
      (arrivals : List Arrival) (h : GossipHandler)
      → is_notified peer (origin, id) h ≡ true
      → wait_for_status origin id peer arrivals h ≡ some (h, true)
  unfolding wait_for_status
  received [] h e = rw e refl
  received (timeout ∷ arrivals) h e = rw e refl
  received (got_status a s ∷ arrivals) h e = rw e refl

  timed_out :
      (h : GossipHandler)
      → wait_for_status origin id peer (timeout ∷ later) h
        ≡ some (h, is_notified peer (origin, id) h)
  unfolding wait_for_status
  timed_out h = refl

  not_received :
      (a : Address) (s : StatusPacket) (arrivals : List Arrival) (h : GossipHandler)
      → is_notified peer (origin, id) h ≡ false
      → wait_for_status origin id peer (got_status a s ∷ arrivals) h
        ≡ wait_for_status origin id peer arrivals (notify_listeners_for_status a s h)
  unfolding wait_for_status
  not_received a s arrivals h e = rw e refl

  held_notified :
      (h : GossipHandler) (n : ℕ)
      → pending_of peer (origin, id) h ≡ some n
      → is_notified peer (origin, id) h ≡ ltb 0 n
  held_notified h n e = rw (is_notified, e) refl

  -- What the status adds to the channel that is waited on.
  arrived :
      (a : Address) (s : StatusPacket) (n : ℕ) (h : GossipHandler)
      → pending_of peer (origin, id) h ≡ some n
      → (m : ℕ) × (pending_of peer (origin, id) (notify_listeners_for_status a s h) ≡ some m)
        × ((0 < m) ↔ ((0 < n) ⊎ Past peer origin id (a, s)))
  arrived a s n h e = elim (Bool-cases (a == peer)) [
    | inl same ↦ (
      n + notifications (origin, id) s.want,
      pending_of-notify a peer s (origin, id) h ∙ rw (same, e) refl,
      (
        λ l. elim (Bool-cases (ltb 0 n)) [
          | inl some_left ↦ inl (ltb→lt 0 n some_left)
          | inr empty ↦ inr (
            eq_true a peer same,
            notifications-Acknowledges origin id s.want (ground (arith, empty)),
          )
        ],
        λ t. elim t [
          | inl l ↦ omega arith
          | inr (ep, acks) ↦ let l = Acknowledges-notifications origin id s.want acks in omega arith
        ],
      ),
    )
    | inr other ↦ (
      n,
      pending_of-notify a peer s (origin, id) h ∙ rw other e,
      (
        λ l. inl l,
        λ t. elim t [
          | inl l ↦ l
          | inr (ep, acks) ↦ absurd (ground (arith, other, string_eq.beq_iff a peer, ep))
        ],
      ),
    )
  ]

  -- The first of the statuses, with what it has put into the channel, or a later one.
  first_or_later :
      (s : Address × StatusPacket) (statuses : List (Address × StatusPacket)) (n m : ℕ)
      → ((0 < m) ↔ ((0 < n) ⊎ Past peer origin id s))
      → ((0 < m) ⊎ Answered peer origin id statuses)
        ↔ ((0 < n) ⊎ Answered peer origin id (s ∷ statuses))
  first_or_later s statuses n m first = (
    λ t. elim t [
      | inl l ↦ elim (first.0 l) [ inl k ↦ inl k | inr p ↦ inr (s, here refl, p) ]
      | inr (q, i, p) ↦ inr (q, there i, p)
    ],
    λ t. elim t [
      | inl l ↦ inl (first.1 (inl l))
      | inr (q, here e, p) ↦ inl (first.1 (inr (subst (Past peer origin id) e p)))
      | inr (q, there i, p) ↦ inr (q, i, p)
    ],
  )

  pub wait-Waited :
      (statuses : List (Address × StatusPacket)) (n : ℕ) (h : GossipHandler)
      → pending_of peer (origin, id) h ≡ some n
      → Waited n statuses h
  wait-Waited [] n h e = record {
    left = h;
    answered = ltb 0 n;
    ends = timed_out h ∙ ap (λ b. some (h, b)) (held_notified h n e);
    answered_iff = (
      λ t. inl (ltb→lt 0 n t),
      λ t. elim t [ inl l ↦ lt→ltb 0 n l | inr (q, i, p) ↦ elim i [ ] ],
    );
    same = record { storage = refl; clock = refl };
    kept = λ q key k f. (k, f, omega arith);
  }
  wait-Waited ((a, s) ∷ statuses) n h e =
      let h1 = notify_listeners_for_status a s h in
      let (m, em, first) = arrived a s n h e in
      let rest = wait-Waited statuses m h1 em in
      let before = notify-SameGossip a s h in
      elim (Bool-cases (ltb 0 n)) [
        | inl ready ↦ record {
          left = h;
          answered = true;
          ends = received _ h (held_notified h n e ∙ ready);
          answered_iff = (λ t. inl (ltb→lt 0 n ready), λ t. refl);
          same = record { storage = refl; clock = refl };
          kept = λ q key k f. (k, f, omega arith);
        }
        | inr empty ↦ record {
          left = rest.left;
          answered = rest.answered;
          ends = not_received a s _ h (held_notified h n e ∙ empty) ∙ rest.ends;
          answered_iff =
              let both = first_or_later (a, s) statuses n m first in
              (λ t. both.0 (rest.answered_iff.0 t), λ t. rest.answered_iff.1 (both.1 t));
          same = record {
            storage = rest.same.storage ∙ before.storage;
            clock = rest.same.clock ∙ before.clock;
          };
          kept = λ q key k f.
              let (k1, f1, l1) = notify-Kept a s h q key k f in
              let (k2, f2, l2) = rest.kept q key k1 f1 in (k2, f2, omega arith);
        }
      ]
