-- ===== src/GossipHandler/Storage.antt =====
-- The storage and the clock agree: the clock has the least unknown id of every origin. Storing a
-- message keeps that, and never replaces a message.
use p2p_dapp.Base.{
  ℕ, ◌+◌, ◌-◌, ◌^◌, ◌≤◌, ◌<◌, String, ◌≡◌, refl, sym, ◌∙◌, ◌≢◌, inl, inr, Bool, some, [], arith,
  if◌then◌else◌, ◌==◌, by_key, string_eq, nat_eq, pair_eq, eq_refl, eq_true, ne_false, Option-cases,
  lookup, insert, lookup-insert, length, int_eq, load_or_store, lookup-load_or_store,
  length-load_or_store,
}
use p2p_dapp.Packet.{GossipPacket}
use p2p_dapp.VectorClock.{VectorClock, next_id, update_status}
use p2p_dapp.GossipHandler.{GossipHandler, messages_of, store_message}
use p2p_dapp.GossipHandler.Least.{
  IsLeastUnknown, IsConsistent, Updated, stored, update-Updated, next_id-cong,
}

-- What storing a message does to the handler.
pub record Stored (packet : GossipPacket) (origin : String) (id : ℕ) (h h' : GossipHandler)
    (loaded : Bool) : Type 0 where
  pub consistent : IsConsistent h'
  pub mine :
      (j : ℕ)
      → lookup j (messages_of origin h') ≡ lookup j (stored id packet (messages_of origin h))
  pub others : (o : String) → o ≢ origin → messages_of o h' ≡ messages_of o h
  pub size : (o : String) → length (messages_of o h') ≤ length (messages_of o h) + 1
  pub known : loaded ≡ (load_or_store id packet (messages_of origin h)).2
  pub grows : (o : String) → next_id o h.my_status ≤ next_id o h'.my_status
  pub moved : id ≡ next_id origin h.my_status → id < next_id origin h'.my_status

module _ (packet : GossipPacket) (origin : String) (id : ℕ) (h : GossipHandler)
    (c : IsConsistent h) where
  abbrev after : VectorClock → GossipHandler
  after es = record h {
    message_storage =
        insert origin (stored id packet (messages_of origin h))
          (load_or_store origin [] h.message_storage).1;
    my_status = es;
  }

  after-messages :
      (es : VectorClock) (o : String)
      → messages_of o (after es)
        ≡ (if origin == o then stored id packet (messages_of origin h) else messages_of o h)
  after-messages es o = ground (
    arith,
    lookup-insert origin o (stored id packet (messages_of origin h))
        (load_or_store origin [] h.message_storage).1,
    lookup-load_or_store origin o [] h.message_storage,
  )

  abbrev Fits : VectorClock → Type 0
  Fits es = Updated origin id (stored id packet (messages_of origin h)) h.my_status es

  after-least :
      (es : VectorClock) (o : String)
      → Fits es
      → IsLeastUnknown (messages_of o (after es)) (next_id o es)
  after-least es o u =
      by_key (λ j. IsLeastUnknown (messages_of j (after es)) (next_id j es)) origin o
        (rw (after-messages es origin, eq_refl origin) u.least)
        (λ ne.
          rw
            (
              after-messages es o,
              ne_false origin o (λ e. ne (sym e)),
              next_id-cong o es h.my_status (u.others o ne),
            )
            (c.least o))

  after-IsConsistent : (es : VectorClock) → Fits es → IsConsistent (after es)
  after-IsConsistent es u = record {
    least = λ o. after-least es o u;
    started = λ o n.
        by_key (λ j. lookup j es ≡ some n → 2 ≤ n) origin o
          (λ q. ground (arith, u.entry n q, c.started origin n, (c.least origin).low))
          (λ ne q. c.started o n (sym (u.others o ne) ∙ q));
  }

  store_message-after :
      (es : VectorClock)
      → update_status origin id (stored id packet (messages_of origin h)) h.my_status ≡ some es
      → store_message packet origin id h
        ≡ some (after es, (load_or_store id packet (messages_of origin h)).2)
  unfolding store_message
  store_message-after es p = elim (Option-cases (lookup origin h.message_storage)) [
    | inl e ↦ ground (arith, p, e)
    | inr (m, e) ↦ ground (arith, p, e)
  ]

  -- On a consistent handler, where the origin has less than 2 ^ 32 - 2 messages, storing a message
  -- succeeds and keeps the handler consistent: the message is stored unless its id is taken, which
  -- the result says, the messages of other origins stay, no origin gets more than one, no entry of the clock gets lower, and a
  -- message with the next id moves the clock past it.
  pub store_message-Stored :
      length (messages_of origin h) + 1 < 2 ^ 32 - 1
      → (h' : GossipHandler) × (loaded : Bool) × (store_message packet origin id h
          ≡ some (h', loaded))
        × Stored packet origin id h h' loaded
  store_message-Stored size =
      let (es, p, u) =
        update-Updated origin id packet (messages_of origin h) h.my_status (c.least origin) size in
      (
        after es,
        _,
        store_message-after es p,
        record {
          consistent = after-IsConsistent es u;
          mine = λ j. rw (after-messages es origin, eq_refl origin);
          others = λ o ne. rw (after-messages es o, ne_false origin o (λ e. ne (sym e)));
          size = λ o. rw (after-messages es o) (
              ground
                (arith, eq_true origin o, length-load_or_store id packet (messages_of origin h)));
          known = refl;
          grows = λ o.
              by_key (λ j. next_id j h.my_status ≤ next_id j es) origin o u.grows
                (λ ne. rw (next_id-cong o es h.my_status (u.others o ne)) (omega arith));
          moved = u.moved;
        },
      )
