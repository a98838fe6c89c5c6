-- ===== src/GossipHandler/Least.antt =====
-- The entry of an origin in the clock against its stored messages.
use p2p_dapp.Base.{
  ℕ, ◌+◌, ◌-◌, ◌^◌, ◌≤◌, ◌<◌, String, ◌≡◌, refl, ◌≢◌, ◌⊎◌, inl, inr, false, none, some, arith, leb,
  string_eq, nat_eq, pair_eq, eq_refl, Bool-cases, Dict, lookup, length, leb→le, int_eq,
  load_or_store, lookup-load_or_store, length-load_or_store,
}
use p2p_dapp.Packet.{GossipPacket}
use p2p_dapp.VectorClock.{VectorClock, next_id, update_status}
use p2p_dapp.VectorClock.Update.{Filled, Advanced, update_status-Advanced}
use p2p_dapp.GossipHandler.{GossipHandler, messages_of}

-- `n` is the least id from 1 up that is not among the messages.
pub record IsLeastUnknown (messages : Dict ℕ GossipPacket) (n : ℕ) : Type 0 where
  pub low : 1 ≤ n
  pub filled : Filled messages n
  pub unknown : lookup n messages ≡ none

pub record IsConsistent (h : GossipHandler) : Type 0 where
  pub least : (o : String) → IsLeastUnknown (messages_of o h) (next_id o h.my_status)
  pub started : (o : String) (n : ℕ) → lookup o h.my_status ≡ some n → 2 ≤ n

-- What one update of the clock does, from `entries` to `entries'`.
pub record Updated (origin : String) (id : ℕ) (messages : Dict ℕ GossipPacket)
    (entries entries' : VectorClock) : Type 0 where
  pub least : IsLeastUnknown messages (next_id origin entries')
  pub grows : next_id origin entries ≤ next_id origin entries'
  pub moved : id ≡ next_id origin entries → id < next_id origin entries'
  pub entry :
      (n : ℕ)
      → lookup origin entries' ≡ some n
      → (lookup origin entries ≡ some n) ⊎ (next_id origin entries < n)
  pub others : (j : String) → j ≢ origin → lookup j entries' ≡ lookup j entries

abbrev pub stored : ℕ → GossipPacket → Dict ℕ GossipPacket → Dict ℕ GossipPacket
stored id packet messages = (load_or_store id packet messages).1

stored-Filled :
    (id : ℕ) (packet : GossipPacket) (messages : Dict ℕ GossipPacket) (n : ℕ)
    → Filled messages n
    → Filled (stored id packet messages) n
stored-Filled id packet messages n h i low high =
    ground (arith, lookup-load_or_store id i packet messages, h i low high)

module _ (origin : String) (id : ℕ) (packet : GossipPacket) (messages : Dict ℕ GossipPacket)
    (entries entries' : VectorClock) (low : 1 ≤ next_id origin entries)
    (a : Advanced
      (stored id packet messages)
      origin
      (next_id origin entries)
      entries
      entries') where
  next_id-stop : next_id origin entries' ≡ a.stop
  unfolding next_id
  next_id-stop = ground (arith, a.own, a.reaches)

  stored-stop : id ≢ a.stop
  stored-stop e =
      ground (arith, a.unknown, lookup-load_or_store id a.stop packet messages, eq_refl id)

  Advanced-Updated : Updated origin id (stored id packet messages) entries entries'
  Advanced-Updated = record {
    least =
        rw next_id-stop
          (record { low = omega (arith, a.reaches); filled = a.filled; unknown = a.unknown });
    grows = rw next_id-stop a.reaches;
    moved = λ e. rw next_id-stop (omega (arith, a.reaches, stored-stop));
    entry = λ n h. ground (arith, a.own);
    others = a.others;
  }

update_status_past :
    (origin : String) (id : ℕ) (messages : Dict ℕ GossipPacket) (entries : VectorClock)
    → leb (next_id origin entries) id ≡ false
    → update_status origin id messages entries ≡ some entries
unfolding update_status
update_status_past origin id messages entries h = rw h

past-Updated :
    (origin : String) (id : ℕ) (packet : GossipPacket) (messages : Dict ℕ GossipPacket)
    (entries : VectorClock)
    → IsLeastUnknown messages (next_id origin entries)
    → leb (next_id origin entries) id ≡ false
    → Updated origin id (stored id packet messages) entries entries
past-Updated origin id packet messages entries h past = record {
  least = record {
    low = h.low;
    filled = stored-Filled id packet messages (next_id origin entries) h.filled;
    unknown =
        ground (arith, lookup-load_or_store id (next_id origin entries) packet messages, h.unknown);
  };
  grows = omega arith;
  moved = λ e. absurd (ground arith);
  entry = λ n q. inl q;
  others = λ j ne. refl;
}

pub update-Updated :
    (origin : String) (id : ℕ) (packet : GossipPacket) (messages : Dict ℕ GossipPacket)
    (entries : VectorClock)
    → IsLeastUnknown messages (next_id origin entries)
    → length messages + 1 < 2 ^ 32 - 1
    → (entries' : VectorClock) × (update_status origin id (stored id packet messages) entries
        ≡ some entries')
      × Updated origin id (stored id packet messages) entries entries'
update-Updated origin id packet messages entries h size =
    elim (Bool-cases (leb (next_id origin entries) id)) [
      | inl due ↦
          let (es, p, a) =
            update_status-Advanced origin id (stored id packet messages) entries h.low
              (stored-Filled id packet messages (next_id origin entries) h.filled)
              (omega (arith, length-load_or_store id packet messages)) (leb→le _ _ due) in
          (es, p, Advanced-Updated origin id packet messages entries es h.low a)
      | inr past ↦ (
        entries,
        update_status_past origin id (stored id packet messages) entries past,
        past-Updated origin id packet messages entries h past,
      )
    ]

pub next_id-cong :
    (o : String) (es es' : VectorClock) → lookup o es ≡ lookup o es' → next_id o es ≡ next_id o es'
unfolding next_id
next_id-cong o es es' e = rw (e, next_id)
