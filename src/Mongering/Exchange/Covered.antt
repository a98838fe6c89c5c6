-- ===== src/Mongering/Exchange/Covered.antt =====
-- What the handlers of the two peers have in common with others, and their clocks.
use p2p_dapp.Base.{
  ◌⊎◌, lookup-insert, Dict, ℕ, ◌≤◌, String, ◌≡◌, refl, Option, none, some, arith, string_eq, nat_eq,
  pair_eq, lookup, int_eq, list_eq,
}
use p2p_dapp.Packet.{GossipPacket}
use p2p_dapp.VectorClock.{VectorClock, next_id}
use p2p_dapp.VectorClock.Compare.{AtMost, Covers}
use p2p_dapp.GossipHandler.{GossipHandler, messages_of}
use p2p_dapp.GossipHandler.Least.{stored, IsConsistent}
use p2p_dapp.Mongering.Exchange.Round.{SameGossip}

pub messages_of-same :
    (h h' : GossipHandler) → SameGossip h h' → (o : String) → messages_of o h' ≡ messages_of o h
messages_of-same h h' s o = rw s.storage refl

pub SameGossip-IsConsistent :
    (h h' : GossipHandler) → SameGossip h h' → IsConsistent h → IsConsistent h'
SameGossip-IsConsistent h h' s c = record {
  least = λ o. rw (messages_of-same h h' s o, s.clock) (c.least o);
  started = rw s.clock c.started;
}

-- What is found after a message is stored was there, or is that message.
pub stored_news :
    (id i : ℕ) (p q : GossipPacket) (before after : Dict ℕ GossipPacket)
    → ((j : ℕ) → lookup j after ≡ lookup j (stored id p before))
    → lookup id before ≡ none
    → lookup i after ≡ some q
    → (lookup i before ≡ some q) ⊎ ((id ≡ i) × (p ≡ q))
stored_news id i p q before after mine unknown e =
    ground (arith, mine i, lookup-insert id i p before, unknown, e)

pub some-ne-none {ℓ} : {A : Type ℓ} {a : A} → some a ≡ none → ⊥
some-ne-none e = cc

AtMost-next :
    (a b : Option ℕ)
    → AtMost a b
    → ((n : ℕ) → b ≡ some n → 2 ≤ n)
    → elim a [ none ↦ 1 | some n ↦ n ] ≤ elim b [ none ↦ 1 | some n ↦ n ]
AtMost-next none none c low = omega arith
AtMost-next none (some k) c low = omega (arith, low k refl)
AtMost-next (some n) none c low = absurd c
AtMost-next (some n) (some k) c low = c

pub Covers-next_id :
    (a b : VectorClock) (o : String)
    → Covers b a
    → ((n : ℕ) → lookup o b ≡ some n → 2 ≤ n)
    → next_id o a ≤ next_id o b
unfolding next_id
Covers-next_id a b o c low = AtMost-next (lookup o a) (lookup o b) (c o) low
