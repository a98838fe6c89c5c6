-- ===== src/Network/Agreement.antt =====
-- In every state that the network can reach, peers agree on every message.
use p2p_dapp.Base.{
  arith, if◌then◌else◌, ◌+◌, ◌^◌, ◌≤◌, ◌<◌, ◌==◌, inl, Bool-cases, sym, eq_refl, ℕ, String, ◌≡◌,
  refl, ap, ◌∙◌, subst, inr, none, some, [], ◌∷◌, string_eq, nat_eq, pair_eq, lookup, int_eq,
  list_eq, In,
}
use p2p_dapp.Packet.{Address, GossipPacket, RumorMessage}
use p2p_dapp.VectorClock.{VectorClock}
use p2p_dapp.GossipHandler.{GossipHandler, messages_of, rumor_packet}
use p2p_dapp.Mongering.{anti_entropy}
use p2p_dapp.Gossiper.{Gossiper, Sent}
use p2p_dapp.Network.{Network, Step, Reach, IsStart, after, made_by, created_by}
use p2p_dapp.Network.Authentic.{key, held, IsAuthentic, Fair, after-IsAuthentic, after_raised}
use p2p_dapp.Network.Storing.{Adds}
use p2p_dapp.Tlc.{tlc_packet, new_tlc}
use p2p_dapp.Network.Fairness.{still-Fair, created-Fair}
use p2p_dapp.Network.Kinds.{create_rumor_message-Adds, create_tlc_message-Adds}
use p2p_dapp.Network.Fair.{sends-Sendable, anti_entropy-Sendable, gossip-Fair}

module _ (names : Address → String) (distinct : (a b : Address) → names a ≡ names b → a ≡ b)
    (range : VectorClock → VectorClock) where
  named_Adds :
      {p : GossipPacket} {x y : String} {i : ℕ} {h h' : GossipHandler}
      → x ≡ y
      → Adds p x i h h'
      → Adds p y i h h'
  named_Adds {p} {i = i} {h = h} {h' = h'} e adds = subst (λ z. Adds p z i h h') e adds

  below_next :
      (g : Gossiper) (a : Address)
      → g.gossip.seq_id + (if a == a then 1 else 0) < 2 ^ 32
      → g.gossip.seq_id + 1 < 2 ^ 32
  below_next g a small = ground (arith, small, eq_refl a)

  -- The peer is authentic after a step, and its sequence number is raised for what it has made.
  abbrev After : (n m : Network) → (Address → ℕ) → Type 0
  After n m made =
      IsAuthentic names distinct m
      × ((b : Address) → (m.nodes b).gossip.seq_id ≤ (n.nodes b).gossip.seq_id + made b)

  after-Fair :
      {n : Network} {a : Address} {g : Gossiper} {sent : Sent} {made : ℕ}
      → IsAuthentic names distinct n
      → Fair names distinct n a g sent made
      → After n (after a g sent n) (λ b. if a == b then made else 0)
  after-Fair auth fair =
      (after-IsAuthentic names distinct auth fair, after_raised names distinct auth fair)

  after_still :
      {n : Network} {a : Address} {g : Gossiper} {sent : Sent}
      → IsAuthentic names distinct n
      → Fair names distinct n a g sent 0
      → After n (after a g sent n) (λ b. 0)
  after_still {a = a} auth fair = (
    after-IsAuthentic names distinct auth fair,
    λ b.
        let up = after_raised names distinct auth fair b in
        elim (Bool-cases (a == b)) [
          | inl same ↦ ground (arith, up, same)
          | inr other ↦ ground (arith, up, other)
        ],
  )

  Step-After :
      {n m : Network}
      → IsAuthentic names distinct n
      → (step : Step range n m)
      → ((a : Address) → (n.nodes a).gossip.seq_id + made_by range a step < 2 ^ 32)
      → After n m (λ b. made_by range b step)
  unfolding made_by
  Step-After auth (Step.arrives p from to t effects w r h) small =
      after_still auth (gossip-Fair names distinct range auth p from to t effects w r h)
  Step-After {n} auth (Step.creates a text h e made) small =
      let r : RumorMessage = record {
        origin = (n.nodes a).name;
        id = (n.nodes a).gossip.seq_id;
        text = text;
      } in
      let adds =
        create_rumor_message-Adds (n.nodes a).name (n.nodes a).address text (n.nodes a).gossip h e
          made in
      after-Fair auth (
        created-Fair names distinct auth a (rumor_packet r) h
          (ap (λ x. some (x, (n.nodes a).gossip.seq_id)) (auth.named a))
          (below_next (n.nodes a) a (small a)) (named_Adds (auth.named a) adds))
  Step-After {n} auth (Step.publishes a s block confirmed fitness h m name made) small =
      let adds = create_tlc_message-Adds s block confirmed fitness (n.nodes a).gossip h m made in
      let called = name ∙ auth.named a in
      after-Fair auth (
        created-Fair names distinct auth a
          (tlc_packet (new_tlc s block confirmed fitness (n.nodes a).gossip)) h
          (ap (λ x. some (x, (n.nodes a).gossip.seq_id)) called)
          (below_next (n.nodes a) a (small a)) (named_Adds called adds))
  Step-After {n} auth (Step.mongers a to o i p h) small = after_still auth (
      still-Fair names distinct auth a (n.nodes a) ((p, to) ∷ []) refl refl refl
        (sends-Sendable names distinct range auth a ((p, to) ∷ []) (inr (o, i, h), tt)))
  Step-After {n} auth (Step.anti_entropies a i) small = after_still auth (
      still-Fair names distinct auth a (n.nodes a) (anti_entropy range i (n.nodes a)) refl refl refl
        (sends-Sendable names distinct range auth a (anti_entropy range i (n.nodes a))
          (anti_entropy-Sendable names distinct range auth a i)))

  start-IsAuthentic : {n : Network} → IsStart names n → IsAuthentic names distinct n
  unfolding lookup
  start-IsAuthentic {n} s =
      let nothing : (a : Address) (o : String) (i : ℕ) → held (n.nodes a) o i ≡ none =
        λ a o i. ap (λ h. lookup i (messages_of o h)) (s.fresh a) in
      record {
        named = s.named;
        filed = λ a o i p h. let gone = nothing a o i in absurd (cc);
        own = λ a b i p h. let gone = nothing a (names b) i in absurd (cc);
        unused = λ a i le. nothing a (names a) i;
        wired = λ p from to b i w k. elim (subst (In (p, from, to)) s.silent w) [ ];
      }

  Reach-IsAuthentic :
      {n m : Network}
      → IsStart names n
      → (r : Reach range n m) → ((a : Address) → created_by range a r + 1 < 2 ^ 32)
      → IsAuthentic names distinct m
        × ((a : Address) → (m.nodes a).gossip.seq_id ≤ created_by range a r + 1)
  unfolding created_by
  Reach-IsAuthentic s Reach.start few =
      (start-IsAuthentic s, λ a. subst (λ h. h.seq_id ≤ 1) (sym (s.fresh a)) (omega arith))
  Reach-IsAuthentic s (Reach.later r step) few =
      let (auth, low) = Reach-IsAuthentic s r (λ a. omega (arith, few a)) in
      let (next, up) = Step-After auth step (λ a. omega (arith, few a, low a)) in
      (next, λ a. omega (arith, up a, low a))

-- Peers with different names start, and then take any steps in any order, one after the other, while
-- packets are delayed, repeated or lost. The creation of a message is one step, so that no peer creates
-- two at the same time; and no peer creates 2^32 - 1 messages or more. Whatever message two of them
-- hold under the name of a third and an id, it is the same one: the one that the third holds under
-- that id.
pub held_agree :
    (names : Address → String)
    → ((a b : Address) → names a ≡ names b → a ≡ b)
    → (range : VectorClock → VectorClock) (n m : Network) → IsStart names n
    → (r : Reach range n m) → ((a : Address) → created_by range a r + 1 < 2 ^ 32)
    → (a b origin : Address) (i : ℕ) (p q : GossipPacket)
    → held (m.nodes a) (names origin) i ≡ some p
    → held (m.nodes b) (names origin) i ≡ some q
    → (p ≡ q) × (key p ≡ some (names origin, i)) × (held (m.nodes origin) (names origin) i ≡ some p)
held_agree names distinct range n m s r few a b origin i p q hp hq =
    let auth = (Reach-IsAuthentic names distinct range s r few).0 in
    let first = auth.own a origin i p hp in
    let second = auth.own b origin i q hq in (cc, auth.filed a (names origin) i p hp, first)
