-- ===== src/Mongering/Waiting/Taken.antt =====
-- A rumor that is mongered to a peer, whose handler takes it and sends its status back to the
-- goroutine that waits.

use p2p_dapp.Base.{
  ◌++◌, ℕ, ◌+◌, ◌-◌, ◌^◌, ◌≤◌, ◌<◌, String, ◌≡◌, refl, sym, ap, ◌∙◌, inl, inr, Bool, true, false,
  Option, none, some, List, [], ◌∷◌, arith, ltb, ◌==◌, string_eq, nat_eq, pair_eq, eq_true,
  Bool-cases, Option-cases, lookup, length, ltb→lt, int_eq, Ranges, list_eq, In, here, there,
}
use p2p_dapp.Packet.{Address, GossipPacket, StatusPacket, ExtendedGossipPacket, RumorMessage}
use p2p_dapp.VectorClock.{VectorClock, next_id, create_my_status_packet}
use p2p_dapp.GossipHandler.{GossipHandler, messages_of, store_message}
use p2p_dapp.GossipHandler.Storage.{Stored, store_message-Stored}
use p2p_dapp.GossipHandler.Least.{IsConsistent}
use p2p_dapp.Gossiper.{Gossiper}
use p2p_dapp.Mongering.{
  Effects, status_packet, process_rumor_message, handle_gossip_message, take_message,
}
use p2p_dapp.Mongering.Waiting.{Arrival, is_notified, send_rumor_with_timeout}
use p2p_dapp.Mongering.Waiting.Loop.{in_time}
use p2p_dapp.Mongering.Waiting.Channels.{Acknowledges}
use p2p_dapp.Mongering.Waiting.Answered.{send_rumor_with_timeout_lem}

middle-In :
    (before after : List (Address × StatusPacket)) (s : Address × StatusPacket)
    → In s (before ++ s ∷ after)
middle-In [] after s = here refl
middle-In (x ∷ before) after s = there (middle-In before after s)

-- A status with the entries of a clock acknowledges what is below the clock.
wanted-In :
    (order : VectorClock) (o : String) (n : ℕ)
    → lookup o order ≡ some n
    → In (record { identifier = o; next_id = n }) (create_my_status_packet order).want
unfolding lookup create_my_status_packet
wanted-In [] o n e = absurd (ground arith)
wanted-In ((k, m) ∷ order) o n e = elim (Bool-cases (k == o)) [
  | inl same ↦ here (
      let ek = eq_true k o same in
      let em : m ≡ n = ground (arith, same, e) in
      λ i. record { identifier = sym ek i; next_id = sym em i })
  | inr other ↦ there (wanted-In order o n (ground (arith, other, e)))
]

clock-Acknowledges :
    (order clock : VectorClock) (o : String) (id : ℕ)
    → Ranges order clock
    → 1 ≤ id
    → id < next_id o clock
    → Acknowledges o id (create_my_status_packet order).want
unfolding next_id
clock-Acknowledges order clock o id r low l = elim (Option-cases (lookup o clock)) [
  | inl none_there ↦ absurd (ground (arith, none_there))
  | inr (n, e) ↦ (
    record { identifier = o; next_id = n },
    wanted-In order o n (r.complete o ∙ e),
    refl,
    ground (arith, e),
  )
]

-- The clock is past a message that is stored, and that was not further than the next one.
moved_past :
    (r : RumorMessage) (h h' : GossipHandler) (known : Bool) (p : GossipPacket)
    → Stored p r.origin r.id h h' known
    → r.id ≤ next_id r.origin h.my_status
    → r.id < next_id r.origin h'.my_status
moved_past r h h' known p after next = elim (Bool-cases (ltb r.id (next_id r.origin h.my_status))) [
  | inl known_before ↦
      let l = ltb→lt _ _ known_before in let g = after.grows r.origin in omega arith
  | inr is_next ↦ after.moved (ground (arith, is_next, next))
]

module _ (range : VectorClock → VectorClock) where
  handled :
      (e : ExtendedGossipPacket) (r : RumorMessage) (h : Gossiper)
      → e.packet.rumor ≡ some r
      → process_rumor_message range e h ≡ handle_gossip_message range e r.origin r.id h
  unfolding process_rumor_message
  handled e r h is_rumor =
      ap
        (λ o. elim o as (λ _. Option Effects) [
          | none ↦ none
          | some m ↦ handle_gossip_message range e m.origin m.id h
        ])
        is_rumor

  -- The status that the handler sends back, where it stores the message.
  status_sent :
      (e : ExtendedGossipPacket) (o : String) (id : ℕ) (h : Gossiper) (s : GossipHandler)
      (known : Bool)
      → (o == h.name) ≡ false
      → store_message e.packet o id h.gossip ≡ some (s, known)
      → (f : Effects) × (handle_gossip_message range e o id h ≡ some f)
        × (f.sent
            ≡ (status_packet (create_my_status_packet (range s.my_status)), e.sender_addr) ∷ [])
  unfolding handle_gossip_message take_message
  status_sent e o id h s known other stored = rw other (rw stored (_, refl, refl))

  -- A peer gets a rumor of another origin, of which it has every message before that one, at least;
  -- its handler is consistent and has room for one more message. It sends one status back, and the
  -- peer that has sent the rumor and waits, with no notification left of an earlier wait for it, ends
  -- its wait with a status if that one comes before the timer, whatever else comes before or after.
  pub rumor_answered :
      (e : ExtendedGossipPacket) (r : RumorMessage) (h : Gossiper)
      (before after : List (Address × StatusPacket)) (later : List Arrival) (g : GossipHandler)
      → ((c : VectorClock) → Ranges (range c) c)
      → e.packet.rumor ≡ some r
      → (r.origin == h.name) ≡ false
      → IsConsistent h.gossip
      → length (messages_of r.origin h.gossip) + 1 < 2 ^ 32 - 1
      → 1 ≤ r.id
      → r.id ≤ next_id r.origin h.gossip.my_status
      → is_notified h.address (r.origin, r.id) g ≡ false
      → (f : Effects) × (s : StatusPacket) × (left : GossipHandler) × (process_rumor_message range e
            h
          ≡ some f)
        × (f.sent ≡ (status_packet s, e.sender_addr) ∷ [])
        × (send_rumor_with_timeout e r.origin r.id h.address
              (in_time (before ++ (h.address, s) ∷ after) later)
              g
            ≡ ((e.packet, h.address) ∷ [], some (left, true)))
  rumor_answered e r h before after later g ranges is_rumor other c size low next idle =
      let (h', known, stored, st) = store_message-Stored e.packet r.origin r.id h.gossip c size in
      let (f, done, sent) = status_sent e r.origin r.id h h' known other stored in
      let s = create_my_status_packet (range h'.my_status) in
      let acks =
        clock-Acknowledges (range h'.my_status) h'.my_status r.origin r.id (ranges h'.my_status) low
          (moved_past r h.gossip h' known e.packet st next) in
      let (left, b, ends, iff, _, _, _) =
        send_rumor_with_timeout_lem e r.origin r.id h.address (before ++ (h.address, s) ∷ after)
          later g idle in
      (
        f,
        s,
        left,
        handled e r h is_rumor ∙ done,
        sent,
        ends
            ∙ ap (λ x. ((e.packet, h.address) ∷ [], some (left, x)))
                (iff.1 ((h.address, s), middle-In before after (h.address, s), (refl, acks))),
      )
