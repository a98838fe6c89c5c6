-- ===== src/Tlc.antt =====
-- gossiper/tlc.go and `createTLCMessage` of gossiper/blockchainhandler.go: a message is gossiped until
-- a majority has confirmed it. The loop of `gossipWithConfirmation` is a step on one event, of which
-- one is the work of the handler of TLC messages beside it; the rumor mongering of the message itself has no part in the state.
pub mod Frame
pub mod Majority
pub mod Quorum
pub mod Overlap
pub mod Confirmations
use mathlib.Core.Option
use p2p_dapp.Base.{
  ℕ, ◌+◌, ◌/◌, ◌%◌, ◌^◌, String, Bool, true, false, not, ◌&&◌, Option, none, some, List, [], ◌∷◌,
  map, ltb, if◌then◌else◌, ◌==◌, string_eq, nat_eq, pair_eq, Dict, lookup, insert, length, ℤ, pos,
  int_eq, list_eq,
}
use p2p_dapp.Packet.{BlockPublish, GossipPacket, PrivateMessage, TlcMessage, empty_packet}
use p2p_dapp.VectorClock.{VectorClock, create_my_status_packet}
use p2p_dapp.GossipHandler.{add_seq_id, GossipHandler, store_message}
use p2p_dapp.Causal.{Handling, handle_tlc_message, panics}
use p2p_dapp.Blockchain.{TlcMessages, BlockchainHandler, save_confirmation}

-- What the peer knows of itself: its name, the number of peers, the order in which its clock is
-- ranged over, and `waitConfirmations`.
pub record Setting : Type 0 where
  pub name : String
  pub size : ℕ
  pub range : VectorClock → VectorClock
  pub wait_confirmations : Bool

-- What the loop reads and writes. `sent` are the confirmed messages that were sent, the latest
-- first, with those who confirmed.
pub record Gossiping : Type 0 where
  pub blockchain : BlockchainHandler
  pub gossip : GossipHandler
  pub witnesses : Dict String ℕ
  pub delivered : Bool
  pub sent : List (TlcMessage × Dict String ℕ)

pub data Event : Type 0 where
  ack : PrivateMessage → Event
  confirmation : Event
  timer : Event
  -- The handler of TLC messages has run on a message, while the loop waits.
  handled : Handling → TlcMessage → Event

abbrev pub tlc_packet : TlcMessage → GossipPacket
tlc_packet m = record empty_packet { tlc_message = some m }

-- The message with the next sequence number.
abbrev pub new_tlc : Setting → BlockPublish → ℤ → ℕ → GossipHandler → TlcMessage
new_tlc p block confirmed fitness g = record {
  origin = p.name;
  id = g.seq_id;
  confirmed = confirmed;
  tx_block = block;
  vector_clock = some (create_my_status_packet (p.range g.my_status));
  fitness = fitness;
}

-- `createTLCMessage` in a goroutine that no other one interrupts: the sequence number is loaded, then
-- raised, and the message is stored as any other one.
unfoldable pub create_tlc_message :
    Setting → BlockPublish → ℤ → ℕ → GossipHandler → Option (GossipHandler × TlcMessage)
create_tlc_message p block confirmed fitness g =
    let m = new_tlc p block confirmed fitness g in
    Option.map (λ r. (r.0, m)) (store_message (tlc_packet m) p.name g.seq_id (add_seq_id g))

-- `sendGossipWithConfirmation`, after the message is created.
unfoldable pub send_gossip_with_confirmation :
    GossipHandler × TlcMessage → Dict String ℕ → Gossiping → Gossiping
send_gossip_with_confirmation (g, m) witnesses s = record s {
  gossip = g;
  sent = (m, witnesses) ∷ s.sent;
}

-- `getIDForConfirmations`
unfoldable pub get_id_for_confirmations : TlcMessages → Dict String ℕ
get_id_for_confirmations messages = map (λ e. (e.0, e.1.id)) messages

-- The confirmed form of a message.
unfoldable pub confirm : Setting → TlcMessage → GossipHandler → Option (GossipHandler × TlcMessage)
unfolding create_tlc_message
confirm p tlc g = create_tlc_message p tlc.tx_block (pos tlc.id) tlc.fitness g

-- The round is over.
abbrev pub next_round : Gossiping → Gossiping
next_round s = record s {
  blockchain = record (s.blockchain) { my_time = (s.blockchain.my_time + 1) % 2 ^ 32 };
}

-- `checkForConfirmationsMajority`: the state, and whether the round is over.
unfoldable pub check_for_confirmations_majority :
    Setting → TlcMessage → Gossiping → Option (Gossiping × Bool)
unfolding confirm send_gossip_with_confirmation get_id_for_confirmations
check_for_confirmations_majority p tlc s =
    elim (lookup s.blockchain.my_time s.blockchain.confirmations) [
      | none ↦ some (s, false)
      | some confirmations ↦
          if ltb (p.size / 2) (length confirmations)
          then (if s.delivered
              then some (next_round s, true)
              else Option.map
                  (λ r. (
                    send_gossip_with_confirmation r (get_id_for_confirmations confirmations)
                        (next_round s),
                    true,
                  ))
                  (confirm p tlc s.gossip))
          else some (s, false)
    ]

-- A majority has acknowledged the message.
unfoldable pub deliver : Setting → GossipHandler × TlcMessage → Gossiping → Gossiping × Bool
unfolding send_gossip_with_confirmation
deliver p r s =
    let s' = record (send_gossip_with_confirmation r s.witnesses s) { delivered = true } in
    if p.wait_confirmations
    then (
      record s' { blockchain = save_confirmation s.blockchain.my_time r.1.origin r.1 s.blockchain },
      false,
    )
    else (s', true)

-- An acknowledgement.
unfoldable pub on_ack :
    Setting → TlcMessage → PrivateMessage → Gossiping → Option (Gossiping × Bool)
unfolding confirm deliver
on_ack p tlc a s =
    if a.id == tlc.id && not s.delivered
    then (let s' = record s { witnesses = insert a.origin 0 s.witnesses } in
        if ltb (p.size / 2) (length s'.witnesses)
        then Option.map (λ r. deliver p r s') (confirm p tlc s.gossip)
        else some (s', false))
    else some (s, false)

-- The blockchain handler after `handleTLCMessage` has run without a panic, or while it walks for ever.
unfoldable pub after_handling : Handling → TlcMessage → BlockchainHandler → BlockchainHandler
after_handling h m b = elim (handle_tlc_message h m b) [ none ↦ b | some r ↦ r.blockchain ]

-- One round of the loop: the state, and whether the function returns. `none` is a panic of the handler
-- beside it, or the endless update of the clock.
unfoldable pub on_event : Setting → TlcMessage → Event → Gossiping → Option (Gossiping × Bool)
unfolding on_ack check_for_confirmations_majority after_handling panics
on_event p tlc (ack a) s = on_ack p tlc a s
on_event p tlc confirmation s =
    if p.wait_confirmations then check_for_confirmations_majority p tlc s else some (s, false)
on_event p tlc timer s = some (s, false)
on_event p tlc (handled h m) s =
    if panics h m s.blockchain
    then none
    else some (record s { blockchain = after_handling h m s.blockchain }, false)

-- The rest of the run after an event.
unfoldable pub continue :
    Option (Gossiping × Bool) → (Gossiping → Option (Gossiping × Bool)) → Option (Gossiping × Bool)
continue none rest = none
continue (some (s, true)) rest = some (s, true)
continue (some (s, false)) rest = rest s

-- The loop over the events that come, until it returns.
unfoldable pub loop : Setting → TlcMessage → List Event → Gossiping → Option (Gossiping × Bool)
unfolding on_event continue
loop p tlc [] s = some (s, false)
loop p tlc (e ∷ es) s = continue (on_event p tlc e s) (loop p tlc es)

-- `gossipWithConfirmation` over the events that come. The witnesses and the flag are local,
-- and `sent` begins anew.
unfoldable pub gossip_with_confirmation :
    ℕ → Setting → TlcMessage → List Event → Gossiping → Option (Gossiping × Bool)
unfolding loop check_for_confirmations_majority
gossip_with_confirmation stubborn_timeout p tlc events s =
    let start = record s { witnesses = (p.name, 0) ∷ []; delivered = false; sent = [] } in
    let run : Gossiping → Option (Gossiping × Bool) =
      λ t. if ltb 0 stubborn_timeout then loop p tlc events t else some (t, true) in
    if p.wait_confirmations
    then continue (check_for_confirmations_majority p tlc start) run
    else run start
