-- ===== src/Tests/Clocks.antt =====
-- The vector clock and the gossip handler at concrete inputs.
use p2p_dapp.Base.{
  ℕ, String, ◌≡◌, refl, sym, subst, ◌↔◌, Bool, false, none, some, [], ◌∷◌, arith, ◌==◌, string_eq,
  nat_eq, pair_eq, ne_false, lookup, int_eq, Has, Ranges, by_key, list_eq,
}
use p2p_dapp.Packet.{GossipPacket, PeerStatus}
use p2p_dapp.VectorClock.{
  VectorClock, next_id, update_status, create_my_status_packet, get_peer_status_for_peer,
  check_if_i_need_peer_status,
}
use p2p_dapp.VectorClock.Update.{Advanced, update_status-Advanced}
use p2p_dapp.VectorClock.Compare.{in_sync_iff}
use p2p_dapp.GossipHandler.{
  GossipHandler, new_gossip_handler, messages_of, store_message, rumor_packet,
}
use p2p_dapp.GossipHandler.Storage.{Stored, store_message-Stored}
use p2p_dapp.GossipHandler.Least.{IsLeastUnknown, IsConsistent}

abbrev pub hello : GossipPacket
hello = rumor_packet (record { origin = "a"; id = 1; text = "hello" })

-- A clock that knows one message of "a".
abbrev pub one_known : VectorClock
one_known = ("a", 2) ∷ []

-- A handler with that message.
abbrev pub sender : GossipHandler
sender = record {
  seq_id = 1;
  message_storage = ("a", (1, hello) ∷ []) ∷ [];
  my_status = one_known;
  mongering_channels = [];
  latest_rumors = [];
}

abbrev request : PeerStatus
request = record { identifier = "a"; next_id = 1 }

one_known-Ranges : Ranges one_known one_known
unfolding lookup
one_known-Ranges = record { sound = (refl, tt); complete = λ k. refl }

empty-Ranges : Ranges {K = String} {V = ℕ} [] []
empty-Ranges = record { sound = tt; complete = λ k. refl }

pub new-IsConsistent : IsConsistent new_gossip_handler
unfolding lookup next_id
new-IsConsistent = record {
  least =
      λ o. record { low = omega arith; filled = λ i lo hi. absurd (omega arith); unknown = refl };
  started = λ o n e. absurd (cc);
}

sender_least : IsLeastUnknown ((1, hello) ∷ []) 2
unfolding lookup
sender_least = record {
  low = omega arith;
  filled =
      λ i lo hi. let e : 1 ≡ i = omega arith in subst (λ j. Has j ((1, hello) ∷ [])) e (λ gone. cc);
  unknown = refl;
}

other_messages : (o : String) → ("a" == o) ≡ false → messages_of o sender ≡ []
unfolding lookup
other_messages o ne = ground (arith, ne)

other_next : (o : String) → ("a" == o) ≡ false → next_id o one_known ≡ 1
unfolding lookup next_id
other_next o ne = ground (arith, ne)

pub sender-IsConsistent : IsConsistent sender
unfolding lookup next_id
sender-IsConsistent = record {
  least = λ o.
      by_key (λ j. IsLeastUnknown (messages_of j sender) (next_id j one_known)) "a" o sender_least
        (λ ne.
          rw
            (
              other_messages o (ne_false "a" o (λ e. ne (sym e))),
              other_next o (ne_false "a" o (λ e. ne (sym e))),
            )
            (new-IsConsistent.least o));
  started = λ o n. ground arith;
}

update_status-Advanced_example :
    (entries' : VectorClock) × (update_status "a" 1 ((1, hello) ∷ []) [] ≡ some entries')
    × Advanced ((1, hello) ∷ []) "a" (next_id "a" []) [] entries'
unfolding next_id lookup
update_status-Advanced_example =
    update_status-Advanced "a" 1 ((1, hello) ∷ []) [] (omega arith)
      (λ i lo hi. absurd (omega arith)) (omega arith) (omega arith)

in_sync_iff_example :
    ((get_peer_status_for_peer one_known (create_my_status_packet one_known).want ≡ none)
      × (check_if_i_need_peer_status one_known (create_my_status_packet one_known).want ≡ false))
    ↔ ((o : String) → lookup o one_known ≡ lookup o one_known)
in_sync_iff_example = in_sync_iff one_known-Ranges one_known-Ranges

store_message-Stored_example :
    (h' : GossipHandler) × (loaded : Bool) × (store_message hello "a" 1 new_gossip_handler
      ≡ some (h', loaded))
    × Stored hello "a" 1 new_gossip_handler h' loaded
unfolding lookup
store_message-Stored_example =
    store_message-Stored hello "a" 1 new_gossip_handler new-IsConsistent (omega arith)
