-- ===== src/Startup/Served.antt =====
-- The goroutines of `Run` against the channels and the types of packets.
use p2p_dapp.Base.{
  String, ◌≡◌, refl, sym, ap, ◌∙◌, inl, inr, Bool, true, false, not, some, List, [], ◌∷◌, map,
  arith, Bool-cases, All, In, here, there, All-In,
}
use p2p_dapp.Packet.{GossipPacket}
use p2p_dapp.Dispatch.{init_packet_channels, receive_packet}
use p2p_dapp.Dispatch.Gate.{
  contains, flags, first_set, any_set, is_blank, type-first_set, gate, receive_packet-channel,
}
use p2p_dapp.Startup.{Goroutine, channel_of, reads, run}

-- The goroutines in the order of the tests of `getTypeFromGossip`.
abbrev in_order : List Goroutine
in_order =
    Goroutine.simple_messages ∷ Goroutine.rumor_messages ∷ Goroutine.private_messages
    ∷ Goroutine.status_messages ∷ Goroutine.data_request ∷ Goroutine.data_reply
    ∷ Goroutine.search_request ∷ Goroutine.search_reply ∷ Goroutine.tlc_message ∷ Goroutine.tlc_ack
    ∷ []

abbrev flag_of : GossipPacket → Goroutine → Bool × String
flag_of p k = (reads k p, channel_of k)

flags-map : (p : GossipPacket) → flags p ≡ map (flag_of p) in_order
unfolding reads channel_of
flags-map p = refl

-- The first field that is set is the one that the goroutine of its channel reads.
first_reader :
    (p : GossipPacket) (ks : List Goroutine)
    → any_set (map (flag_of p) ks) ≡ true
    → (k : Goroutine) × In k ks
      × (channel_of k ≡ first_set (map (flag_of p) ks))
      × (reads k p ≡ true)
unfolding any_set first_set
first_reader p [] h = absurd (cc)
first_reader p (k ∷ ks) h = elim (Bool-cases (reads k p)) [
  | inl set ↦ (k, here refl, rw set refl, set)
  | inr unset ↦
      let (j, i, e, set) = first_reader p ks (ground (arith, unset)) in
      (j, there i, rw unset e, set)
]

in_order-run : All (λ k. In k run) in_order
unfolding run
in_order-run = (
  here refl,
  (
    there (there (here refl)),
    (
      there (there (there (here refl))),
      (
        there (here refl),
        (
          there (there (there (there (here refl)))),
          (
            there (there (there (there (there (here refl))))),
            (
              there (there (there (there (there (there (here refl)))))),
              (
                there (there (there (there (there (there (there (here refl))))))),
                (
                  there (there (there (there (there (there (there (there (here refl)))))))),
                  (
                    there
                        (there (there (there (there (there (there (there (there (here refl))))))))),
                    tt,
                  ),
                ),
              ),
            ),
          ),
        ),
      ),
    ),
  ),
)

set_somewhere : (p : GossipPacket) → is_blank p ≡ false → any_set (flags p) ≡ true
unfolding is_blank
set_somewhere p h = ground arith

-- A packet with a field set that the gate lets through, in either mode, goes to a channel that
-- exists; `Run` has started a goroutine that ranges over that channel, and the pointer that it
-- follows in the packet is set.
pub packet_served :
    (simple_mode : Bool) (p : GossipPacket) (t : String)
    → receive_packet simple_mode p ≡ some t
    → is_blank p ≡ false
    → (k : Goroutine) × In k run
      × (channel_of k ≡ t)
      × (contains t (init_packet_channels simple_mode) ≡ true)
      × (reads k p ≡ true)
packet_served simple_mode p t h set =
    let (k, i, e, r) =
      first_reader p in_order (ap any_set (sym (flags-map p)) ∙ set_somewhere p set) in
    (
      k,
      All-In (λ j. In j run) in_order-run i,
      e
          ∙ ap first_set (sym (flags-map p))
          ∙ sym (type-first_set p)
          ∙ sym (gate simple_mode p t h).0,
      receive_packet-channel simple_mode p t h ∙ ap not set,
      r,
    )
