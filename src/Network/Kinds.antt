-- ===== src/Network/Kinds.antt =====
-- The kinds of packets, and what a peer that creates a message adds to its storage.
use p2p_dapp.Base.{
  ℕ, ◌+◌, ◌%◌, ◌^◌, String, ◌≡◌, refl, sym, ◌∙◌, ◌⊎◌, inl, inr, false, none, some, arith, string_eq,
  Option-cases, ℤ,
}
use p2p_dapp.Packet.{
  Address, BlockPublish, GossipPacket, ExtendedGossipPacket, RumorMessage, TlcMessage,
}
use p2p_dapp.GossipHandler.{
  GossipHandler, create_rumor_message, store_message, show_rumor, rumor_packet,
}
use p2p_dapp.Dispatch.{receive_packet, get_type_from_gossip, is_set}
use p2p_dapp.Tlc.{Setting, create_tlc_message, tlc_packet, new_tlc}
use p2p_dapp.Network.Storing.{Adds, Adds-same, store_message-Adds}

-- A rumor that is created is stored under the next sequence number.
pub create_rumor_message-Adds :
    (name : String) (address : Address) (text : String) (h h' : GossipHandler)
    (e : ExtendedGossipPacket)
    → create_rumor_message name address text h ≡ some (h', e)
    → Adds
        (rumor_packet (record { origin = name; id = h.seq_id; text = text }))
        name
        h.seq_id
        (record h { seq_id = (h.seq_id + 1) % 2 ^ 32 })
        h'
unfolding create_rumor_message show_rumor
create_rumor_message-Adds name address text h h' e made =
    let r : RumorMessage = record { origin = name; id = h.seq_id; text = text } in
    let h0 = record h { seq_id = (h.seq_id + 1) % 2 ^ 32 } in
    elim (Option-cases (store_message (rumor_packet r) name h.seq_id h0)) [
      | inl stuck ↦ absurd (ground (arith, stuck))
      | inr ((g, loaded), stored) ↦
          Adds-same (store_message-Adds (rumor_packet r) name h.seq_id h0 g loaded stored)
            (ground (arith, stored)) (ground (arith, stored))
    ]

pub create_tlc_message-Adds :
    (s : Setting) (block : BlockPublish) (confirmed : ℤ) (fitness : ℕ) (h h' : GossipHandler)
    (m : TlcMessage)
    → create_tlc_message s block confirmed fitness h ≡ some (h', m)
    → Adds
        (tlc_packet (new_tlc s block confirmed fitness h))
        s.name
        h.seq_id
        (record h { seq_id = (h.seq_id + 1) % 2 ^ 32 })
        h'
unfolding create_tlc_message
create_tlc_message-Adds s block confirmed fitness h h' m made =
    let p = tlc_packet (new_tlc s block confirmed fitness h) in
    let h0 = record h { seq_id = (h.seq_id + 1) % 2 ^ 32 } in
    elim (Option-cases (store_message p s.name h.seq_id h0)) [
      | inl stuck ↦ absurd (ground (arith, stuck))
      | inr ((g, loaded), stored) ↦
          Adds-same (store_message-Adds p s.name h.seq_id h0 g loaded stored)
            (ground (arith, stored)) (ground (arith, stored))
    ]

rumor_type :
    (p : GossipPacket) (r : RumorMessage)
    → p.rumor ≡ some r
    → (get_type_from_gossip p ≡ "simple") ⊎ (get_type_from_gossip p ≡ "rumor")
unfolding get_type_from_gossip is_set
rumor_type p r e = elim (Option-cases p.simple) [
  | inl gone ↦ inr (rw (gone, e) refl)
  | inr (m, f) ↦ inl (rw f refl)
]

pub received :
    (p : GossipPacket) (t : String) → receive_packet false p ≡ some t → get_type_from_gossip p ≡ t
unfolding receive_packet
received p t h = ground arith

not_tlc : (t : String) → t ≡ "tlcMes" → (t ≡ "simple") ⊎ (t ≡ "rumor") → ⊥
not_tlc t e (inl f) =
    let q : ◌≡◌ {A = String} "tlcMes" "simple" = sym e ∙ f in
    ground (arith, string_eq.beq_iff "tlcMes" "simple")
not_tlc t e (inr f) =
    let q : ◌≡◌ {A = String} "tlcMes" "rumor" = sym e ∙ f in
    ground (arith, string_eq.beq_iff "tlcMes" "rumor")

-- A packet that goes to the handler of TLC messages has no rumor.
pub type-tlc : (p : GossipPacket) → receive_packet false p ≡ some "tlcMes" → p.rumor ≡ none
type-tlc p h = elim (Option-cases p.rumor) [
  | inl e ↦ e
  | inr (r, e) ↦
      absurd (not_tlc (get_type_from_gossip p) (received p "tlcMes" h) (rumor_type p r e))
]
