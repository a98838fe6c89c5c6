-- ===== src/Dispatch/Gate.antt =====
-- The gate for packets from peers against the channels that there are.
use p2p_dapp.Base.{
  String, ◌≡◌, refl, ◌∙◌, ◌⊎◌, inl, inr, Bool, true, false, not, ◌||◌, some, List, [], ◌∷◌, arith,
  if◌then◌else◌, ◌==◌, string_eq, nat_eq, pair_eq, All, int_eq, list_eq,
}
use p2p_dapp.Packet.{GossipPacket}
use p2p_dapp.Dispatch.{is_set, get_type_from_gossip, init_packet_channels, receive_packet}

pub contains : String → List String → Bool
contains t [] = false
contains t (u ∷ us) = u == t || contains t us

-- The fields of a packet in the order of the tests, with the types.
abbrev pub flags : GossipPacket → List (Bool × String)
flags p =
    (is_set p.simple, "simple")
    ∷ (is_set p.rumor, "rumor")
    ∷ (is_set p.private, "private")
    ∷ (is_set p.status, "status")
    ∷ (is_set p.data_request, "dataRequest")
    ∷ (is_set p.data_reply, "dataReply")
    ∷ (is_set p.search_request, "searchRequest")
    ∷ (is_set p.search_reply, "searchReply")
    ∷ (is_set p.tlc_message, "tlcMes")
    ∷ (is_set p.ack, "tlcAck")
    ∷ []

unfoldable pub first_set : List (Bool × String) → String
first_set [] = "unknown"
first_set ((b, t) ∷ fs) = if b then t else first_set fs

unfoldable pub any_set : List (Bool × String) → Bool
any_set [] = false
any_set ((b, t) ∷ fs) = b || any_set fs

-- The packet has none of its fields set.
unfoldable pub is_blank : GossipPacket → Bool
unfolding any_set
is_blank p = not (any_set (flags p))

first_set_cases :
    (P : String → Type 0) (fs : List (Bool × String))
    → All (λ f. P f.1) fs
    → ((any_set fs ≡ false) × (first_set fs ≡ "unknown")) ⊎ ((any_set fs ≡ true) × P (first_set fs))
unfolding first_set any_set
first_set_cases P [] h = inl (refl, refl)
first_set_cases P ((true, t) ∷ fs) h = inr (refl, h.0)
first_set_cases P ((false, t) ∷ fs) h = first_set_cases P fs h.1

pub type-first_set : (p : GossipPacket) → get_type_from_gossip p ≡ first_set (flags p)
unfolding get_type_from_gossip first_set
type-first_set p = refl

-- The channel of a type is there in the mode of the type.
abbrev HasChannel : String → Type 0
HasChannel t = contains t (init_packet_channels (t == "simple")) ≡ true

types-HasChannel : (p : GossipPacket) → All (λ f. HasChannel f.1) (flags p)
unfolding contains init_packet_channels
types-HasChannel p =
    (refl, (refl, (refl, (refl, (refl, (refl, (refl, (refl, (refl, (refl, tt))))))))))

pub gate :
    (simple_mode : Bool) (p : GossipPacket) (t : String)
    → receive_packet simple_mode p ≡ some t
    → (t ≡ get_type_from_gossip p) × ((t == "simple") ≡ simple_mode)
unfolding receive_packet
gate simple_mode p t h = ground arith

unknown_type :
    (t : String) (simple_mode : Bool)
    → t ≡ "unknown"
    → (t == "simple") ≡ simple_mode
    → (contains t (init_packet_channels simple_mode) ≡ false) × (simple_mode ≡ false)
unfolding contains init_packet_channels
unknown_type t simple_mode e mode = rw (← mode, e) (refl, refl)

blank_and_set : (b : Bool) → b ≡ true → not b ≡ true → ⊥
blank_and_set true e f = cc
blank_and_set false e f = cc

gate_cases :
    (simple_mode : Bool) (p : GossipPacket) (t : String)
    → t ≡ first_set (flags p)
    → (t == "simple") ≡ simple_mode
    → ((any_set (flags p) ≡ false) × (first_set (flags p) ≡ "unknown"))
      ⊎ ((any_set (flags p) ≡ true) × HasChannel (first_set (flags p)))
    → (contains t (init_packet_channels simple_mode) ≡ not (is_blank p))
      × (is_blank p ≡ true → (t ≡ "unknown") × (simple_mode ≡ false))
unfolding is_blank
gate_cases simple_mode p t e mode (inl (blank, u)) =
    let (gone, off) = unknown_type t simple_mode (e ∙ u) mode in (rw blank gone, λ _. (e ∙ u, off))
gate_cases simple_mode p t e mode (inr (set, c)) =
    (rw (set, ← mode, e) c, λ b. absurd (blank_and_set (any_set (flags p)) set b))

pub receive_packet-channel :
    (simple_mode : Bool) (p : GossipPacket) (t : String)
    → receive_packet simple_mode p ≡ some t
    → contains t (init_packet_channels simple_mode) ≡ not (is_blank p)
receive_packet-channel simple_mode p t h =
    let (e, mode) = gate simple_mode p t h in
    (gate_cases simple_mode p t (e ∙ type-first_set p) mode
      (first_set_cases HasChannel (flags p) (types-HasChannel p))).0
