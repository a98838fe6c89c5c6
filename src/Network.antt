-- ===== src/Network.antt =====
-- Any number of peers that gossip: the state of all of them and the steps that they can take, in any
-- order. A packet that was sent stays on the wire: it can arrive late, more than once or never.
-- Every handler of gossiper/mainhandler.go runs on a packet as a whole, and every creation of a message
-- as a whole.
pub mod Storing
pub mod Authentic
pub mod Fairness
pub mod Kinds
pub mod Agreement
pub mod Fair
use mathlib.Core.Option
use p2p_dapp.Base.{
  ℕ, ◌+◌, String, ◌≡◌, false, Option, none, some, List, [], ◌∷◌, ◌++◌, if◌then◌else◌, ◌==◌,
  string_eq, nat_eq, pair_eq, lookup, ℤ, int_eq, list_eq, In,
}
use p2p_dapp.Packet.{Address, BlockPublish, GossipPacket, ExtendedGossipPacket, TlcMessage}
use p2p_dapp.VectorClock.{VectorClock}
use p2p_dapp.GossipHandler.{GossipHandler, new_gossip_handler, messages_of, create_rumor_message}
use p2p_dapp.Dispatch.{receive_packet}
use p2p_dapp.Gossiper.{Gossiper, Sent}
use p2p_dapp.Mongering.{
  Effects, process_rumor_message, process_tlc_message, handle_peer_status, anti_entropy,
}
use p2p_dapp.Tlc.{Setting, create_tlc_message}

-- The peer at each address, and the packets that were sent, each with its sender and its receiver.
pub record Network : Type 0 where
  pub nodes : Address → Gossiper
  pub wire : List (GossipPacket × Address × Address)

unfoldable pub posted : Address → Sent → List (GossipPacket × Address × Address)
posted from [] = []
posted from ((p, to) ∷ sent) = (p, from, to) ∷ posted from sent

-- One peer has taken a step and sent packets.
abbrev pub after : Address → Gossiper → Sent → Network → Network
after a g sent n = record {
  nodes = λ b. if a == b then g else n.nodes b;
  wire = posted a sent ++ n.wire;
}

module _ (range : VectorClock → VectorClock) where
  -- What the peer does with a packet of a type that is gossiped; the other handlers neither store a
  -- message nor send one on that is gossiped.
  unfoldable pub process_gossip : String → ExtendedGossipPacket → Gossiper → Option Effects
  process_gossip t e g =
      if t == "rumor"
      then process_rumor_message range e g
      else if t == "tlcMes"
      then process_tlc_message range e g
      else if t == "status"
      then handle_peer_status range e g
      else none

  pub data Step (n : Network) : Network → Type 0 where
    -- A packet that was sent arrives, and the gate lets it through.
    arrives :
        (p : GossipPacket) (from to : Address) (t : String) (effects : Effects)
        → In (p, from, to) n.wire
        → receive_packet false p ≡ some t
        → process_gossip t (record { packet = p; sender_addr = from }) (n.nodes to) ≡ some effects
        → Step n (after to effects.peer effects.sent n)
    -- A peer creates a rumor. No other goroutine of it creates a message at the same time.
    creates :
        (a : Address) (text : String) (h : GossipHandler) (e : ExtendedGossipPacket)
        → create_rumor_message (n.nodes a).name (n.nodes a).address text (n.nodes a).gossip
          ≡ some (h, e)
        → Step n (after a (record (n.nodes a) { gossip = h }) [] n)
    -- A peer creates a TLC message, again with no other goroutine at it.
    publishes :
        (a : Address) (s : Setting) (block : BlockPublish) (confirmed : ℤ) (fitness : ℕ)
        (h : GossipHandler) (m : TlcMessage)
        → s.name ≡ (n.nodes a).name
        → create_tlc_message s block confirmed fitness (n.nodes a).gossip ≡ some (h, m)
        → Step n (after a (record (n.nodes a) { gossip = h }) [] n)
    -- A peer sends a message that it has stored: it rumor mongers it, or broadcasts it.
    mongers :
        (a to : Address) (o : String) (i : ℕ) (p : GossipPacket)
        → lookup i (messages_of o (n.nodes a).gossip) ≡ some p
        → Step n (after a (n.nodes a) ((p, to) ∷ []) n)
    -- A peer sends its status.
    anti_entropies :
        (a : Address) (i : ℕ) → Step n (after a (n.nodes a) (anti_entropy range i (n.nodes a)) n)

  pub data Reach (n : Network) : Network → Type 0 where
    start : Reach n n
    later : {m k : Network} → Reach n m → Step m k → Reach n k

  unfoldable pub made_by : Address → {n m : Network} → Step n m → ℕ
  made_by b (Step.arrives p from to t effects w r h) = 0
  made_by b (Step.creates a text h e made) = if a == b then 1 else 0
  made_by b (Step.publishes a s block confirmed fitness h m name made) = if a == b then 1 else 0
  made_by b (Step.mongers a to o i p h) = 0
  made_by b (Step.anti_entropies a i) = 0

  -- The number of messages that a peer has created.
  unfoldable pub created_by : Address → {n m : Network} → Reach n m → ℕ
  unfolding made_by
  created_by b Reach.start = 0
  created_by b (Reach.later r step) = created_by b r + made_by b step

-- Peers that have just started, with their names.
pub record IsStart (names : Address → String) (n : Network) : Type 0 where
  pub fresh : (a : Address) → (n.nodes a).gossip ≡ new_gossip_handler
  pub named : (a : Address) → (n.nodes a).name ≡ names a
  pub silent : n.wire ≡ []
