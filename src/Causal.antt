-- ===== src/Causal.antt =====
-- `handleTLCMessage` and `checkForCausalProperty` of gossiper/blockchainhandler.go, and the flags of
-- gossiper/gossiper.go that they read.
pub mod Frame
pub mod Rounds
pub mod Again
use mathlib.Core.Option
use p2p_dapp.Base.{
  [], ℕ, ◌%◌, ◌^◌, String, Bool, true, false, not, ◌&&◌, ◌||◌, Option, none, some, map, leb,
  if◌then◌else◌, ◌==◌, string_eq, nat_eq, pair_eq, ℤ, minus_one, gt_int, int_eq, list_eq,
}
use p2p_dapp.Packet.{PrivateMessage, StatusPacket, TlcMessage}
use p2p_dapp.VectorClock.{VectorClock, check_if_i_need_peer_status}
use p2p_dapp.Blockchain.{
  BlockchainHandler, get_message_original_round, save_confirmation, save_message_seen,
  note_confirmed,
}
use p2p_dapp.Blockchain.Chain.{History, is_tx_block_valid}

pub record Modes : Type 0 where
  pub hw3ex2 : Bool
  pub hw3ex3 : Bool
  pub hw3ex4 : Bool
  pub ack_all : Bool

-- The modes that `SetAppConstants` sets.
unfoldable pub set_modes : Modes → Modes
set_modes m =
    let qsc = if m.hw3ex4 then record m { hw3ex3 = true } else m in
    if qsc.hw3ex3 then record qsc { hw3ex3 = true } else qsc

-- What the handler reads besides the blockchain handler: the peer's name, hop limit and modes, its
-- clock, the committed blocks in the order of a range, and the fuel for the walk over them.
pub record Handling : Type 0 where
  pub name : String
  pub hop_limit : ℕ
  pub modes : Modes
  pub clock : VectorClock
  pub order : History
  pub fuel : ℕ

-- What the handler leaves: the blockchain handler, the acknowledgement that is forwarded, whether
-- the own status is sent to the sender, whether the message is taken as a confirmation, and whether
-- it is put back in the queue.
pub record Handled : Type 0 where
  pub blockchain : BlockchainHandler
  pub ack : Option PrivateMessage
  pub sends_status : Bool
  pub confirms : Bool
  pub again : Bool

-- The vector clock that a message carries. A nil pointer is not read: see `reads_nil`.
abbrev pub clock_of : TlcMessage → StatusPacket
clock_of m = elim m.vector_clock [ none ↦ record { want = [] } | some s ↦ s ]

-- `checkForCausalProperty` reads the vector clock, and it is nil: a panic.
unfoldable pub reads_nil : Handling → TlcMessage → Bool
reads_nil p m =
    (p.modes.hw3ex3 || p.modes.hw3ex4)
    && gt_int m.confirmed minus_one
    && (elim m.vector_clock [ none ↦ true | some s ↦ false ])

-- `checkForCausalProperty`: the state, the result, and whether the own status is sent.
unfoldable pub check_for_causal_property :
    String → StatusPacket → ℤ → VectorClock → BlockchainHandler → BlockchainHandler × Bool × Bool
check_for_causal_property origin received confirmed clock b =
    if gt_int confirmed minus_one
    then (if check_if_i_need_peer_status clock received.want
        then (b, false, true)
        else (note_confirmed origin confirmed b, true, false))
    else (b, false, false)

-- The acknowledgement of a message, which goes back to its origin.
abbrev pub ack_of : Handling → TlcMessage → PrivateMessage
ack_of p m = record {
  origin = p.name;
  id = m.id;
  text = "";
  destination = m.origin;
  hop_limit = p.hop_limit % 2 ^ 32;
}

-- The second half of `handleTLCMessage`: confirmations.
unfoldable pub take_confirmation :
    Handling → ℕ → TlcMessage → Option PrivateMessage → BlockchainHandler → Handled
unfolding check_for_causal_property
take_confirmation p round m ack b =
    let (b', holds, asks) = check_for_causal_property m.origin (clock_of m) m.confirmed p.clock b in
    if (p.modes.hw3ex3 || p.modes.hw3ex4) && not (m.confirmed == minus_one)
    then record {
      blockchain = if holds then save_confirmation round m.origin m b' else b';
      ack = ack;
      sends_status = asks;
      confirms = holds;
      again = not holds;
    }
    else record { blockchain = b; ack = ack; sends_status = false; confirms = false; again = false }

-- Whether the message is one to acknowledge, where its block is valid.
unfoldable pub acknowledged : Modes → ℕ → TlcMessage → BlockchainHandler → Bool
acknowledged modes round m b =
    (not modes.hw3ex3 || modes.ack_all || leb b.my_time round) && not (gt_int m.confirmed minus_one)

-- Whether the block is valid, which only qsc asks for; `none` is an endless walk.
abbrev pub validity : Handling → TlcMessage → BlockchainHandler → Option Bool
validity p m b = if p.modes.hw3ex4 then is_tx_block_valid p.fuel p.order m.tx_block b else some true

-- The message makes the handler panic.
unfoldable pub panics : Handling → TlcMessage → BlockchainHandler → Bool
unfolding reads_nil
panics p m b = elim (validity p m b) [ none ↦ false | some valid ↦ reads_nil p m ]

-- The validity, where the handler does not panic.
unfoldable pub unless_panics : Handling → TlcMessage → BlockchainHandler → Option Bool
unfolding panics
unless_panics p m b = if panics p m b then none else validity p m b

-- `handleTLCMessage` on one message; `none` is an endless walk or a panic.
unfoldable pub handle_tlc_message : Handling → TlcMessage → BlockchainHandler → Option Handled
unfolding take_confirmation acknowledged unless_panics
handle_tlc_message p m b =
    let round = get_message_original_round m.origin m.id m.confirmed b in
    Option.map
      (λ valid.
        let acks = valid && acknowledged p.modes round m b in
        take_confirmation p round m (if acks then some (ack_of p m) else none)
          (if acks && p.modes.hw3ex4 then save_message_seen round m.origin m b else b))
      (unless_panics p m b)
