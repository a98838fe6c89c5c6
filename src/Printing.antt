-- ===== src/Printing.antt =====
-- gossiper/printhandler.go: the lines that a peer prints, and those that it also puts into the
-- channel of blockchain logs for the user interface. `hw1` to `hw3` are true. A range over a map
-- takes its entries in the order of the argument.
pub mod Lists
use mathlib.Core.List.{◌++◌ as append}
use mathlib.Core.Option
use Prim.Native.String.{◌++◌, slice, len}
use p2p_dapp.Base.{
  ℕ, zero, suc, ◌+◌, ◌-◌, ◌/◌, ◌%◌, String, Option, none, some, List, [], ◌∷◌, map, ltb,
  if◌then◌else◌, ◌==◌, string_eq, nat_eq, pair_eq, int_eq, list_eq, Dict, minus_one, gt_int,
}
use p2p_dapp.Packet.{
  Bytes, Address, GossipPacket, ExtendedGossipPacket, Message, PeerStatus, SearchResult, TlcMessage,
  SimpleMessage, RumorMessage, PrivateMessage,
}
use p2p_dapp.Blockchain.{TlcMessages, BlockchainHandler}
use p2p_dapp.Blockchain.Chain.{filenames}
use p2p_dapp.Dispatch.{get_type_from_gossip}
use p2p_dapp.Causal.{Modes}

-- What a function prints, and what it puts into the channel of logs.
pub record Printed : Type 0 where
  pub lines : List String
  pub logs : List String

abbrev pub shown : String → Printed
shown line = record { lines = line ∷ []; logs = [] }

abbrev pub logged : String → Printed
logged line = record { lines = line ∷ []; logs = line ∷ [] }

-- A digit of a number in base 16 at most.
unfoldable pub digit : ℕ → String
digit d = slice "0123456789abcdef" d (d + 1)

unfoldable pub digits : ℕ → ℕ → String
unfolding digit
digits zero n = ""
digits (suc fuel) n =
    let more = digits fuel (n / 10) ++ digit (n % 10) in if ltb n 10 then digit n else more

-- `fmt.Sprint` of a number: one round more than the number is enough.
unfoldable pub sprint : ℕ → String
unfolding digits
sprint n = digits (n + 1) n

-- `hex.EncodeToString`
unfoldable pub encode_to_string : Bytes → String
unfolding digit
encode_to_string [] = ""
encode_to_string (b ∷ bs) = digit (b / 16) ++ digit (b % 16) ++ encode_to_string bs

-- `strings.Join`
unfoldable pub join : List String → String → String
join [] separator = ""
join (s ∷ []) separator = s
join (s ∷ t ∷ ss) separator = s ++ separator ++ join (t ∷ ss) separator

-- A loop that puts each item and a separator behind the message.
unfoldable pub add_items : String → List String → String → String
add_items message [] separator = message
add_items message (item ∷ items) separator =
    add_items ((message ++ item) ++ separator) items separator

-- `message[:len(message)-n]`
unfoldable pub without_last : ℕ → String → String
without_last n message = slice message 0 (len message - n)

unfoldable pub print_peers : List Address → Printed
unfolding join
print_peers peers = shown ("PEERS " ++ join peers ",")

abbrev pub status_item : PeerStatus → String
status_item ps = "peer " ++ ps.identifier ++ " nextID " ++ sprint ps.next_id

unfoldable pub print_status_message : Address → List PeerStatus → List Address → List String
unfolding add_items without_last print_peers
print_status_message sender want peers =
    without_last 1 (add_items ("STATUS from " ++ sender ++ " ") (map status_item want) " ")
    ∷ (print_peers peers).lines

unfoldable pub print_search_match_message : String → SearchResult → Printed
unfolding add_items without_last
print_search_match_message origin res = shown (
    without_last 1 (
      add_items
        ("FOUND match "
          ++ res.file_name
          ++ " at "
          ++ origin
          ++ " metafile="
          ++ encode_to_string res.metafile_hash
          ++ " chunks=")
        (map sprint res.chunk_map) ","))

-- The line of `printPeerMessage` for a TLC message, after its first word.
unfoldable pub gossip_line : TlcMessage → String
gossip_line m =
    "GOSSIP origin "
    ++ m.origin
    ++ " ID "
    ++ sprint m.id
    ++ " filename "
    ++ m.tx_block.transaction.name
    ++ " size "
    ++ sprint m.tx_block.transaction.size
    ++ " metahash "
    ++ encode_to_string m.tx_block.transaction.metafile_hash

abbrev pub simple_line : SimpleMessage → String
simple_line m =
    "SIMPLE MESSAGE origin " ++ m.original_name ++ " from " ++ m.relay_peer_addr ++ " contents "
    ++ m.contents

abbrev pub private_line : PrivateMessage → String
private_line m =
    "PRIVATE origin " ++ m.origin ++ " hop-limit " ++ sprint m.hop_limit ++ " contents " ++ m.text

abbrev pub rumor_line : Address → RumorMessage → String
rumor_line sender m =
    "RUMOR origin "
    ++ m.origin
    ++ " from "
    ++ sender
    ++ " ID "
    ++ sprint m.id
    ++ " contents "
    ++ m.text

abbrev pub tlc_line : TlcMessage → Printed
tlc_line m =
    if gt_int m.confirmed minus_one
    then logged ("CONFIRMED " ++ gossip_line m)
    else shown ("UNCONFIRMED " ++ gossip_line m)

-- What is printed of a packet of one type; `none` is a nil pointer.
unfoldable pub packet_lines : String → ExtendedGossipPacket → Option Printed
packet_lines t e =
    if t == "simple"
    then Option.map (λ m. shown (simple_line m)) e.packet.simple
    else if t == "private"
    then Option.map (λ m. shown (private_line m)) e.packet.private
    else if t == "rumor"
    then Option.map (λ m. shown (rumor_line e.sender_addr m)) e.packet.rumor
    else if t == "tlcMes"
    then Option.map tlc_line e.packet.tlc_message
    else some (record { lines = []; logs = [] })

-- The peers are printed after it.
unfoldable pub print_peer_message : ExtendedGossipPacket → List Address → Option Printed
unfolding packet_lines print_peers
print_peer_message e peers =
    Option.map (λ (p : Printed). record p { lines = append p.lines (print_peers peers).lines })
      (packet_lines (get_type_from_gossip e.packet) e)

unfoldable pub print_client_message : Message → List Address → List String
unfolding print_peers
print_client_message m peers =
    (elim m.destination [
      | none ↦ "CLIENT MESSAGE " ++ m.text
      | some d ↦ "CLIENT MESSAGE " ++ m.text ++ " dest " ++ d
    ])
    ∷ (print_peers peers).lines

-- The number 0 stands for the metafile.
unfoldable pub print_download_message : String → String → ℕ → Printed
print_download_message file_name destination seq_num =
    if seq_num == 0
    then shown ("DOWNLOADING metafile of " ++ file_name ++ " from " ++ destination)
    else shown
        ("DOWNLOADING " ++ file_name ++ " chunk " ++ sprint seq_num ++ " from " ++ destination)

-- The entry of one confirmation, with its number.
abbrev pub round_item : ℕ → String × TlcMessage → String
round_item i e = "origin" ++ sprint i ++ " " ++ e.0 ++ " ID" ++ sprint i ++ " " ++ sprint e.1.id

unfoldable pub round_items : ℕ → TlcMessages → List String
round_items i [] = []
round_items i (e ∷ es) = round_item i e ∷ round_items (i + 1) es

-- Printed and logged where the peer works in rounds.
unfoldable pub print_round_message : Modes → ℕ → TlcMessages → Printed
unfolding round_items add_items without_last
print_round_message modes round confirmations =
    let line = without_last 2 (
      add_items ("ADVANCING TO round " ++ sprint round ++ " BASED ON CONFIRMED MESSAGES ")
        (round_items 1 confirmations) ", ") in
    if modes.hw3ex3 then logged line else record { lines = []; logs = [] }

unfoldable pub print_confirm_message : Modes → ℕ → Dict String ℕ → Printed
unfolding add_items without_last
print_confirm_message modes id witnesses =
    if modes.hw3ex2
    then shown (
        without_last 2 (
          add_items ("RE-BROADCAST ID " ++ sprint id ++ " WITNESSES ") (map (λ w. w.0) witnesses)
            ", "))
    else record { lines = []; logs = [] }

-- The names of the chain stand each with a space behind it. The outer `none` is the end of the fuel,
-- `some none` the panic on a hash that is not there.
unfoldable pub print_consensus_message :
    ℕ → TlcMessage → BlockchainHandler → Option (Option Printed)
unfolding add_items
print_consensus_message fuel m b =
    Option.map
      (λ found.
        Option.map
          (λ names. logged (
            add_items
              ("CONSENSUS ON QSC round "
                ++ sprint b.my_time
                ++ " message origin "
                ++ m.origin
                ++ " ID "
                ++ sprint m.id
                ++ " filenames ")
              names " "
            ++ "size "
            ++ sprint m.tx_block.transaction.size
            ++ " metahash "
            ++ encode_to_string m.tx_block.transaction.metafile_hash))
          found)
      (filenames fuel b.top_blockchain_hash [] b.committed_history)
