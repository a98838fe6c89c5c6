-- ===== src/Dispatch.antt =====
-- How packets and client messages find their handler: gossiper/utils.go (the types),
-- gossiper/connectionhandler.go (the gate of `receivePacketsFromPeers`), gossiper/gossiper.go (the
-- channels) and client/clientsender/client.go (the messages of the client).
pub mod Gate
pub mod Client
use p2p_dapp.Base.{
  ℕ, String, Bool, true, false, not, ◌&&◌, ◌||◌, Option, none, some, List, [], ◌∷◌, if◌then◌else◌,
  ◌==◌, string_eq, nat_eq, pair_eq, int_eq, list_eq,
}
use p2p_dapp.Packet.{Bytes, GossipPacket, Message}

unfoldable pub is_set {ℓ} : {A : Type ℓ} → Option A → Bool
is_set none = false
is_set (some a) = true

unfoldable pub get_type_from_gossip : GossipPacket → String
unfolding is_set
get_type_from_gossip p =
    if is_set p.simple
    then "simple"
    else if is_set p.rumor
    then "rumor"
    else if is_set p.private
    then "private"
    else if is_set p.status
    then "status"
    else if is_set p.data_request
    then "dataRequest"
    else if is_set p.data_reply
    then "dataReply"
    else if is_set p.search_request
    then "searchRequest"
    else if is_set p.search_reply
    then "searchReply"
    else if is_set p.tlc_message
    then "tlcMes"
    else if is_set p.ack
    then "tlcAck"
    else "unknown"

abbrev pub mode_types : List String
mode_types =
    "simple" ∷ "rumor" ∷ "status" ∷ "private" ∷ "dataRequest" ∷ "dataReply" ∷ "searchRequest"
    ∷ "searchReply" ∷ "tlcMes" ∷ "tlcAck" ∷ "clientBlock" ∷ "tlcCausal" ∷ []

-- The types that get a channel, of those in the list.
pub channels_among : Bool → List String → List String
channels_among simple_mode [] = []
channels_among simple_mode (t ∷ ts) =
    let rest = channels_among simple_mode ts in
    if (not (t == "simple") && not simple_mode) || (t == "simple" && simple_mode)
    then t ∷ rest
    else rest

unfoldable pub init_packet_channels : Bool → List String
unfolding channels_among
init_packet_channels simple_mode = channels_among simple_mode mode_types

-- The channel that a packet from a peer is put into; `none` where it is refused with a message.
-- The first test is spelled as in the source.
unfoldable pub receive_packet : Bool → GossipPacket → Option String
receive_packet simple_mode p =
    let mode_type = get_type_from_gossip p in
    if not (mode_type == "unknwon")
    then (if (mode_type == "simple" && simple_mode)
          || (not (mode_type == "simple") && not simple_mode)
        then some mode_type
        else none)
    else none

unfoldable pub get_type_from_message : Bool → Message → String
unfolding is_set
get_type_from_message simple_mode m =
    let dest = is_set m.destination in
    let text = not (m.text == "") in
    let file = is_set m.file in
    let request = is_set m.request in
    let keywords = is_set m.keywords in
    if simple_mode
    then "simple"
    else if dest && text && not file && not request && not keywords
    then "private"
    else if not text && file && request && not keywords
    then "dataRequest"
    else if not dest && not text && file && not request && not keywords
    then "file"
    else if not dest && not text && not file && not request && keywords
    then "searchRequest"
    else if text && not dest && not file && not request && not keywords
    then "rumor"
    else "unknown"

-- The arguments of the client's command line.
pub record Arguments : Type 0 where
  pub msg : String
  pub dest : String
  pub file : String
  pub request : String
  pub keywords : String
  pub budget : ℕ

unfoldable pub get_input_type : Arguments → String
get_input_type a =
    let msg = not (a.msg == "") in
    let dest = not (a.dest == "") in
    let file = not (a.file == "") in
    let request = not (a.request == "") in
    let keywords = not (a.keywords == "") in
    if msg && not dest && not file && not request && not keywords
    then "rumor"
    else if msg && dest && not file && not request && not keywords
    then "private"
    else if not msg && not dest && file && not request && not keywords
    then "file"
    else if not msg && file && request && not keywords
    then "request"
    else if not msg && not dest && not file && not request && keywords
    then "search"
    else "unknown"

abbrev pub empty_message : Message
empty_message = record {
  text = "";
  destination = none;
  file = none;
  request = none;
  keywords = none;
  budget = none;
}

-- `hex.DecodeString` is an argument, `none` where it fails. The first argument is the type.
unfoldable pub message_of_type : String → (String → Option Bytes) → Arguments → Option Message
message_of_type t decode a =
    if t == "rumor"
    then some (record empty_message { text = a.msg })
    else if t == "private"
    then some (record empty_message { text = a.msg; destination = some a.dest })
    else if t == "file"
    then some (record empty_message { file = some a.file })
    else if t == "request"
    then (elim (decode a.request) [
      | none ↦ none
      | some hash ↦ some (record empty_message {
        request = some hash;
        file = some a.file;
        destination = some a.dest;
      })
    ])
    else if t == "search"
    then some (record empty_message { keywords = some a.keywords; budget = some a.budget })
    else none

unfoldable pub convert_input_to_message : (String → Option Bytes) → Arguments → Option Message
unfolding message_of_type
convert_input_to_message decode a = message_of_type (get_input_type a) decode a
