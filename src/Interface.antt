-- ===== src/Interface.antt =====
-- The web server of webserver/webserver.go, the functions of gossiper/uifunctions.go that it calls,
-- and the getters of gossiper/gossiper.go. A channel that goroutines fill is the list of what they
-- send, the oldest first: its buffer holds the first of them, and the senders of the rest wait.
pub mod Polls
pub mod Nodes
use mathlib.Core.Option
use p2p_dapp.Base.{
  ℕ, zero, suc, ◌/◌, min, String, ◌&&◌, Option, none, some, List, [], ◌∷◌, map, if◌then◌else◌, ◌==◌,
  string_eq, nat_eq, pair_eq, length, int_eq, list_eq,
}
use p2p_dapp.Packet.{Bytes, Address, BlockPublish, Message, RumorMessage}
use p2p_dapp.GossipHandler.{GossipHandler}
use p2p_dapp.Routing.{get_origins}
use p2p_dapp.Blockchain.Chain
use p2p_dapp.Search.{add_peer}
use p2p_dapp.Dispatch.{Arguments, convert_input_to_message}
use p2p_dapp.Printing.{encode_to_string}
use p2p_dapp.Gossiper.{Gossiper}

-- `maxChannelSize` and `latestMessagesBuffer`
abbrev pub max_channel_size : ℕ
max_channel_size = 100

abbrev pub latest_messages_buffer : ℕ
latest_messages_buffer = 30

pub record FileGui : Type 0 where
  pub name : String
  pub meta_hash : String
  pub size : ℕ

module _ {ℓ} {A : Type ℓ} where
  -- The receives of a loop, of which each waits for a message; `none` is one that waits for ever.
  unfoldable pub receive : ℕ → List A → Option (List A × List A)
  receive zero channel = some ([], channel)
  receive (suc n) [] = none
  receive (suc n) (m ∷ channel) = Option.map (λ r. (m ∷ r.0, r.1)) (receive n channel)

  -- `len(channel)`, with the size of its buffer.
  unfoldable pub buffered : ℕ → List A → ℕ
  buffered capacity channel = min capacity (length channel)

unfoldable pub get_messages_list :
    List RumorMessage → Option (List RumorMessage × List RumorMessage)
unfolding receive buffered
get_messages_list channel = receive (buffered latest_messages_buffer channel) channel

unfoldable pub get_files_list : List FileGui → Option (List FileGui × List FileGui)
unfolding receive buffered
get_files_list channel = receive (buffered max_channel_size channel) channel

unfoldable pub get_blockchain_list : List String → Option (List String × List String)
unfolding receive buffered
get_blockchain_list channel = receive (buffered max_channel_size channel) channel

unfoldable pub get_array_string_from_addresses : List Address → List String
get_array_string_from_addresses [] = []
get_array_string_from_addresses (p ∷ peers) = p ∷ get_array_string_from_addresses peers

-- A file of the chain as the user interface shows it.
abbrev pub file_of : BlockPublish → FileGui
file_of block = record {
  name = block.transaction.name;
  meta_hash = encode_to_string block.transaction.metafile_hash;
  size = block.transaction.size;
}

-- The peer with the channels that only the user interface reads.
pub record Webserver : Type 0 where
  pub gossiper : Gossiper
  pub files_indexed : List FileGui
  pub files_downloaded : List FileGui
  pub files_searched : List FileGui
  pub blockchain_logs : List String

pub data Handler : Type 0 where
  get_message post_message get_node post_node get_id get_origin get_file : Handler
  get_download get_search get_round get_bc_logs get_blockchain file_server : Handler

-- The routes of `Run`, in their order; what no other route takes goes to the file server.
unfoldable pub route : String → String → Handler
route method path =
    if path == "/message" && method == "GET"
    then Handler.get_message
    else if path == "/message" && method == "POST"
    then Handler.post_message
    else if path == "/node" && method == "GET"
    then Handler.get_node
    else if path == "/node" && method == "POST"
    then Handler.post_node
    else if path == "/id" && method == "GET"
    then Handler.get_id
    else if path == "/origin" && method == "GET"
    then Handler.get_origin
    else if path == "/file" && method == "GET"
    then Handler.get_file
    else if path == "/download" && method == "GET"
    then Handler.get_download
    else if path == "/search" && method == "GET"
    then Handler.get_search
    else if path == "/round" && method == "GET"
    then Handler.get_round
    else if path == "/bcLogs" && method == "GET"
    then Handler.get_bc_logs
    else if path == "/blockchain" && method == "GET"
    then Handler.get_blockchain
    else Handler.file_server

-- What is written as JSON, or the message that goes to the peer as that of a client.
pub data Response : Type 0 where
  messages : List RumorMessage → Response
  files : List FileGui → Response
  texts : List String → Response
  current_round : ℕ → Response
  peer_name : String → Response
  sends : Option Message → Response
  page : Response
  empty : Response

-- The body of the request, and the values of its form.
pub record Request : Type 0 where
  pub body : String
  pub form : String → String

-- The parsed arguments of `postMessageHandler`. `parse_uint` gives the value that `strconv.ParseUint`
-- returns, also with an error.
unfoldable pub arguments_of : (String → ℕ) → (String → String) → Arguments
arguments_of parse_uint form = record {
  msg = form "text";
  dest = form "destination";
  file = form "file";
  request = form "request";
  keywords = form "keywords";
  budget = parse_uint (if form "budget" == "" then "0" else form "budget");
}

-- The addresses that are resolved are the arguments of the peers that are added.
unfoldable pub post_node_handler : (String → Option Address) → String → Webserver → Webserver
unfolding add_peer
post_node_handler resolve body w = elim (resolve body) [
  | none ↦ w
  | some a ↦ record w { gossiper = record (w.gossiper) { peers = add_peer a w.gossiper.peers } }
]

-- A channel is read, and what is left of it kept.
abbrev pub drained {ℓ} :
    {A : Type ℓ}
    → (List A → Webserver)
    → (List A → Response)
    → Option (List A × List A)
    → Option (Webserver × Response)
drained keep respond = Option.map (λ r. (keep r.1, respond r.0))

module _ (resolve : String → Option Address) (decode : String → Option Bytes)
    (parse_uint : String → ℕ) where
  -- A handler on one request; `none` is one that never returns, or a panic. The fuel is that of
  -- `GetBlockchain`.
  unfoldable pub serve : ℕ → Handler → Request → Webserver → Option (Webserver × Response)
  unfolding get_messages_list get_files_list get_blockchain_list get_array_string_from_addresses
      arguments_of post_node_handler
  serve fuel Handler.get_message q w =
      drained
        (λ rest. record w {
          gossiper = record (w.gossiper) {
            gossip = record (w.gossiper.gossip) { latest_rumors = rest };
          };
        })
        messages (get_messages_list w.gossiper.gossip.latest_rumors)
  serve fuel Handler.post_message q w =
      some (w, sends (convert_input_to_message decode (arguments_of parse_uint q.form)))
  serve fuel Handler.get_node q w =
      some (w, texts (get_array_string_from_addresses w.gossiper.peers))
  serve fuel Handler.post_node q w = some (post_node_handler resolve q.body w, empty)
  serve fuel Handler.get_id q w = some (w, peer_name w.gossiper.name)
  serve fuel Handler.get_origin q w = some (w, texts (get_origins w.gossiper.routing))
  serve fuel Handler.get_file q w =
      drained (λ rest. record w { files_indexed = rest }) files (get_files_list w.files_indexed)
  serve fuel Handler.get_download q w =
      drained (λ rest. record w { files_downloaded = rest }) files
        (get_files_list w.files_downloaded)
  serve fuel Handler.get_search q w =
      drained (λ rest. record w { files_searched = rest }) files (get_files_list w.files_searched)
  serve fuel Handler.get_round q w = some (w, current_round w.gossiper.blockchain.my_time)
  serve fuel Handler.get_bc_logs q w =
      drained (λ rest. record w { blockchain_logs = rest }) texts
        (get_blockchain_list w.blockchain_logs)
  serve fuel Handler.get_blockchain q w = elim (Chain.get_blockchain fuel w.gossiper.blockchain) [
    | none ↦ none
    | some none ↦ none
    | some (some blocks) ↦ some (w, files (map file_of blocks))
  ]
  serve fuel Handler.file_server q w = some (w, page)
