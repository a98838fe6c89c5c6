-- ===== src/Tests/Interfaces.antt =====
-- The user interface and the printed lines at concrete inputs.
use mathlib.Core.List.{Perm}
use p2p_dapp.Base.{
  String, ◌≡◌, refl, true, false, Option, none, some, List, [], ◌∷◌, ◌++◌, arith, if◌then◌else◌,
  ◌==◌, string_eq, nat_eq, pair_eq, int_eq, list_eq,
}
use p2p_dapp.Packet.{Bytes, Address, RumorMessage, SearchResult, TlcMessage}
use p2p_dapp.GossipHandler.{new_gossip_handler}
use p2p_dapp.Gossiper.{new_gossiper}
use p2p_dapp.Blockchain.{no_message}
use p2p_dapp.Causal.{Modes}
use p2p_dapp.Interface.{
  latest_messages_buffer, receive, buffered, Webserver, Request, Response, route, serve,
}
use p2p_dapp.Interface.Polls.{
  UiEvent, run_events, poll_times, polls_deliver, overlapping_polls_wait,
}
use p2p_dapp.Interface.Nodes.{post_all, Posted, nodes_posted}
use p2p_dapp.Printing.{
  shown, logged, sprint, encode_to_string, print_round_message, print_search_match_message,
}

abbrev said : RumorMessage
said = record { origin = "a"; id = 1; text = "hi" }

abbrev silent : RumorMessage
silent = record { origin = "a"; id = 2; text = "" }

abbrev events : List UiEvent
events =
    UiEvent.shows said
    ∷ UiEvent.polls
    ∷ UiEvent.shows silent
    ∷ UiEvent.shows said
    ∷ UiEvent.overtakes 0
    ∷ []

polls_deliver_example :
    (got : List RumorMessage) × (run_events (events ++ poll_times 1) new_gossip_handler
      ≡ some (got, record new_gossip_handler { latest_rumors = [] }))
    × Perm got (said ∷ said ∷ [])
polls_deliver_example = polls_deliver events 1 new_gossip_handler (omega arith)

overlapping_polls_wait_example :
    (got : List RumorMessage) × (rest : List RumorMessage) × (receive
        (buffered latest_messages_buffer (said ∷ said ∷ []))
        (said ∷ said ∷ [])
      ≡ some (got, rest))
    × (receive (buffered latest_messages_buffer (said ∷ said ∷ [])) rest ≡ none)
overlapping_polls_wait_example =
    overlapping_polls_wait (said ∷ said ∷ []) (omega arith) (omega arith)

abbrev resolve : String → Option Address
resolve body = if body == "localhost:1" then none else some body

abbrev decode : String → Option Bytes
decode text = none

abbrev server : Webserver
server = record {
  gossiper = new_gossiper "a" "a" ("b" ∷ []) 2 10;
  files_indexed = [];
  files_downloaded = [];
  files_searched = [];
  blockchain_logs = [];
}

abbrev bodies : List String
bodies = "c" ∷ "localhost:1" ∷ "b" ∷ []

abbrev asked : Request
asked = record { body = ""; form = λ key. "" }

nodes_posted_example :
    (w' : Webserver) × (post_all resolve decode (λ text. 0) 1 bodies server ≡ some w')
    × Posted resolve decode (λ text. 0) 1 bodies server w'
    × (serve resolve decode (λ text. 0) 1 (route "GET" "/node") asked w'
        ≡ some (w', Response.texts w'.gossiper.peers))
nodes_posted_example = nodes_posted resolve decode (λ text. 0) 1 bodies server asked

abbrev modes : Modes
modes = record { hw3ex2 = true; hw3ex3 = true; hw3ex4 = false; ack_all = false }

abbrev found : SearchResult
found = record { file_name = "f"; metafile_hash = []; chunk_map = 1 ∷ 2 ∷ []; chunk_count = 2 }

abbrev confirmed : TlcMessage
confirmed = record no_message { origin = "a"; id = 7 }

line_of_round :
    print_round_message modes 1 (("a", confirmed) ∷ ("b", confirmed) ∷ [])
    ≡ logged "ADVANCING TO round 1 BASED ON CONFIRMED MESSAGES origin1 a ID1 7, origin2 b ID2 7"
unfolding print_round_message sprint
line_of_round = refl

line_of_match :
    print_search_match_message "c" found ≡ shown "FOUND match f at c metafile= chunks=1,2"
unfolding print_search_match_message encode_to_string sprint
line_of_match = refl
