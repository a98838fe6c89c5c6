-- ===== src/Startup.antt =====
-- The start of a peer: main.go with its flags, and the constants, the channels and the goroutines of
-- gossiper/gossiper.go. The addresses are resolved and bound outside of it.
pub mod Served
use Prim.Native.String.{◌++◌ as joined}
use p2p_dapp.Base.{
  ℕ, ◌+◌, String, Bool, false, Option, none, some, List, [], ◌∷◌, ◌++◌, if◌then◌else◌, ◌==◌,
  string_eq, nat_eq, pair_eq, int_eq, list_eq,
}
use p2p_dapp.Packet.{Address, GossipPacket}
use p2p_dapp.Causal.{Modes, set_modes}
use p2p_dapp.Dispatch.{is_set, init_packet_channels}
use p2p_dapp.Gossiper.{Gossiper, new_gossiper, create_peers_data}

-- The command line of the peer.
pub record Flags : Type 0 where
  pub gui_port : String
  pub ui_port : String
  pub gossip_addr : String
  pub name : String
  pub peers : String
  pub peers_number : ℕ
  pub simple : Bool
  pub modes : Modes
  pub anti_entropy : ℕ
  pub rtimer : ℕ
  pub hop_limit : ℕ
  pub stubborn_timeout : ℕ

abbrev pub default_flags : Flags
default_flags = record {
  gui_port = "";
  ui_port = "8080";
  gossip_addr = "127.0.0.1:5000";
  name = "";
  peers = "";
  peers_number = 1;
  simple = false;
  modes = record { hw3ex2 = false; hw3ex3 = false; hw3ex4 = false; ack_all = false };
  anti_entropy = 10;
  rtimer = 0;
  hop_limit = 10;
  stubborn_timeout = 5;
}

pub record AppConstants : Type 0 where
  pub simple_mode : Bool
  pub modes : Modes
  pub hop_limit : ℕ
  pub stubborn_timeout : ℕ
  pub route_rumor_timeout : ℕ
  pub anti_entropy_timeout : ℕ

unfoldable pub set_app_constants : Flags → AppConstants
unfolding set_modes
set_app_constants f = record {
  simple_mode = f.simple;
  modes = set_modes f.modes;
  hop_limit = f.hop_limit;
  stubborn_timeout = f.stubborn_timeout;
  route_rumor_timeout = f.rtimer;
  anti_entropy_timeout = f.anti_entropy;
}

-- The sockets for the peers and for the client.
pub record ConnectionHandler : Type 0 where
  pub client_data : Address
  pub gossiper_data : Address

-- `connect` resolves an address and listens on it; `none` is an error of either, a panic.
unfoldable pub new_connection_handler :
    (String → Option Address) → String → String → Option ConnectionHandler
new_connection_handler connect gossiper_address client_address = elim (connect gossiper_address) [
  | none ↦ none
  | some g ↦ elim (connect client_address) [
    | none ↦ none
    | some c ↦ some (record { client_data = c; gossiper_data = g })
  ]
]

-- The goroutines of `Run` that work on the channels of packets.
pub data Goroutine : Type 0 where
  simple_messages status_messages rumor_messages private_messages data_request data_reply :
      Goroutine
  search_request search_reply tlc_message tlc_ack handle_tlc client_blocks : Goroutine

-- The channel that a goroutine ranges over.
unfoldable pub channel_of : Goroutine → String
channel_of Goroutine.simple_messages = "simple"
channel_of Goroutine.status_messages = "status"
channel_of Goroutine.rumor_messages = "rumor"
channel_of Goroutine.private_messages = "private"
channel_of Goroutine.data_request = "dataRequest"
channel_of Goroutine.data_reply = "dataReply"
channel_of Goroutine.search_request = "searchRequest"
channel_of Goroutine.search_reply = "searchReply"
channel_of Goroutine.tlc_message = "tlcMes"
channel_of Goroutine.tlc_ack = "tlcAck"
channel_of Goroutine.handle_tlc = "tlcCausal"
channel_of Goroutine.client_blocks = "clientBlock"

-- Whether the pointer that a goroutine follows in every packet is set.
unfoldable pub reads : Goroutine → GossipPacket → Bool
unfolding is_set
reads Goroutine.simple_messages p = is_set p.simple
reads Goroutine.status_messages p = is_set p.status
reads Goroutine.rumor_messages p = is_set p.rumor
reads Goroutine.private_messages p = is_set p.private
reads Goroutine.data_request p = is_set p.data_request
reads Goroutine.data_reply p = is_set p.data_reply
reads Goroutine.search_request p = is_set p.search_request
reads Goroutine.search_reply p = is_set p.search_reply
reads Goroutine.tlc_message p = is_set p.tlc_message
reads Goroutine.tlc_ack p = is_set p.ack
reads Goroutine.handle_tlc p = is_set p.tlc_message
reads Goroutine.client_blocks p = is_set p.tlc_message

-- `Run`: the goroutines, in the order in which they are started.
unfoldable pub run : List Goroutine
run =
    Goroutine.simple_messages ∷ Goroutine.status_messages ∷ Goroutine.rumor_messages
    ∷ Goroutine.private_messages ∷ Goroutine.data_request ∷ Goroutine.data_reply
    ∷ Goroutine.search_request ∷ Goroutine.search_reply ∷ Goroutine.tlc_message ∷ Goroutine.tlc_ack
    ∷ Goroutine.handle_tlc ∷ Goroutine.client_blocks ∷ []

-- The program that runs: its constants, channels, sockets, goroutines and peer, and the port of the
-- web server, if there is one.
pub record App : Type 0 where
  pub constants : AppConstants
  pub channels : List String
  pub connections : ConnectionHandler
  pub gossiper : Gossiper
  pub goroutines : List Goroutine
  pub web : Option String

-- `main`, with the flags that were parsed; `none` is a panic. `split` splits a text at its commas.
unfoldable pub main :
    (String → Option Address)
    → (String → List String)
    → (String → Option Address)
    → Flags
    → Option App
unfolding set_app_constants new_connection_handler init_packet_channels create_peers_data run
main connect split resolve f =
    let constants = set_app_constants f in
    elim (new_connection_handler connect f.gossip_addr (joined "127.0.0.1:" f.ui_port)) [
      | none ↦ none
      | some c ↦ some (record {
        constants = constants;
        channels = init_packet_channels constants.simple_mode;
        connections = c;
        gossiper =
            new_gossiper f.name c.gossiper_data (create_peers_data split resolve f.peers)
              f.peers_number constants.hop_limit;
        goroutines = run;
        web = if f.gui_port == "" then none else some f.gui_port;
      })
    ]
