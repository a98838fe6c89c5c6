-- ===== src/Gossiper.antt =====
-- The state of one peer, `Gossiper` of gossiper/gossiper.go, and what its handlers send.
use p2p_dapp.Base.{
  ℕ, String, Bool, Option, none, some, List, [], ◌∷◌, if◌then◌else◌, ◌==◌, string_eq, nat_eq,
  pair_eq, Dict, int_eq, list_eq,
}
use p2p_dapp.Packet.{Bytes, Address, GossipPacket}
use p2p_dapp.GossipHandler.{GossipHandler, new_gossip_handler}
use p2p_dapp.Routing.{RoutingHandler, new_routing_handler}
use p2p_dapp.Files.{FileHandler, new_file_handler}
use p2p_dapp.Blockchain.{BlockchainHandler, new_blockchain_handler}

-- `address` is the address of the socket for peers, `size` the number of peers in the network.
-- `hop_limit` is the constant of the command line. `hash_channels` has the hash and the peer of
-- every download that has begun, for which there is a channel.
pub record Gossiper : Type 0 where
  pub name : String
  pub address : Address
  pub peers : List Address
  pub size : ℕ
  pub hop_limit : ℕ
  pub gossip : GossipHandler
  pub routing : RoutingHandler
  pub files : FileHandler
  pub blockchain : BlockchainHandler
  pub hash_channels : Dict (Bytes × String) Bool

-- `NewGossiper`, with the peers of the command line resolved.
abbrev pub new_gossiper : String → Address → List Address → ℕ → ℕ → Gossiper
new_gossiper name address peers size hop_limit = record {
  name = name;
  address = address;
  peers = peers;
  size = size;
  hop_limit = hop_limit;
  gossip = new_gossip_handler;
  routing = new_routing_handler;
  files = new_file_handler;
  blockchain = new_blockchain_handler;
  hash_channels = [];
}

-- The packets that a handler sends, each with its address.
abbrev pub Sent : Type 0
Sent = List (GossipPacket × Address)

unfoldable pub sent_to : GossipPacket × Option Address → Sent
sent_to (p, none) = []
sent_to (p, some a) = (p, a) ∷ []

abbrev pub resolve_all : (String → Option Address) → List String → List Address
resolve_all resolve [] = []
resolve_all resolve (peer ∷ peers) =
    let rest = resolve_all resolve peers in elim (resolve peer) [ none ↦ rest | some a ↦ a ∷ rest ]

-- The peers of `createPeersData`, with those whose address cannot be resolved left out.
unfoldable pub create_peers_data :
    (String → List String) → (String → Option Address) → String → List Address
create_peers_data split resolve peers =
    if peers == "" then [] else resolve_all resolve (split peers)
