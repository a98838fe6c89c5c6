-- ===== src/Tests/Clients.antt =====
-- A rumor of the client, from the arguments to the packet that is mongered.

use p2p_dapp.Base.{String, Option, none, List, [], ◌∷◌, string_eq, nat_eq, pair_eq, int_eq, list_eq}
use p2p_dapp.Packet.{Bytes}
use p2p_dapp.Dispatch.{Arguments}
use p2p_dapp.Gossiper.{Gossiper, new_gossiper}

abbrev comma : String → List String
comma text = text ∷ []

abbrev ordered : List String → List String
ordered xs = xs

abbrev undecoded : String → Option Bytes
undecoded text = none

abbrev typed : Arguments
typed = record { msg = "hi"; dest = ""; file = ""; request = ""; keywords = ""; budget = 0 }

abbrev peer : Gossiper
peer = new_gossiper "a" "a:1" [] 3 10
