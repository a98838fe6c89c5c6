-- ===== src/Client/Total.antt =====
-- Every message that the client can build is served.
use p2p_dapp.Base.{
  String, ◌≡◌, ◌⊎◌, false, Option, none, some, List, string_eq, nat_eq, pair_eq, int_eq, list_eq,
}
use p2p_dapp.Packet.{Bytes, Message, ExtendedGossipPacket}
use p2p_dapp.GossipHandler.{GossipHandler, create_rumor_message}
use p2p_dapp.Dispatch.{Arguments}
use p2p_dapp.FileSearch.{remove_duplicates}
use p2p_dapp.Gossiper.{Gossiper}
use p2p_dapp.Client.{Work, send_private, begin_search, process_client_message}

module _ (split : String → List String) (range : List String → List String)
    (decode : String → Option Bytes) (a : Arguments) (g : Gossiper) where
  -- What the peer does for a type of input: the work has the client's arguments.
  abbrev pub Serves : String → Gossiper → Work → Type 0
  Serves t g' w =
      ((t ≡ "rumor")
        × ((e : ExtendedGossipPacket) × (create_rumor_message g.name g.address a.msg g.gossip
              ≡ some (g'.gossip, e))
            × (w ≡ Work.mongers e)))
      ⊎ ((t ≡ "private")
          × (g' ≡ (send_private a.msg a.dest g).0)
          × (w ≡ (send_private a.msg a.dest g).1))
      ⊎ ((t ≡ "file") × (g' ≡ g) × (w ≡ Work.indexes a.file))
      ⊎ ((t ≡ "request")
          × ((hash : Bytes) × (decode a.request ≡ some hash)
              × (g' ≡ g)
              × (w ≡ Work.downloads a.file a.dest hash)))
      ⊎ ((t ≡ "search")
          × (g' ≡ g)
          × (w ≡ begin_search (remove_duplicates range (split a.keywords)) a.budget g))

  abbrev Served : String → Message → Type 0
  Served t m =
      (g' : Gossiper) × (w : Work) × (process_client_message split range false m g ≡ some (g', w))
      × Serves t g' w

  abbrev ServedIf : String → Option Message → Type 0
  ServedIf t none = Unit {0}
  ServedIf t (some m) = Served t m
