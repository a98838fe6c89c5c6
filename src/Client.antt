-- ===== src/Client.antt =====
-- `processClientMessages` of gossiper/mainhandler.go: what a peer does with a message of its client.
pub mod Total
use mathlib.Core.Option
use p2p_dapp.Base.{
  ℕ, ◌+◌, ◌%◌, ◌^◌, String, Bool, Option, none, some, List, [], ◌∷◌, ◌++◌, map, if◌then◌else◌, ◌==◌,
  string_eq, nat_eq, pair_eq, int_eq, list_eq,
}
use p2p_dapp.Packet.{
  Bytes, Message, ExtendedGossipPacket, PrivateMessage, RumorMessage, SearchRequest, SimpleMessage,
  empty_packet,
}
use p2p_dapp.GossipHandler.{create_rumor_message}
use p2p_dapp.Routing.{HopField, forward_private_message}
use p2p_dapp.Dispatch.{get_type_from_message}
use p2p_dapp.FileSearch.{remove_duplicates}
use p2p_dapp.Mongering.{broadcast_to_peers}
use p2p_dapp.Gossiper.{Gossiper, Sent, sent_to}

-- `defaultBudget`
abbrev pub default_budget : ℕ
default_budget = 2

-- What the handler begins: packets are sent, a rumor is mongered, a file is indexed or downloaded, a
-- search is made, with whether its budget is doubled, or nothing.
pub data Work : Type 0 where
  sends : Sent → Work
  mongers : ExtendedGossipPacket → Work
  indexes : String → Work
  downloads : String → String → Bytes → Work
  searches : SearchRequest → Bool → Work
  nothing : Work

-- The private message to a peer, which is shown and forwarded.
unfoldable pub send_private : String → String → Gossiper → Gossiper × Work
unfolding sent_to
send_private text destination g =
    let m : PrivateMessage = record {
      origin = g.name;
      id = 0;
      text = text;
      destination = destination;
      hop_limit = g.hop_limit % 2 ^ 32;
    } in
    let shown : RumorMessage = record { origin = g.name; id = 0; text = text } in
    (
      record g {
        gossip = record (g.gossip) { latest_rumors = g.gossip.latest_rumors ++ shown ∷ [] };
      },
      Work.sends (
          sent_to (
            forward_private_message HopField.private (record empty_packet { private = some m })
              destination g.routing)),
    )

-- The search for keywords; a budget of 0 was not given.
unfoldable pub begin_search : List String → ℕ → Gossiper → Work
begin_search keywords budget g =
    Work.searches
      (record {
        origin = g.name;
        budget = if budget == 0 then default_budget else budget;
        keywords = keywords;
      })
      (budget == 0)

module _ (split : String → List String) (range : List String → List String) where
  -- `processClientMessages` on one message. `split` splits a text at its commas. `none` is a nil
  -- pointer, or the endless update of the clock.
  unfoldable pub process_client_message : Bool → Message → Gossiper → Option (Gossiper × Work)
  unfolding send_private begin_search
  process_client_message simple_mode m g =
      let type = get_type_from_message simple_mode m in
      let simple : SimpleMessage = record {
        contents = m.text;
        original_name = g.name;
        relay_peer_addr = g.address;
      } in
      if type == "simple"
      then some (
        g,
        Work.sends (
            broadcast_to_peers
              (record {
                packet = record empty_packet { simple = some simple };
                sender_addr = g.address;
              })
              g.peers),
      )
      else if type == "private"
      then Option.map (λ d. send_private m.text d g) m.destination
      else if type == "rumor"
      then Option.map (λ r. (record g { gossip = r.0 }, Work.mongers r.1))
          (create_rumor_message g.name g.address m.text g.gossip)
      else if type == "file"
      then Option.map (λ f. (g, Work.indexes f)) m.file
      else if type == "dataRequest"
      then (elim m.file [
        | none ↦ none
        | some f ↦ elim m.destination [
          | none ↦ none
          | some d ↦ Option.map (λ h. (g, Work.downloads f d h)) m.request
        ]
      ])
      else if type == "searchRequest"
      then (elim m.keywords [
        | none ↦ none
        | some k ↦
            Option.map (λ b. (g, begin_search (remove_duplicates range (split k)) b g)) m.budget
      ])
      else some (g, Work.nothing)
