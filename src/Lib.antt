-- ===== src/Lib.antt =====
-- P2P-DApp (Peerster): a gossip network of peers that exchange rumors, private messages and files,
-- and agree on a chain of file names. This library models the state and the operations of one peer,
-- and proves what makes them correct.
--
-- Parts of the program and the files that model them:
--
--   gossiper/header.go, helpers/generalhelpers.go: the packets and the client's message. Packet has
--     one record for each struct; a pointer is an `Option`, an address its printed form.
--   gossiper/status.go, gossiper/gossiphandler.go: the vector clock (VectorClock) and the storage of
--     messages, the rumors and the listeners for a status (GossipHandler). `update_status`,
--     `store_message` and the rest have the names of the functions. VectorClock/Update and
--     GossipHandler/Storage prove the update and the invariant of the handler, VectorClock/Compare
--     and GossipHandler/Exchange the comparison of two clocks and one exchange between two peers.
--     The sequence number of a new message is loaded and raised in two operations;
--     `create_rumor_message` composes them as a goroutine does that no other one interrupts, and
--     Tests/Races has two that interleave: they take the same number.
--   gossiper/routinghandler.go: the routing table and the hop limit (Routing). Routing/Table is about
--     any sequence of packets, Routing/Hops about a packet's way through a network of peers.
--   gossiper/blockchainhandler.go, gossiper/qsc.go, gossiper/utils.go: confirmations, fitness,
--     hashes, the consensus of a round and the committed chain (Blockchain). Blockchain/Chain also
--     has the walks of gossiper/printhandler.go and gossiper/uifunctions.go.
--   gossiper/connectionhandler.go, gossiper/gossiper.go, gossiper/utils.go and
--   client/clientsender/client.go: which channel a packet goes to and which message the client sends
--     (Dispatch).
--   gossiper/filehandler.go, gossiper/filesharing.go: a file cut into chunks, stored by their hashes,
--     and put together again (Files).
--   gossiper/filesharing.go: the download of the metafile and of the chunks from the peers that have
--     them (Download), over the replies and ticks that come. Download/RoundTrip relates it to the
--     index of another peer.
--   gossiper/tlc.go: the loop that gossips a message until a majority has confirmed it (Tlc), as a step
--     on one event: an acknowledgement, a confirmation, the timer, or the work of the handler of TLC
--     messages beside it.
--     Tlc/Confirmations is about whom the confirmations are from, Tlc/Quorum and Tlc/Overlap about the
--     majorities of two peers.
--   gossiper/blockchainhandler.go, `handleTLCMessage`: the round of a message, its acknowledgement and
--     its confirmation (Causal). Causal/Rounds is about the rounds of later messages. The vector clock
--     of a message is an `Option`: the handler panics where it reads one that is nil.
--   gossiper/qsc.go, `qscRound`: three rounds of the loop and the consensus (Qsc), over the events that
--     come in each. Qsc/Ledger relates the committed chain to a list of transactions,
--     Qsc/Total is about runs that do not fail, Qsc/Round about both.
--   gossiper/filesearching.go, gossiper/peers.go, helpers/generalhelpers.go: the budget of a search
--     request, split over the known peers (Search).
--   gossiper/gossiper.go: the peer as a record of its handlers (Gossiper).
--   gossiper/rumormongering.go and the gossip of gossiper/gossiphandler.go and gossiper/mainhandler.go:
--     what a peer does with a rumor, a TLC message or a status, and whom it sends a message to
--     (Mongering). A coin flip, a random peer and whether a status came in time are arguments.
--     Network composes peers and their operations to a step relation on a network, in which packets
--     arrive in any order, repeatedly or never, and each operation, the creation of a message
--     included, is one step; Network/Agreement is about every state that it reaches. Mongering/Exchange composes the handlers of two peers to exchanges of a status and its
--     answer, Mongering/Exchange/CatchUp is about any number of them, and
--     Mongering/Exchange/BothWays about one way and then the other. Mongering/Waiting is the wait
--     for a status: the listener, what comes before the timer, and (Waiting/Taken) the peer that
--     answers.
--   gossiper/filesearching.go, gossiper/filehandler.go: the timer of a search, the requests that are too
--     recent, the files that match, the chunk maps and the owners of chunks (FileSearch), and the
--     results and the handlers of search packets (Results).
--   gossiper/mainhandler.go, `processClientMessages`: what a peer does with a message of its client
--     (Client).
--   gossiper/mainhandler.go: private messages, requests for data and the replies to them, each a step
--     of a peer on one packet with the packets that it sends (Handlers).
--   webserver/webserver.go, gossiper/uifunctions.go: the routes and handlers of the web server and the
--     channels that they read (Interface). Interface/Polls is about the polls of the rumors, each of
--     which is sent by a goroutine of its own that others can overtake,
--     Interface/Nodes about the peers that are added and shown.
--   gossiper/printhandler.go: the lines that are printed or logged (Printing).
--   main.go, gossiper/gossiper.go: the flags, the constants, the channels and the goroutines (Startup).
--
-- The parts interact as in the code: storing a message moves the clock, the clock decides what is
-- sent to a peer, a packet with a higher id moves the route of its origin, and the messages of a round decide
-- what is appended to the chain. Base has the maps, lists and tests that the parts share. A map is an
-- association list whose first entry for a key counts; a `range` over a map takes its entries in any
-- order, which is an argument, related to the map by `Ranges`. Tests has the theorems at concrete
-- inputs.
--
-- Bounds and fuel: an id is a uint32, and `advance` wraps as it does; its fuel is one more than the
-- number of stored messages, enough where the messages below the entry are stored. A walk over the
-- chain takes fuel, one more than the length of the chain. A relay takes as much fuel as the hop
-- limit, the split of a budget one more round than there are peers. SHA-256 and the decoding of
-- hexadecimal text are arguments; what is assumed of the hash stands in the theorems that use it.
--
-- A number is printed in at most one round more than the number, and more rounds print the same.
--
-- Not modelled: sockets, timers, HTTP and JSON, the file server, the working directories and the parsing
-- of the flags (input and output); the goroutines, whose steps are the operations; the debug output.
pub mod Base
pub mod Packet
pub mod VectorClock
pub mod GossipHandler
pub mod Qsc
pub mod Results
pub mod Routing
pub mod Blockchain
pub mod Causal
pub mod Client
pub mod Printing
pub mod Startup
pub mod Interface
pub mod Dispatch
pub mod Download
pub mod FileSearch
pub mod Files
pub mod Gossiper
pub mod Handlers
pub mod Mongering
pub mod Network
pub mod Search
pub mod Tlc
pub mod Tests
