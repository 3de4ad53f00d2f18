-- ===== src/Lib.antt =====
-- A verification library for the gossip module: a peer that spreads short data items over a
-- peer-to-peer network, for clients that announce items and ask to be notified of them.
--
-- The program is a set of goroutines that talk by messages. The Central controller
-- (src/core/controller.go) owns the connections, routes all messages and counts the goroutines.
-- The Gossiper (src/core/gossiper.go, src/core/gossip_item.go) keeps the items that are hot, old
-- or just in, and runs the rounds of the median-counter algorithm. The Membership controller
-- (src/core/membership_controller.go) chooses the peers. Endpoints and listeners own the sockets.
--
-- Base: Boolean tests, integers, lists, and Go's maps as association lists with their laws. A
-- `range` over a map visits the list in its order; statements are for all lists, so for all
-- orders.
-- Datastruct: SetType is src/datastruct/set, IndexedMap is src/datastruct/indexedmap, MarkList is
-- src/datastruct/marklist and Extrema is src/utils/math; IndexedSet is src/datastruct/indexedset,
-- whose laws come from those of the map to the unit. A panic is `none`.
-- Message: src/core/message.go and the payloads of src/core/*_message.go. A `*GossipItem` is an
-- address of a store, because the Gossiper takes addresses of loop variables, which the go 1.14
-- of go.mod shares between the turns of a loop.
-- Gossiper: Item is src/core/gossip_item.go; State, Push, Rounds, Handlers and Incoming are the
-- methods of src/core/gossiper.go, `pushRound` as `push_round` and so on; Invariant,
-- RoundInvariant, HandlerInvariant and Dispatch are about all runs, Pushes and Aliasing about a
-- round of pushes, Replies about answers and verdicts, OldItems about the old items, and Tests
-- has concrete runs. Messages that are sent are appended to the state.
-- Central: the handlers of src/core/controller.go: State has the state and what it does to the
-- other goroutines, Forward the messages that are passed on, Random the peers that are lent to
-- the Gossiper, Peers the peers and endpoints that come, Closing those that go, and Dispatch the
-- closing command, the table of handlers, the initial state and one turn of `Run`; `rand.Perm` is
-- a parameter of the model. Draws is about the random peers, Roster about the lists of outgoing
-- peers and Accounting about the count of the goroutines; Accounting/Run has the runs from the
-- start, where a controller or a listener reports that it closed only while the Central
-- controller knows it, as its routine does once. Shutdown is about the closing command, LateClients
-- about clients whose goroutines stop after the Gossiper, and Tests has concrete runs.
-- Following says which peers the controller wants, and Agreement is about the two controllers
-- together.
-- Membership: src/core/membership_controller.go and the push requests of
-- src/core/membership_controller_message.go: State, Request (the proof of work), Sampler (the
-- peer samplers), ViewList (`replaceViewList`, `removePeer`), Rounds and Samples (the rounds) and
-- Handlers (the handlers, the table, a round, `bootstrap` and the constructor). Notices reads the
-- messages that the Central controller gets; Replacing, Sending, Samplers, Capacity and Holding are
-- about the parts of a round, Invariant, Preserving and Running about every step of the routine,
-- Runs about all runs from the constructor on, Working about push requests, and World and Tests
-- have a concrete run. Floating-point numbers are a type with operations, and SHA-256, AES, scrypt
-- over a printed request, the check of an address, the clock and the random draws are parameters;
-- draws are permutations where a theorem says that they are fair.
-- Api: src/core/api.go: Codec (big-endian numbers), Reader (`readerRoutine` and its handlers, over
-- what has arrived on the connection at each turn, of which `bufio` holds 4096 bytes) and Writer
-- (`writerRoutine`). Reading, Crashing
-- and Writing have the theorems, and Tests concrete messages.
--
-- P2p: the endpoints of src/core/peer.go: Reader is `readerRoutine` over what the gob decoder returns,
-- Writer is `writerRoutine` over the input queue, and `Close`. Reports is about how they end, Wire is
-- about a message between two nodes, with the encoding as a parameter, and Tests has two nodes.
-- Ini: src/parser/ini/ini.go: Parser has `Parse` and the `Get...Value` methods, Sections and Values
-- say what the parsed values are, and Tests has a small file. The regular expressions and `strconv` are
-- parameters.
--
-- All loops are over lists or count down, so no definition needs fuel: the search for a nonce has
-- the rounds that the code gives it, 2 * repetition as a `uint64`. A `uint8` and a `uint16` wrap around
-- where they are counted, and so does a `uint32` or a `uint64`; Go's `int` is an integer without
-- bounds, as the counters of the program stay far below 2 ^ 63.
--
-- Not modelled: the sockets, deadlines and listener loops of the endpoints, the gob encoding, the
-- secure connections (src/crypto), the reading of files, the constructors of the Central
-- controller but for its initial state, and of the Gossiper, logging, and time.
pub mod Base
pub mod Datastruct
pub mod Message
pub mod Gossiper
pub mod Central
pub mod Membership
pub mod Api
pub mod P2p
pub mod Ini
