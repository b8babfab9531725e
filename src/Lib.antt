-- ===== src/Lib.antt =====
-- AeroMQ's control plane: the Go controller that keeps the cluster's metadata in a Raft log.
--
-- The program. Brokers register with the controller and send heartbeats that report how far each of
-- their replicas has come; clients create topics, join consumer groups, and commit and fetch
-- offsets. The gRPC server (go-controller/pkg/grpcserver/server.go) turns each such request into a
-- command, proposes it to Raft (go-controller/pkg/consensus/raft.go), and answers from the state
-- machine (go-controller/pkg/consensus/fsm.go), whose `Apply` runs every committed command on every
-- node. A ticker on the leader proposes `clean_inactive`, which marks brokers that have gone silent
-- and moves the partitions that they led.
--
-- The files. `Fsm` is fsm.go: `Fsm.State` the structs; `Fsm.Replication` updateISRAndHW;
-- `Fsm.Failover` getActiveBrokerIDs, handleBrokerFailure and clean_inactive; `Fsm.Topics`
-- create_topic and assign_partitions; `Fsm.Groups` join_consumer_group and rebalanceGroup;
-- `Fsm.Offsets` commit_offset and GetOffset; `Fsm.Brokers` register_broker and broker_heartbeat;
-- `Fsm.Commands` and `Fsm.Apply` the reading of a log entry and the switch of Apply; `Fsm.Replay` a
-- log applied entry by entry. `Fsm.Metadata` GetMetadata; `Fsm.Snapshot` Snapshot, Restore and
-- Persist. `Fsm.WellFormed` and `Fsm.Typed` are invariants of the state, `Fsm.Kept` what the
-- handlers leave alone, `Fsm.Known` and `Fsm.Lasting` are about groups and topics that stay, and
-- `Fsm.Orphans` about partitions that no broker leads. `Fsm.Offsets.Book` is the abstract view of
-- the committed offsets. `Consensus` is raft.go: NewRaftNode (`Consensus.Setup`), Propose and Join
-- over the raft library, whose promise is `Consensus.Log.Replicates`. `Server` is server.go:
-- `Server.Messages` the protobuf structs, `Server.Listing` its loops over the metadata,
-- `Server.Payloads` what it marshals, `Server.Handlers` the handlers, and the other children what
-- they guarantee. `Controller` is go-controller/cmd/controller/main.go: its HTTP API, with the start
-- of the process (`Controller.Startup`) and its request to join a cluster, and the runs of a
-- controller (`Controller.Runs`), with what they keep (`Controller.Durable`). `Client` is
-- client/main.go: `Client.Args` the argument switch, `Client.Leader` the search for a partition's
-- leader, `Client.Frames` the frames it writes to a broker, `Client.Exchange` the exchanges and the
-- loop that consumes, `Client.Commands` the commands and what they print, `Client.Answered` what a
-- reader finds in a metadata answer, `Client.Integration` its integration test, a run (`Script`)
-- over the RPCs, connections, commands and files it meets. `Broker` is the reading of a request in
-- rust-broker/src/net/server.rs. `Fmt` is Go's Sscanf. `Script` is a run that may end with an error.
-- `Json` is what the program uses of encoding/json, `Json.Encode` the writing of it. `Prelude` holds
-- the shared types: bytes for strings, integers and their decimals, association lists for maps.
-- `Tests` evaluates the definitions and applies the theorems at concrete inputs.
--
-- How it is modelled. A handler that mutates the FSM is a function from the state to the new state.
-- A map is an association list, overwritten in place. Go does not fix the order of a `range` over a
-- map: where the order can show in the result, the loop takes a list of numbers that picks one order
-- (`Prelude.Range`), and the theorems hold for all of them; the two loops over topics and partitions
-- touch each partition by itself, and are a pass over all of them. The two clock readings of an
-- Apply are fields of `Env`, in nanoseconds. int64 offsets are integers whose difference wraps at 64
-- bits, a generation wraps at 2^32, and a partition's number keeps its UTF-8 form in an offset's
-- key. The loops of the controller are over lists or counted, so no fuel is needed; the client's
-- loop that consumes runs on fuel, of which more than the bytes still to come is enough. The loops
-- of the integration test are counted: twenty rounds for the election, and, between two steps of the
-- test, as many attempts of the consumer in the background as the surroundings give it time for; an
-- attempt is not interrupted. A connection is the bytes still to come before it closes, the bytes
-- written, and the number of writes it still takes; in the integration test, what comes on it
-- depends on all that has been done by then.
--
-- A handler of the server takes the world of the raft library (`Consensus.Raft`) and gives its
-- answer and the world after it. What other requests and other nodes do while a proposal is under
-- way is part of that step; a handler reads the state right after it.
--
-- Not modelled. Raft itself, gRPC, the files that hold snapshots and the clock are outside; the
-- FSM's mutex is left out, since each operation runs alone under it. JSON text is not modelled: a
-- log entry is a JSON value, or malformed. A nil slice and an empty one are the same list, and so
-- are a nil map and an empty one, except for a partition's offsets. The Rust broker but for its
-- reading of requests, the rest of the generated protobuf code, the lines that the client logs and
-- those that report the progress of its integration test, and what the controller's main function
-- logs and serves are left out.
pub mod Prelude
pub mod Fmt
pub mod Json
pub mod Script
pub mod Fsm
pub mod Consensus
pub mod Server
pub mod Controller
pub mod Client
pub mod Broker
pub mod Tests
