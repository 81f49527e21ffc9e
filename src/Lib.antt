-- ===== src/Lib.antt =====
-- soros: a registry of read-write locks with a secondary registry, and peers that exchange data.
--
-- The program. A registry server keeps, for each key, who created it, who reads or writes it and who
-- waits (src/access_manager.rs). Clients talk to it in lines of JSON (src/protocol.rs); the server
-- (src/registry_server.rs) turns each request into a call of the access manager, answers, tells the
-- processes whose waiting requests were granted, and copies the request to a secondary registry.
--
-- The files. Base holds what all share: tests, outcomes and actions on a state (Base/Monad), maps
-- and sets. Protocol models src/protocol.rs. Channel is the standard library's channel.
-- AccessManager models src/access_manager.rs with the names of its functions; below it Lock says
-- what a well formed lock is, Serve and Release what handle_requesting and release do, Calls gives
-- one lock as a machine of its own, and the others prove. Network is the operating system's side.
-- RegistryServer models the state and the handlers of src/registry_server.rs;
-- RegistryServer/Requests has handle_request and handle_data, and RegistryServer/EventLoop has new,
-- handle_connection and bind. ProtocolClient models src/protocol_client.rs: how messages are
-- received and requests are sent, and in ProtocolClient/Requests the connection and the calls that a
-- program makes. DataStore and P2pServer model src/p2p_server.rs. Exchange puts a reading client and
-- a peer's server together, Exchange/Truncation with an answer that does not fit, and Session a
-- client and its registry, with Session/Failover for a primary that exits and the switch to the
-- secondary, and Session/WaitingWrite for a write that has to wait for another client's release.
-- ServerBinary and ClientBinary are the programs src/bin/server.rs and src/bin/client.rs;
-- ClientBinary/Stores compares the latter with the calls that it makes, and ClientBinary/Threads
-- lets the steps of its two threads interleave. Benchmark models the clients of
-- src/bin/registry_benchmark.rs, Benchmark/Report its table and its main.
--
-- How it corresponds. A method on &mut self is an action: from a state to an outcome and a state. An
-- outcome is Ok, Err, a panic, the exit of the process, or a loop that has not ended. What an action
-- wrote before an error stays written. HashMap is its lookup function, since the code never iterates
-- over a map. HashSet is a list without repetition; which element its iterator gives first is the
-- parameter HashOrder. Ids are numbers below 2^64, and the counters wrap there.
--
-- Parameters. Sockets, polling and the crate mio are the parameter Network, of which nothing is
-- assumed; serde_json is the parameter Serde; the texts of errors, which thiserror makes, are a
-- function. Platform joins them.
--
-- Bounds. No loop of the servers needs fuel: each goes over a list. The event loops are modelled
-- over the list of the events that the poll gives. The loop of receive_message is on fuel, one for
-- each read; more fuel than there are reads before the newline is enough, and at the end of a stream
-- none is.
--
-- Not modelled. Logging has no effect, except that the logs of unreadable data unwrap from_utf8,
-- which is modelled, on the assumption that errors are logged and lines of debug are not, as the
-- binaries set it. A poll that fails, which ends a server, is left out, and so are the mutexes of
-- the data store. The benchmark does not fit the library's interface and does not compile: the calls
-- at which it does not, the creation of its clients and its server, are parameters, and so are its
-- clock, f32 and the crate csv; how its threads end is given, and what it only prints is left out.
-- The pauses of the client's program are left out, and of its two threads that one takes a late
-- answer to a creation whose end it ignored for that of its next call. The listener's registration
-- with the poll is a part of the network's listen.
pub mod Base
pub mod Protocol
pub mod Channel
pub mod AccessManager
pub mod Network
pub mod DataStore
pub mod P2pServer
pub mod ProtocolClient
pub mod RegistryServer
pub mod Exchange
pub mod Session
pub mod ServerBinary
pub mod Benchmark
pub mod ClientBinary
