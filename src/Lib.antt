-- ===== src/Lib.antt =====
-- The MeshPad sidecar (native/meshpad_p2p_native, in Rust): it holds the notes and the attachments
-- of one device and replicates them with the sidecars of other devices over libp2p.
--
-- The parts, and the files that model them (paths below native/meshpad_p2p_native/src):
-- - wire_store.rs: the notes by id. WireStore.antt; its folder has the proofs on one upsert, on the
--   import of a list, and on the catalog.
-- - wire_attachment_store.rs: the attachments by note id and name. AttachmentStore.antt.
-- - wire_batch.rs: the envelope that carries both stores to a peer. WireBatch.antt; Exchange states
--   what two sidecars hold after one gave the other its batch, and after a batch sync. Arrivals:
--   what reaches a sidecar, whatever the way, and its stores after a list of arrivals. Merge: what a
--   well-formed sidecar without empty attachments holds as a quotient, without the order of its
--   maps, and Merge/Gather the import of the batches of several such senders.
-- - wire_protocol.rs and events.rs: the messages between sidecars, the events for clients.
--   WireProtocol.antt, Events.antt, and Encoding in the folder of each: their JSON.
--   Events/Receiver: where a receiver of the broadcast stands.
-- - p2p.rs: the loop that takes commands of callers and events of the swarm. P2p.antt has its types
--   and its state (Node: the variables of run_swarm, the two shared stores, and what was sent on the
--   oneshot and broadcast channels). P2p/Build: the construction of the swarm. P2p/Agent: the agent
--   string. P2p/Respond: the requests of peers, and who is known. P2p/Replies: the responses that
--   drive a pull, a push and a batch sync. P2p/Loop: handle_swarm_event, the commands, and
--   run_swarm. The other files of P2p are proofs: Pending and Ledger on the maps of pending requests
--   and the account of each caller, Drain on failures that end all that is pending, Log on what a
--   run brings to the stores, Conversation, Push and Pull on two nodes that exchange messages, Frame
--   and Interleaved on a batch sync among other inputs, Peers on discovery and expiry.
-- - sidecar.rs: Sidecar.antt has the state of the sidecar. Sidecar/Requests: the bodies of requests.
--   Sidecar/Controller: spawn and P2pController (of p2p.rs). Sidecar/Ports: the port. Sidecar/WireBase
--   and Sidecar/Remote: the import and the push over HTTP. SidecarApi/Router: build_router and the
--   handlers of the HTTP server. Sidecar/EventStream: events_sse. Sidecar/Server: bind_listener, run,
--   and main of main.rs.
-- - sidecar_api.rs: SidecarApi.antt has the handlers, SidecarApi/Sync sync_json, SidecarApi/Dispatch
--   dispatch_json. The other files of Sidecar and SidecarApi are proofs: Exchange, SyncHttp and
--   SyncLibp2p on a sync of two sidecars, RoundTrip on a push and a pull, Lifecycle on start and
--   stop, NoSwarm on a start without a swarm, Stall on a sync without an end, Closed and Keyed on what
--   all routes keep of the stores, Dispatch/Hosts on hosts that
--   answer, Dispatch/Outcomes, Router/Paths, Router/Extraction and Router/Agreement on all routes.
-- - ffi.rs: the C ABI. Ffi.antt has C strings, the text of a value and the version. Ffi/Direct: the
--   direct runtime, a Process with at most one, and a function for each call; Direct/Requests and
--   Direct/Events are proofs. Ffi/Embedded: the embedded server as a step relation over the call that
--   holds the mutex and the server's thread; Embedded/Invariant, Embedded/Progress and
--   Embedded/Race are proofs.
--
-- How the code is read. Each function of the source is a function with the same name, and a
-- closure, a match or a loop body is one with a name of its own next to it. State is passed
-- explicitly: a method with `&mut self` returns the new state beside its result. The mutexes are
-- taken one event at a time in the loop, so that a step is a function of the state. HashMap.antt
-- has std's map as the list of its entries, in the order in which the source happens to iterate
-- over it: the theorems hold for each such list, and so for each order. A `u32` counter adds as a
-- release build does, modulo 2 ^ 32; theorems on a count say when it does not wrap. Numbers that
-- are printed (Base/Text/Decimal) recurse on fuel, the number itself plus one, which is more than
-- the number of its digits. A client that polls (poll_all of Ffi/Direct/Events) has as many calls
-- as a number says, and one that reads the stream of events (events_sse) as many items of its
-- receiver: any number above that of the events, plus one for events that are lost, will do. No
-- other function has fuel: the loops of the source go through a list, and the 200 checks of a
-- start are counted in the state of the step relation.
--
-- The sidecar serves its requests one after the other. A function of SidecarApi takes the System
-- (the state of the sidecar, and the world that other hosts are) to an Outcome: a result with the
-- system after it, or `waiting`, an `await` that nothing ends. What a request meets from outside
-- is in its Environment: the variable MESHPAD_DEFAULT_PEER_WIRE_PORT, the swarm that libp2p
-- builds, and for each method of the controller the inputs that the loop gets from the command to
-- the moment at which the caller goes on. P2pController holds the variables of its loop while that
-- runs; where a start drops a controller, its loop ends without further inputs. `events` of the
-- state is all that went out on the broadcast.
--
-- Code outside the repository is an argument. External/Json (serde_json), External/Base64 (the
-- base64 crate), External/Libp2p (the swarm with its request-response behaviour), External/Serde
-- (the derived deserializers), External/Http (reqwest: a host answers, fails, or stays silent for
-- ever), External/Tokio (the texts of channel errors), External/Axum (the choice of a handler, and
-- the extractor of a JSON body with its limit of 2 MiB), External/JsonText (the texts of values),
-- External/Broadcast (the receiver of events), External/Net (the listener and the server on it)
-- and External/SwarmBuilder (the stages of a swarm's construction) are records of the operations
-- that the source calls, with the laws it relies on: an object is read back by field, what is
-- encoded is decoded, a request id is given out once. Examples has one concrete instance of each
-- (Trees, Latin, Network, Requests, Texts, Servers, Builders) and the theorems at concrete data.
--
-- Not modelled: lib.rs (the list of modules); the log, tokio's runtime, and in ffi.rs the freeing
-- of strings; what axum, hyper and libp2p do inside (sockets, transports, timeouts, the framing of
-- messages, keep-alive comments in the stream of events); requests that run at the same time; the
-- capacity of the channels of commands, and receivers that are gone (`let _ = reply.send(..)`).
-- The JSON of messages and events is read off the attributes of their types; other fields in a
-- message are not looked at. A peer in Conversation, Push, Pull and SyncLibp2p answers each
-- request once, and no other event comes in between; Ledger/Run, Drain, Log and Interleaved are
-- about runs with every order of events.
pub mod AttachmentStore
pub mod Base
pub mod Events
pub mod Examples
pub mod External
pub mod Ffi
pub mod HashMap
pub mod P2p
pub mod Sidecar
pub mod SidecarApi
pub mod WireBatch
pub mod WireProtocol
pub mod WireStore
