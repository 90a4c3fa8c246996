-- ===== src/Lib.antt =====
-- A Kademlia node that keeps signed packages: ids and routing tables (src/close_nodes.rs and
-- src/close_nodes/), signed version records and their chains (src/package.rs, src/hashing.rs,
-- src/version_chain.rs), the values that a node stores for the network (src/value.rs,
-- src/handle_rpc/store.rs), the calls between nodes from both ends (src/rpc.rs, src/handle_rpc.rs,
-- src/rpc_transport.rs and src/rpc_transport/), lookups (src/lookup.rs), and what is built on them:
-- the registry of packages, joining a network, and upkeep (src/registry.rs, src/bootstrap.rs,
-- src/maintenance.rs).
--
-- The parts. A routing table is a stack of layers that all implement the trait CloseNodes: a table
-- of buckets by shared prefix (StaticBucket), over it the list of the nodes nearest to us
-- (SiblingList), and over that a cache of answers (CachedCloseNodes); `recommended` builds the stack.
-- A published version is a signed VersionRecord, stored under its hash, that names the record before
-- it; a signed LatestPointer names the newest record. `walk_chain` follows such a chain, over the
-- network or within the proof that a STORE request brings along; the STORE handler lets a pointer
-- replace another only after that. A client call frames a request, sends it over a transport, and
-- drops a peer that is gone from the routing table; a request that came in teaches the table its
-- sender and goes to the handler of its method. A lookup asks the nearest nodes that it knows of for
-- nearer ones, and offers those to the table; values are fetched from, and stored at, the nodes that
-- it ends with. Publishing loads the history of a package, signs a record and a pointer, and stores
-- them; installing loads the history and fetches the blob that a record of it names.
--
-- The files.
-- - Prelude and its children: lists, Boolean tests, sorting, bitwise operations, and the methods of
--   slices and vectors that the program calls.
-- - Heapless, DashMap: two containers that are not part of the repository, as records of operations
--   with their documented laws, and lists that satisfy the laws.
-- - CloseNodes: src/close_nodes.rs. Its children hold the metric (Distance, Numeric, LeadingZeros),
--   lists of contacts (Contacts, Nearest), what users of a table rely on (Contract), and the layers:
--   StaticBucket, SiblingList, DumbBucket and Cache, each with the source's file name and, below it,
--   one file per group of proofs; Recommended is the stack.
-- - Package: src/package.rs and src/hashing.rs; Versions reads and prints versions, with fuel for the
--   ten digits of a u32, and RoundTrip is about both. VersionChain: src/version_chain.rs, with its soundness
--   (Sound), its termination and completeness (Complete), the proofs of requests (Proof, Taken) and the
--   comparison of chains (Compare), what a history is (Spec), and its loading over the network (Load).
--   Store: src/value.rs and src/handle_rpc/store.rs. Frames: the tags and the parsing of requests,
--   src/handle_rpc.rs. Pending: the requests in flight, src/pending.rs; a oneshot channel is its number.
-- - RpcTransport: the ids of src/rpc_transport.rs; its child RetryTransport is
--   src/rpc_transport/retry_transport.rs and the reading of replies in src/rpc_transport/stream_framing.rs.
-- - HandleRpc: src/handle_rpc.rs and the handlers src/handle_rpc/ping.rs, find_node.rs and find_value.rs;
--   Answers is about what the client reads, Learning about what the node learns.
-- - Rpc: src/rpc.rs, with the floor of the table (Forget), its invariant (Table) and what a call does
--   to the world (Worlds).
-- - Lookup: `lookup_node` of src/lookup.rs, with its answer (Answer), its end (Termination), the
--   calls that it makes (Calls) and what it keeps of what it hears (Merge); Values is the rest of the file, and Found, Verified and Reaches are
--   about the search for a value, Stored about the storing of one.
-- - Registry: `prepare_publication` of src/registry.rs; Prepared, Continuation and Taken are about it;
--   Publish, with what it stores (Stored), and Install are the other operations. Maintenance: src/maintenance.rs. Bootstrap:
--   src/bootstrap.rs, with the ids that are drawn for a bucket (Bucket).
-- - Tests: runs and applications at concrete inputs.
--
-- State is passed explicitly: a method on `&self` behind a lock takes the state and returns the new
-- one; each method takes its locks one after the other, and is one step here. Arrays, strings and
-- vectors are lists over the native numbers, ids lists that `IsId` restricts to 32 bytes. The counter
-- of the cache wraps at 2^64. The clock is an argument, read once for a call. The source's field
-- `package` is `package_name` here, as the word is reserved. The client, lookups and the registry run
-- in a world that is a parameter: the transports take it and return the next one with their answer, and
-- it says which table calls other tasks made while a call waited, and which of the calls in flight ends
-- first. A call in flight is carried out as a whole when its future ends.
--
-- Bounds and fuel. The widening loop of StaticBucket::close_nodes has fuel for the number of buckets,
-- since each turn takes up one bucket at least, and is shown to end by its own test. The loop of
-- walk_chain has fuel for MAX_CHAIN_LENGTH turns and one more, which its own length test makes enough.
-- The loop of lookup_node has fuel for one turn more than there are ids of 32 bytes: each turn ends one
-- call, and no id is called twice. The loop of lookup_values has fuel for its candidates and one turn
-- more.
--
-- Parameters: heapless::Vec, DashMap, SHA-256, ed25519, bincode, the DNS (which answers alike throughout
-- an operation), and the network. Nothing is assumed of the digest but its size; of signatures, that
-- one verifies under the key of its signer; of bincode, that records, ids and contacts that were
-- encoded are decoded to themselves, and that a decoded id has 32 bytes. Nothing is assumed of what the
-- network answers, except where a result names it.
--
-- Not modelled: sockets, the tasks that read them, deadlines, DNS queries, the start of a node, the
-- command line and the logs, which are input and output; the printing of errors; the
-- jitter of periods, which is floating-point; and the debug network, which serves tests only.
pub mod Prelude
pub mod Heapless
pub mod DashMap
pub mod CloseNodes
pub mod Package
pub mod VersionChain
pub mod Store
pub mod Frames
pub mod Pending
pub mod HandleRpc
pub mod RpcTransport
pub mod Rpc
pub mod Lookup
pub mod Registry
pub mod Maintenance
pub mod Bootstrap
pub mod Tests
