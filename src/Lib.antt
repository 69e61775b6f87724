-- ===== src/Lib.antt =====
-- BlobSeer: a versioned store of large blobs. A client splits a blob in pages, stores the pages
-- at providers, the tree of a version in a distributed hash table, and asks two central services,
-- the version manager and the provider manager, which write to serialise and where to put pages.
--
-- The parts and the files:
-- * Structures, Structures/Geometry: common/structures.hpp, the queries (nodes of the tree of a
--   version), roots and tree nodes.
-- * Rpc, Rpc/Status: the buffers of common/buffer_wrapper.hpp, and what a handler gives back to
--   the server (rpc/rpc_meta.hpp). A handler is a function of the state, the parameters and the
--   result vector to an outcome: it throws, never ends, or returns a status, the results and the
--   state.
-- * Rpc/Wire, Rpc/Calls: the bytes of a call between rpc/rpc_client.hpp and rpc/rpc_server.hpp.
--   Rpc/Queues and below: the requests of rpc/rpc_client.hpp and the count of those under
--   way, over the events of a client; an event tells what the callback that runs in it
--   dispatches, and whether it throws. Rpc/Timers: rpc/rpc_timer.hpp.
-- * VManager and below: vmanager/vmanagement.cpp. The six RPCs are functions of the same names. A
--   blob has its published roots, and a queue of reserved writes ordered by version. All calls
--   run in one thread of the server, so a history is a sequence of calls.
-- * Cache and below: common/cache_mt.hpp, the cache over an eviction policy, and the LRU policy
--   as a linked list with a map from a key to its node. The interface between the two is the
--   record `Policy`, and its laws are the record `IsQueue`.
-- * PManager and below: pmanager/adv_manager.cpp and pmanager/adv_manager.hpp, the table of the
--   providers, their allocation, their reports, and the watchdog that drops those that are
--   silent.
-- * Provider and below: provider/page_manager.hpp over a store of pages (`Persistency`, with the
--   laws `IsMap`), the store of provider/null_bw_map.cpp, and the reports of
--   provider/pmgr_listener.cpp.
-- * Dht and below: common/simple_dht.hpp, the hash table over the providers: how gets and puts
--   are queued at gateways, and how the answers of the replicas come together in one call of the
--   client. Of the loop `wait` the gets are modelled, each answered before the next is sent.
-- * RangeQuery and below: client/range_query.cpp, what a writer puts for a version: its pages,
--   its leaves, and the tree above them, with the siblings of other versions; and how a reader
--   finds the pages of a range. The hash table is a parameter, and the puts are recorded in their
--   order. RangeQuery/Replicas is client/replica_policy.hpp.
-- * Client and below: client/object_handler.cpp and client/object_handler.hpp, the client of one
--   blob. The managers and the providers are parameters, functions from a request to its answer;
--   the user's buffer is a function from places to bytes.
-- * Prelude and below: lists, maps and texts. An unordered map is an association list.
--
-- Bounds: words of 32 and 64 bits wrap where the code adds, doubles or counts. Loops: the growth
-- of the tree in `get_ticket` has fuel for 65 rounds, after which a doubled 64-bit word is 0 for
-- good; the outer loop of the provider manager's `get` has fuel for one round for each provider
-- wanted, since a round that goes on has taken one; the watchdog has a round for each entry; the
-- loop over the nodes of a tree has a round for each node put, and two more; the descent of a
-- reader has a round for each level; the retries of a page have a round for each replica, and
-- the listing of them one more.
--
-- Trees are of at most 2^62 or 2^63 bytes, so that no size in them wraps.
--
-- Parameters: the bytes of a word in memory (`Rpc.Wire.RawWord`), the Boost archives
-- (`Rpc.Codec`: what is written is read back and is not empty), the boost::multi_index_container of
-- the provider manager (`PManager.Table.Index`), the memory around a page, and the random
-- numbers of a client.
--
-- Not modelled: sockets, threads and the log; the puts in the loop that sends the
-- queued calls of the hash table, several such requests under way at a time, and its caches; the
-- constructor of the object handler, which reads the configuration;
-- the bindings and the file system on top of it; the stores on disk.
pub mod Cache
pub mod Dht
pub mod PManager
pub mod Prelude
pub mod Provider
pub mod RangeQuery
pub mod Client
pub mod Rpc
pub mod Structures
mod Tests
pub mod VManager
