-- ===== src/Lib.antt =====
-- Replicated services and a reliable transport, from the Go programs of the repository.
--
-- The programs and the files that model them:
--   * 6.824-labs/viewservice (common.go, server.go): ViewService. The record ViewServer has the fields
--     of the Go struct that its handlers use; `clients` is a function from names to clients, and the
--     pointers to clients are the keys of this map. `ping` is Ping, `get` is Get, and `tick` is tick,
--     for any order in which `range` visits the clients. `step` and `run` put the calls in sequence,
--     as the mutex of the server does. Sweep has what the loop of tick finds; Views, Trace,
--     Invariant and Failover have the theorems.
--   * 6.824-labs/lockservice (common.go, server.go, client.go): LockService. `lock` and `unlock` are
--     the RPC handlers, `call_backup` the forwarding at the primary, `clerk` the calls of Clerk.Lock
--     and Clerk.Unlock. Replays has the theorems on one server, with the abstract lock service;
--     Replication those on the two servers; Clerk those on a client that loses answers.
--   * 6.824-labs/pbservice (common.go, server.go, client.go): PbService. `get`, `put`, `forward` and `sync` are
--     the handlers Get, Put, Forward and Sync, and `tick` is tick. What a server reaches by RPC is
--     a record Net of functions. Replication, Clients and Transfer have the theorems.
--     PbService.Clerk is the client, with `get` and `put` as Clerk.Get and Clerk.Put; Calls and Retries are about its
--     put, Reads about its get. A view is the View of the view service.
--   * 6.824-labs/shardmaster and 6.824-labs/shardkv (client.go and common.go of both): ShardMaster and ShardKv,
--     the clients, whose servers have no handlers yet. `until_answered` is the loop of Query, Join, Leave and
--     Move, and `ask_groups` that of Get and Put. Tries and Answers have the theorems.
--   * 15-440/P1-F11/lsp (lsp.go, lsp_msg.go, lsp_conn.go): Lsp. `send`, `receive` and `epoch_trigger` are the
--     methods of lspConn, and `serve_round` is one round of the loop of serve. Session joins two
--     connections by a network that loses, repeats and reorders messages; Closing is about timeouts
--     and the end of a connection.
--   * 15-440/P1-F11/bufi (bufi.go): LinkedBuf, the linked list in a heap, with `push` for Insert and
--     `pop` for Remove. Queue relates it to the list of its values, and Runs has all its methods in
--     sequence. Lsp uses the list of values.
--   * 15-440/class07/dserver (dserver.go): BufServer, a goroutine with a linked buffer and a second one for
--     the requests that wait for a value. `turn` is one round of runServer and `run_server` its loop.
--     Spec is the queue that it is compared with, Rounds has the rounds, and Order the theorem.
--   * 15-440/class07/rpclib (rpclib.go): BufRpc, the handlers of SrvBuf in front of this server as `serve`, and
--     the methods of SClient as `call`, whose call may be lost on the way there or back. A run ends with a panic
--     of the client, or at a call that waits at the server. Calls has the theorem.
--   * 15-440/class05/chanbuf/abuf (abuf.go): ChanBuf, a linked buffer that a director shares between
--     goroutines by three channels, as a step relation `Step` and its reachable states. Exclusion has the
--     theorem.
--   * 15-440/P2-F11/storageimpl (storageimpl.go) and storageproto (storageproto.go): Storage. `get` and
--     `get_list` with `add_lease_pool`, and `revoke_lease`, are the methods Get, GetList, addLeasePool
--     and revokeLease; Handlers has Put, AppendToList, RemoveFromList, RegisterServer and
--     GetServers, Start is NewStorageserver with its loop of calls of Register, and Registering joins it with a master
--     whose calls may be lost. The clock, the dial and the call of a lease holder are a record Net. Lists, Tidy, Leases and
--     Nodes have the theorems.
--   * 15-440/P2-F11/cache (cache.go): Cache, the map of entries with `get`, `revoke`, `grant` and `evict`
--     as Get, Revoke, Grant and evict. Queries is about the times that an entry keeps, Hits about
--     answers and panics.
--   * 15-440/P2-F11/libstore (libstoreimpl.go, libstore.go): Libstore. `start` is iNewLibstore, `get`, `get_list`,
--     `put`, `append_to_list` and `remove_from_list` are the methods iGet to iRemoveFromList,
--     `pick_server` is pickServer and `revoke_lease` RevokeLease. Its cache is that of Cache. Routing is
--     about the server that a key belongs to. Leasing joins a client with a storage server of Storage; Granting and
--     Coherence have the theorems on what it reads. Cluster has the servers that start at a master, and a
--     library store that then asks it for them.
--   * 15-440/P2-F11/proxycounter (proxycounter.go): ProxyCounter, a proxy in front of a storage server that
--     counts calls, bytes and leases. `fetch` is Get and GetList, `modify` is Put, AppendToList and
--     RemoveFromList, and `switch` has the methods that set what it does. Counts and Grants have the theorems.
--   * 15-440/P2-F11/tribimpl (tribimpl.go) and tribproto (tribproto.go): Tribbler has the users and their
--     subscriptions, Tribbler.Messages the posts and the lists of tribbles, both on a record Store of the calls of a
--     library store. Laws says what the theorems rely on in it, and has the storage server of Storage as
--     such a store. Feed, Posts and Timeline have the theorems.
--   * 15-440/P1-F11/lsp (lsp_server.go, lsp_client.go): Lsp.Server, whose `handle_udp_packet` is
--     handleUdpPacket, on the connections of Lsp, and Lsp.Client, where `loop_round` is a round of loopServe.
--     Ids, Packets and Runs have the theorems on the server.
--   * goto (key.go, store.go): Shortener. `gen_key` is genKey, `get`, `set`, `count`, `put` and `load` are the
--     methods of URLStore, with the saved records as a list, and `proxy_get` and `proxy_put` those of
--     ProxyStore. Keys, Puts and Proxy have the theorems.
--   * Google-IO/2013/feed-reader (rss.go): FeedReader, the loop of a subscription, with `round` as one select
--     of it, and FeedReader.Merging, the goroutines and the Close of a merge. Items and Pending have the
--     theorems on a subscription, Rounds and InOrder of Merging those on a merge.
-- Prelude has the shared names and lemmas (Prelude.Lists, Prelude.Maps) and Network the fate of a call.
-- Tests has the runs at concrete inputs.
--
-- Conventions: `Option` is a computation that may dereference a nil pointer, where `none` is the panic.
-- Times are milliseconds. A view number wraps around at 2^64 and a sequence number at 256. Maps are
-- functions to options. A random uuid is an argument.
--
-- Fuel: `PbService.tick` takes fuel for its retry loop, which has no bound in Go; fuel for one
-- round more than can fail is enough, where a round fails when the view service names a backup
-- whose call of Sync gets no answer. The loops of `PbService.Clerk` take fuel in the same
-- way, and so do those of `ShardMaster` and `ShardKv`, where one round more is for an old config.
-- `Shortener.put` takes fuel for its loop, and one round is enough when the keys are those of the
-- first numbers. genKey counts down from the 20 bytes of its buffer, and 11 are enough for an
-- `int`. `BufServer.run_server` takes fuel for its loop, and one more than twice the number of
-- requests is enough. The library store asks the master five times, as the source does. All other definitions
-- are structural; a run of a subscription, of a merge or of calls goes along the list of its events.
--
-- Outside the model: the registration of RPC servers, listening and killing, logging, JSON, gob and UDP
-- encoding, HTTP, and the mutexes, which make each handler one step. The skeletons of paxos and kvpaxos and the
-- servers of shardmaster and shardkv have no logic yet. The earlier versions of the URL shortener and its
-- benchmark, the command line programs, the test drivers, and the small
-- examples from talks are not modelled.
pub mod Prelude
pub mod Network
pub mod ViewService
pub mod LockService
pub mod PbService
pub mod LinkedBuf
pub mod Lsp
pub mod Storage
pub mod Cache
pub mod Libstore
pub mod Tribbler
pub mod Shortener
pub mod BufServer
pub mod BufRpc
pub mod FeedReader
pub mod ProxyCounter
pub mod ChanBuf
pub mod ShardMaster
pub mod ShardKv
mod Tests
