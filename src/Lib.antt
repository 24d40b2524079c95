-- ===== src/Lib.antt =====
-- zero-frameworks is a C++ server framework with a Redis-compatible store. This library models its
-- store, its publishing hub and the clients that wait for list elements (zero/kv), the hash slots of
-- its cluster, the circuit breaker and the load balancer of its RPC clients (zero/rpc), the byte
-- arrays of its streams (zero/core/io), the memory cache of its database layer (zero/db) and its
-- HTTP/2 header compression (zero/http), and proves what they promise.
--
-- How the parts interact: a session reads a command from its buffer with `RespReader::tryParse`,
-- the command runs operations of `KvStore`, and the session writes the answer with
-- `appendResponse`. PUBLISH and the subscriptions go to `PubSubHub`, which matches patterns as KEYS and
-- SCAN do. A push serves a client that waits in `BlockingListHub`, which pops from the store. An RPC
-- channel chooses its node with the load balancer, asks its breaker before a call and records the
-- outcome after it.
--
-- Base        numbers, bytes, association lists and decimal texts that the components share
-- Resp        zero/kv/resp.h, resp.cc and resp_reader.cc: the values (`RespValue`), `appendInt64` and
--             `readInt64` (Resp.Number), `RespEncoder` and `KvSession::appendResponse`
--             (Resp.Encode), `RespReader` (Resp.Reader)
-- Store       zero/kv/store/kv_store.h and kv_store.cc: the entries and the sixteen shards. Every
--             operation on one key is `with_entry` round a body, which is what the operation does
--             once its shard is locked and its entry looked up. Store.View is the flat map from keys
--             to entries that the shards stand for; Store.Evict the eviction, Store.Strings the
--             operations on strings and keys, Store.Expiry those on deadlines,
--             Store.Lists, Store.Hashes and Store.Sets those on the other types,
--             Store.Flush the flushes, Store.Watch what WATCH compares, Store.Rename `renameKey`,
--             Store.Scan the operations on all keys of a database. Store.Flat is the specification:
--             what a command means on one flat map. Store.Placed is the invariant of the shards
-- Blocking    zero/kv/blocking/blocking_list_hub.cc: `BlockingListHub`, and the pushes and the
--             `tryBlockingPop` of zero/kv/command_dispatch.cc that use it. Blocking.Offers and
--             Blocking.Fair see the store through its flat map, Blocking.Reach holds the histories
--             of a hub. The pointers to the waiters are numbers, with the waiters behind them
-- Glob        `matchGlob`, which kv_store.cc and pubsub/pubsub_hub.cc each have a copy of
-- PubSub      zero/kv/pubsub/pubsub_hub.h and .cc: `PubSubHub`. PubSub.Reach holds the histories of a
--             hub, in which sessions may expire at any time
-- Cluster     zero/kv/cluster/cluster_slot.cc: `crc16` and `keyToSlot`
-- Rpc         zero/rpc/rpc_circuit_breaker.cc: `RpcCircuitBreaker` and its manager;
--             zero/rpc/rpc_load_balancer.cc: `RpcLoadBalancer`
-- Slowlog     zero/kv/slowlog.h and slowlog.cc: `Slowlog`
-- Http        zero/http/hpack.cc: `HPack`
-- ByteArray   zero/core/io/bytearray.h and bytearray.cc: `ByteArray`, in blocks. ByteArray.Flat is the
--             text that the blocks stand for and the invariant, ByteArray.Values the numbers and
--             texts that are written to it
-- DbCache     zero/db/db_cache.h: `MemoryDbCache`
-- Examples    the theorems at concrete inputs
--
-- Numbers are the native ones; `int64_t` and `int` are integers with `wrap64` and `wrap32` where the
-- source computes, which is two's complement also where C++ leaves the overflow undefined. Strings
-- are lists of bytes. The clock and the random engine are arguments (`Env`, or a time), and so are
-- `std::hash` (`StdHash`) and the room that `std::vector::reserve` is granted for the items of an array
-- (`Memory`): where it is granted none, the reader's outcome is the exception. An operation runs under
-- the lock of its shard, so operations on one shard are functions from one state to the next; the
-- locks themselves are not modelled.
--
-- Fuel: the reader takes one more than twice the length of its text, which is enough since each byte
-- is a prefix or an item at most once. The eviction takes one round more than there are entries,
-- which is enough since each round takes one out. The words of an inline command take one round for
-- each of its bytes. The matcher's rounds are one more than the pattern is long, and as many again
-- for each character of the text; the header decoder's are the bytes of its text, since each round
-- takes one at least.
--
-- Not modelled: sorted sets and streams of the store; of its operations on strings, hashes and sets
-- getex, hsetnx, hgetall, hkeys, hvals, spop, setInter, setUnion and setDiff; its setters for the
-- memory limit and the policy, and its saving and loading; all of zero/kv/store/kv_store_extras.cc
-- (listInsert, setInterStore, setUnionStore, setDiffStore, msetnx, incrByFloat, hsetFields, the scans
-- within one entry, and more on sorted sets, streams and dumps); when a fiber is resumed, and the wait of
-- BRPOPLPUSH; persistence, replication, the cluster protocol, sessions and sockets, the other parts of
-- HTTP, logging, configuration and the clients of other servers, which are I/O, generated code or
-- glue, or stand for later modules.
pub mod Base
pub mod Blocking
pub mod ByteArray
pub mod Cluster
pub mod DbCache
pub mod Glob
pub mod Http
pub mod PubSub
pub mod Examples
pub mod Resp
pub mod Rpc
pub mod Slowlog
pub mod Store
