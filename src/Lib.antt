-- ===== src/Lib.antt =====
-- Meitte streams the experts of a mixture-of-experts model from storage while the graph runs. This
-- library models the core that decides what is resident and what a run may ask for.
--
-- The parts and the files that model them:
--   Base          shared names: Boolean tests, lists, identifiers in a list, 64-bit words, integers
--   Lru           core/src/moe/expert_stream_source.{h,cpp}: lru_unlink, lru_push_front and
--                 lru_push_back on the arrays cprev_, cnext_ and the ends chead_, ctail_
--   Cache         the same file: the expert cache. Cache.Defs is the state, Cache.Entry touch_entry,
--                 evict_tail, retain, query_residency and the page ranges, Cache.Speculation
--                 quiesce_spec, Cache.Budget the eviction loops and set_cache_budget, Cache.Load the
--                 serial load_layer, Cache.Sample a small cache for tests. The other modules prove.
--   Overlap       the same file: Overlap.Defs is the state that the threads share, Overlap.Start
--                 load_layer_async, Overlap.Lanes the lanes of io_drain, Overlap.Hook
--                 on_expert_ready. The other modules prove.
--   Prefetch      the same file: speculative reads. Prefetch.Defs is the state, Prefetch.Issue prefetch,
--                 Prefetch.Lanes drain_spec, Prefetch.Settle spec_integrate_done, settle_spec, the
--                 two halves of quiesce_spec and its adoption, Prefetch.Serial drain_adopted,
--                 Prefetch.Join the serial load that adopts, Prefetch.Steps these as steps. The other
--                 modules prove.
--   Config        core/include/bmoe/config.h and core/src/config.cpp: the configuration, the
--                 parsers of its enumerations and validate
--   Rows          core/src/moe/row_stream.{h,cpp}: Rows.Slabs is the state, fetch_slab and the dropping
--                 of a slab, Rows.Stream evict_to_budget, gather, materialize and serves
--   Reader        core/src/io/file_reader.{h,cpp}: Reader.Defs is the state and the loop of calls,
--                 Reader.Read the read of a lane, Reader.Open open and close. The other modules prove.
--   Shards        core/src/moe/gguf_offsets.{h,cpp}: Shards.Names is split_count_from_path and
--                 make_shard_path, Shards.Offsets the table of read_gguf_offsets
--   Router        core/src/moe/router_predict.cpp and router_policy.cpp: Router.Rank rank_top_k,
--                 Router.Lists build_spec_lists, Router.Drop apply_drop, Router.Joined the same where
--                 the source adopts, Router.Substitute apply_substitute. The other modules prove.
--   Ngram         core/src/engine/ngram_draft.cpp
--   Stall         core/src/moe/stall_union.h, StallUnionState
--   Dense         core/src/moe/dense_weights.cpp, DenseWeights::byte_ranges
--
-- How they interact: a valid configuration fixes the cache's budget and the bounds of the draft
-- source; a load looks each routed expert up in the cache, which orders its entries through the
-- list of Lru, commits the pages of a miss, reads its slices and evicts from the cold end; a
-- budget change and a load first integrate the speculative entries whose reads are complete. An
-- overlapped load does the same lookups and eviction, but publishes its reads as a batch, at once
-- or the first projection's before the pages of the others are committed; the lanes take the jobs
-- and publish a readiness flag for each, and a compute thread asks for the flag before it uses a
-- slice. The state of Overlap holds that of Cache. The router hook settles the cache and asks it
-- for residency before it drops or substitutes experts, and loads what a drop leaves; its lists
-- are what prefetch and retain are called with. The window of Rows stands beside the cache and
-- shares only the kind of its system calls.
--
-- The state is passed explicitly. An entry's id is layer * n_expert + expert; `none` stands for
-- the id -1. Arrays are functions of the id. The operating system and the files are parameters:
-- `vm` answers a commit and `reads` a read, each from what was asked before, so that any order of
-- successes and failures is covered; the calls are recorded in `os` and `jobs`. The reader's
-- platform is a parameter too: the number of bytes each call moves, the bytes that a descriptor
-- reads, and the allocations; an allocated buffer holds arbitrary bytes. Descriptors and buffers
-- are numbered as they are granted. Floating-point values are a parameter with their comparisons
-- (FloatOps), since validate only compares them; for the router they come with their arithmetic
-- (Floats), and what a theorem uses of it is named in IsOrdered (which NaN does not satisfy) and
-- Grows. The walk from the ids to the tensor of scores is a parameter of the substitution, since
-- the tensors are the inference library's.
--
-- Numbers: cgen is an unsigned 32-bit counter and wraps at 2^32, cresident wraps at 2^64, and the
-- theorems assume that all experts together have fewer than 2^64 bytes (Fits), under which it does
-- not. Counters of telemetry are unbounded. `int` arguments are integers. Addresses and byte
-- offsets are natural numbers. The eviction loop runs on fuel, one round for each entry of the
-- cache: a round removes one, and the theorem on it shows that the fuel never ends first. The loop
-- over the slabs of a row has as many rounds as the table has slabs, where the source stops at the
-- latest. The loop of calls of a read runs on as many rounds as it has bytes to move, since a call
-- that moves none ends it. The iterator that a slab keeps into the list of Rows is a flag that it
-- has one, and erasing it removes the slab's key.
--
-- The lanes of a batch are a step relation: a job is taken, its read ends and its flag is
-- published, and it is counted, each a step of its own, in any order over the jobs. A run records
-- the jobs in flight, those published but not counted, and those read, which the source keeps in
-- its threads. A run starts where a load returns, with no job of an earlier batch in flight: that
-- is what the wait for the drain at the start of a load gives, which is not a step of its own, and
-- the lanes stand still between the two waves of one load. async_gen wraps at 2^32. The wait of a
-- compute thread is the answer blocked, or aborted where the run has failed.
--
-- Speculation is a step relation too: a lane takes a queued read or ends one, at any moment, and
-- between these the eval thread issues reads, integrates the entries that are done, cancels the
-- round and, once nothing is in flight, harvests it, adopts a layer, looks an entry up or evicts
-- one; the cache it works on is that of Cache. A step of the eval thread that the source makes
-- under one lock is one step here. The state has three fields that the source does not: the
-- slices read since their entry was last issued, the failed reads of the round, and whether a
-- failed read has reset an entry. An issue is a step only where it names an expert once and no
-- entry that waits to be integrated; Prefetch.Examples runs the code where it does, and where a
-- failed read resets an entry that has reads queued. spec_gen_ does not wrap. spec_inflight_ and
-- spec_done_pending_ are the lengths of lists.
--
-- The parser of a model file is a parameter that finds a file's tensors or none; paths are lists of
-- character codes, and the number of a shard is printed with five digits.
--
-- Not modelled: the deferral of drops, the jobs and the watchdog of the prediction, the reopening
-- of a file, the model information beside the offsets, an overlapped load that adopts, the
-- synchronous test path of prefetch, auto-sizing at initialisation, times, the throttled probe of
-- the dense weights and null pointers. The serial load reads its jobs on one lane; with several
-- the order of the reads is the scheduler's. The text of a refusal is a constructor of Refusal.
pub mod Base
pub mod Lru
pub mod Overlap
pub mod Prefetch
pub mod Cache
pub mod Config
pub mod Shards
pub mod Stall
pub mod Dense
pub mod Ngram
pub mod Reader
pub mod Router
pub mod Rows
