-- ===== src/Lib.antt =====
-- VexDB is a vector database. Its engine, crates/vex-core, keeps vectors with an id and an optional
-- JSON payload, and answers k-nearest-neighbour queries, exactly or approximately, with a filter on the
-- payload. A server, a command line and a browser build call it.
--
-- The parts of the engine and the files that model them:
--   * Error, Vector, Index, Payload: crates/vex-core/src/error.rs, vector.rs, index.rs, payload.rs. A call
--     returns an `Outcome`: a value, an error of the engine, or a panic. `Filter::matches` is `matches`.
--   * Distance: crates/vex-core/src/distance.rs. Scalar and Avx are the two families of kernels, Metric is
--     the dispatch between them, Tags the codes and names of the metrics.
--   * Flat: crates/vex-core/src/flat.rs, the exact index. An index is a list of entries and a map from
--     id to position, and each method of `FlatIndex` is a function of the same name.
--   * Hnsw: crates/vex-core/src/hnsw.rs, the approximate index, a stack of proximity graphs over one
--     arena of nodes. Greedy is `greedy_closest`, Layer `search_layer`, Search `search_inner` and the
--     searches built on it, Level `sample_level`, Insert `add_with_payload` and `remove`, Trace the
--     observers of a search, which are passed to it as a record of methods over a state. Graph says when
--     a graph is well formed; Beam, Cover, BeamStep, BeamRun, Answer, SearchRun and Exact are about the
--     searches of one, Observation, Recorded and Tracing about what is observed of them, Rewire, Push,
--     Link, Layering, Insertion, Grown and Growth about insertion into one, Burial and Tombstones about
--     removal, Errors, SelectionErrors and Replacement about the errors of the two, Built, Service, Stored
--     and Ledger about the indexes that these make, and Filed and Nameless about the map from id to node.
--   * Persist: crates/vex-core/src/persist.rs, the snapshot format, on lists of bytes. Format has the
--     constants, Write the writing half, Read the reading half as a state monad with errors, and Any
--     the index of either kind. Bytes, Values and FlatRoundTrip are about flat snapshots, NodeValues,
--     NodeMap, HnswRoundTrip and Revival about those of graphs, Sound about snapshots of any bytes.
--   * Server: crates/vex-server/src. Server itself is the registry of state.rs, Start its load and the
--     ticks and the last flush of main.rs, Routes has one function for each handler of routes.rs,
--     which takes the state of the server and returns the state after it, and App is the router of
--     lib.rs with the statuses of error.rs. The disk is a state behind the calls of std::fs, and Disk
--     names what these promise. Upsert and Applied are about a batch, Registry and Run about the names
--     of the collections, ReadOnly about that mode, and Flush, Durable, Deletion, Kept, Lifetime, Restart
--     and Reopen about the collections and their snapshots over the life of a server, and after it.
--   * Wasm: crates/vex-wasm/src/lib.rs, the browser build. The operations of `Inner` have its index before
--     and after, and VexIndex has the bindings over them; the parsers and the serializer of JavaScript
--     values are parameters.
--   * Cli: crates/vex-cli/src/main.rs. Cli itself loads an index from lines of JSON, Run has the commands
--     and Bench the benchmark, over a disk behind the calls of std::fs.
--   * Attempt: the outcome of a call whose errors are messages of these two.
--   * Collections: the parts of the standard library that the code calls, as lists: a heap is a list in
--     the order in which `into_sorted_vec` gives it, a hash map an association list.
--   * Platform: what comes from outside the sources, as a record: the arithmetic of f32 and f64, the
--     width of usize, the CPU features, JSON values. Platform/Laws names the behaviour of these that
--     a theorem may ask for, and what a payload that survives its JSON text is.
--   * Prelude has the shared types and lemmas, Tests small inputs for the theorems.
--
-- Methods that change an index return the changed one. Integers are natural numbers, with the wrap
-- of a u32 or u64 written out where the code can reach it. The loops that are not over a list run on
-- rounds: a greedy descent on one for each node and one more, a beam search on the same number, and a
-- loop that uses them up is `stuck`, which is no outcome of the code.
--
-- Not modelled: the arguments, the printed texts and the timings of the command line; the arguments, the
-- listener, the signals and the concurrency of the server, since a request runs to its end before the
-- next; the texts of its pages; the parallel batch search; the values that error messages print; and
-- memory that runs out, where only the two capacities that the exact search of Hnsw and its neighbour
-- selection reserve in advance are compared with isize::MAX.
pub mod Prelude
pub mod Collections
pub mod Platform
pub mod Error
pub mod Payload
pub mod Vector
pub mod Distance
pub mod Index
pub mod Flat
pub mod Hnsw
pub mod Persist
pub mod Server
pub mod Attempt
pub mod Wasm
pub mod Cli
pub mod Tests
