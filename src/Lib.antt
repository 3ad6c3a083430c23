-- ===== src/Lib.antt =====
-- A verification library of the native memory daemon: a Rust program that keeps memories of a
-- project for an editor's agents, with a lifecycle state in a JSON file, the documents in a vector
-- collection, and a journal that keeps the two in step.
--
-- The parts and the files that model them (paths from the repository's root):
--
--   src/contract.rs          Contract     enumerations, their wire names, the update request
--   src/taxonomy.rs          Taxonomy     variants, wire names, families, profiles, inference
--   src/validation.rs        Validation   the secret scan of a text, and the scan for instructions
--   src/storage/state.rs     State        the records, `validate`, `load`, `save`
--   src/lifecycle.rs         Lifecycle    expiry, pinning, locking
--   src/engine/mod.rs        Engine       removal and deletion of memories, batches, the
--                                         journals, recovery
--   src/embedding_generation.rs, src/engine/model_switch.rs
--                            ModelSwitch  the journal and the steps of a change of model
--   src/capture.rs           Capture      the gate that decides on a candidate memory
--   src/graph/mod.rs         Graph        the knowledge graph: its state, validation, extraction jobs,
--                                         files, the upsert of what was extracted, the search,
--                                         and the erasure of deleted memories
--   src/storage/atomic.rs    Graph/Store  the replacement and the removal of the graph's files
--   src/daemon/actor.rs      Daemon       a project's actor, its calls and their bytes
--   src/daemon/mod.rs        Daemon/Call  the cancellation of a call
--
-- How they interact: the engine changes a `MemoryState` and saves it; `save` normalises and
-- validates it first, and `validate` walks every record and the links between records. A batch of
-- memories is saved in the state's journal, written to the collection, and then installed;
-- whatever the process leaves in the journal is repeated when the store is opened again. A deletion
-- erases the memories from the graph, puts their ids into a second journal, deletes the documents and
-- then the records. An update passes the lifecycle policy before it changes a record.
--
-- The knowledge graph is derived from the memories by jobs: a worker claims one for a time, renews
-- its lease, and reports what it extracted. Every operation makes a new graph and commits it, through
-- a pending file and the main one; deleting a memory erases from the graph what rests on it.
--
-- The daemon gives each project an actor, a thread that owns its engine and takes commands from a
-- channel; a call holds bytes of two counters while it is queued, and can be cancelled until it
-- starts.
--
-- How the model stands for the code: a struct is a record with the same fields, an enum is a data
-- type with the same variants, and a function is a definition of the same name. A method that
-- changes its receiver takes the old state and returns the new one. `anyhow::Result` is
-- `Prelude.Result`, with a data type of the errors in place of their texts. `HashMap` is an
-- association list whose order stands for the arbitrary order of iteration; `HashSet` is a list.
-- `f32` is `Float.F32`, exact for comparison and `min`; sums and products of floats are parameters.
-- `i64` is an integer with saturating addition and subtraction, and `u64` counters saturate. Atomic
-- counters wrap around at 2^64. Threads are interleavings: a list of actions, each one atomic access
-- of the program (for the permits and the call's state) or one method (for the actor, where
-- `enqueue_maintenance` and `enqueue_switch_step` are two steps each, one for each round of checks).
--
-- Bounds: the cycle check follows as many links as there are records, which is the bound in the
-- source, and a cycle that it could miss does not exist; the loop of a search has enough rounds; no other
-- definition needs fuel. The history of
-- model switches is cut to 16, and a reindexing step takes 8 records, as in the source.
--
-- Parameters: the regular expressions, the keyhog scanner and Unicode lower-casing of the secret
-- scan are functions in `Validation.Scan.Scanners`; how the calls of the file system, the graph
-- store and the vector collection turn out is given by `Prelude.Writes.Write` (a replacement of a
-- file can fail after the new one is in place), `Engine.Journal.Outcomes` and
-- `Engine.Deletion.DeleteOutcomes`, and the tombstone of a memory is an argument of its deletion; the product and the
-- sum of two `f32` in the capture gate are functions; whether the channel of an actor takes a command
-- is an argument of each send, within the channel's documented capacity.
--
-- Graph: `GraphStore::load` and `commit_state` are in Graph/Store, and take how each write, each removal
-- and the RDF projection turn out; a crash between two writes is a refused second one. How long the
-- texts of the files are is `Graph.Store.Encoding`, in which a pending transaction is longer than its
-- graph. The operations
-- on jobs in Graph/Jobs give their reply and the state that they commit, and `after` is the memory
-- after the commit. The digests and hashes of a job and the norm of an embedding are parameters, and a
-- worker's report takes what `apply_upsert` makes of the graph as given, which Graph/Upsert/Settles joins
-- to `apply_upsert` itself. A generation counts up to
-- 2^64 - 1.
--
-- Upserts: Graph/Upsert/Passes has `apply_upsert`, a pass over the candidates of each kind, and each
-- builder (`build_entity`, `build_relation`, `build_fact`, `build_observation`) is a file of
-- Graph/Upsert: it checks a candidate, looks at its evidence (Evidence) and at the entities that its
-- names stand for (Resolve), and puts it into the graph. Hashes, Unicode normalisation and the printed
-- form of a time are `Graph.Upsert.Services`, the classifiers of the scan for instructions
-- `Validation.Injection.Classifiers`, and the digest of the material an argument. A `Vec` that is
-- extended in place is passed along in `Work` or `Batch`.
--
-- Search: Graph/Search has `search_learning`. The constants and the arithmetic of its scores are
-- `Graph.Search.Scores`. Its loop over the relations has as many rounds as there are entities in the
-- queue at first and entities that may be shown, since only such an entity joins the queue, once.
--
-- Not modelled: JSON decoding, a restart in the middle of a model switch, sockets and threads,
-- embeddings, the search of the vector collection, the RDF projection of the graph, what the engine lets
-- a caller see of the graph, the splitting of documents, configuration, and everything that is vendored.
pub mod Prelude
pub mod Float
pub mod Contract
pub mod Taxonomy
pub mod Validation
pub mod State
pub mod Lifecycle
pub mod Engine
pub mod Graph
pub mod ModelSwitch
pub mod Capture
pub mod Daemon
mod Examples
