-- ===== src/Lib.antt =====
-- WalrusOS: persistent, verifiable memory for AI agents (the Python package walrusos).
--
-- Agents append events to streams. An event's payload is a blob in a content-addressed storage,
-- and the event itself is a row of a ledger that is also anchored on a chain. State is never
-- stored as such: identities and workspaces are projections, folds of the event log. A replay
-- walks the log again and checks hashes, signatures and capabilities; a disaster recovery rebuilds
-- the ledger from the anchored headers and the blobs.
--
-- The parts, each in the module of its name:
--
-- - Base: library names passed on, Boolean tests, lists by native numbers, dicts with text keys
--   (Base.Dict, in insertion order as in Python; Base.Dict.Unique: keys listed once), exceptions
--   as values (Base.Result).
-- - Model (walrusos/core/models, walrusos/core/crypto.py): JSON payloads (Model.Value), protocol
--   and memory events (Model.Event), identities (Model.Identity), and the hashing and signature
--   checks over abstract primitives (Model.Crypto). A float is its decimal text; nothing here
--   computes with one. A JSON value that the code never takes apart is its JSON text.
-- - Projection (walrusos/core/projections/engine.py and the replays of
--   walrusos/engine/event_store.py): apply_agent_event, replay_agent, apply_workspace_event,
--   replay_workspace.
-- - Adapters (walrusos/adapters/in_memory.py): InMemoryStorage, InMemoryLedger, InMemoryVector as
--   records, one function per method. Fresh UUIDs and the clock are arguments; tokens come from an
--   abstract tokenizer. The floating-point weights of a search are not modelled.
-- - Replay (walrusos/engine/replay.py): the blob id pattern over code points (Replay.BlobId), the
--   tracked keys and capabilities (Replay.Tracker), the loop (Replay.Engine). A TypeError of an
--   unhashable target is an error of the run; every other failed check drops its event.
-- - Recovery (walrusos/engine/recovery.py): the loop over headers, which are dicts, as a state of
--   the SQLite ledger, indexed documents and count. Retrieval, JSON decoding and the text that the
--   database makes of a value are parameters that may fail; each exception that the loop does not
--   catch ends it, the refusal of a repeated id by the ledger included.
-- - Memory (walrusos/engine/memory.py): MemoryEngine as a record of ledger, storage, vector index
--   and epoch counters; append (Memory.Append), read, timeline, replay and verify_event
--   (Memory.Read), create, delete, fork and merge of streams (Memory.Branch), checkpoint,
--   snapshot, resume and restore_snapshot (Memory.Restore). What was written before a raise stays
--   written.
-- - EventStore (walrusos/engine/event_store.py): append over the in-memory adapters, whose events
--   the projections fold, and its steps up to the row of the event over the SQLite ledger
--   (EventStore.Chain), where the latest hash of a workspace is a query of the database.
-- - TimeTravel (walrusos/engine/time_travel.py): lineages, find_lca, fork_stream, merge_streams
--   and project_to_time, over streams of both kinds of event. A memory event has the time at which
--   it is asked for its timestamp, so each reading of a lineage has a clock.
-- - Runtime: the event mesh (walrusos/runtime/event_bus.py) in Runtime.Pattern and Runtime.Mesh,
--   the sessions (walrusos/core/models/session.py) in Runtime.Session, the presence store
--   (walrusos/runtime/presence.py) in Runtime.Presence, the agent registry
--   (walrusos/runtime/registry.py) in Runtime.Registry. A callback is its name, and what is sent
--   to callbacks is a list of calls; each operation that holds a lock is one step.
-- - Coordinator (walrusos/runtime/coordinator.py, walrusos/core/models/coordination.py):
--   decompose, over an answer of the language model that has been read as JSON
--   (Coordinator.Decompose), match_agent, and execute over a plan of tasks. Its rounds are bounded
--   in the source, and the bound is the fuel (Coordinator.Ends). What a run of a task does is a
--   parameter; one that is cancelled from outside is not modelled.
-- - Tasks (walrusos/sdk/task.py, walrusos/core/models/task.py): a task client with its task and
--   the table that it saves the task to.
-- - Sqlite (walrusos/adapters/sqlite_ledger.py): the rows of each table and the database
--   (Sqlite.Tables), streams and memory events (Sqlite.Streams), protocol events
--   (Sqlite.Protocol), agent identities and wrapped keys (Sqlite.Identities), the mappings to Sui
--   objects, manifests and capabilities (Sqlite.Mappings), tasks (Sqlite.Tasks). A table is a dict
--   by its primary key in the order of insertion, in which rows that tie in an ORDER BY stay; a
--   transaction is one step. Sqlite.Log is the abstract view, a log of events by stream
--   (Sqlite.Refine for this ledger, Sqlite.InMemory for the other).
-- - Context (walrusos/engine/token_budget.py, context.py, search.py, summarizer.py and the sort of
--   ranking.py): the token budget (Context.Budget), what a context shows of an event
--   (Context.Entry), the recall context (Context.Recall), the strategies of build_context
--   (Context.Build), the queries of MemorySearch over the in-memory ledger (Context.Search),
--   summaries and checkpoints (Context.Summary). The scores are floats: a comparison of events is
--   a parameter, and so are the ids that the vector index finds, the text of a value and the first
--   sentence of a text.
-- - Sdk (walrusos/sdk/agent.py, walrusos/sdk/stream.py): an agent client with the event store that
--   it shares and the appends that status changes have scheduled (Sdk.Agent), a stream client over
--   the memory engine (Sdk.Stream). The methods that a ledger may lack are optional parameters;
--   the counters and the registration of a SQLite table and the heartbeats to the dashboard are
--   not part of it.
-- - Keys (walrusos/adapters/key_store.py): the table of wrapped keys and the cache, over an
--   abstract cipher, and the header of an encrypted blob over bytes (Keys.Header). The password is
--   a parameter.
-- - Walrus (walrusos/adapters/walrus.py): the retries over an abstract network (Walrus.Network),
--   blobs that are encrypted with a key id or without (Walrus.Crypt), the adapter with chunked
--   uploads and their manifests (Walrus.Adapter). The chunk size is a parameter, of which
--   Walrus.Adapter.chunk_size is the value. A chunk may name a manifest again, so a retrieval has
--   fuel, which stands for the recursion that Python has left; what the adapter stores needs two
--   levels (Walrus.Roundtrip).
-- - Tests: concrete runs and the theorems at concrete inputs.
--
-- Every other loop is a structural recursion over the list that the code iterates over, or over a
-- bound of the source, so no fuel is needed. SHA-256, Ed25519, Base64, hexadecimal and JSON are
-- parameters of the definitions that use them, with no law assumed but where a theorem names one.
-- Logging, locks and network I/O are not modelled, nor are the floating-point scores, the Sui
-- adapters, the rest of the SDK, the command line, the integrations and the dashboard. An
-- exception of the data model's validation is a value_error, as pydantic's is a ValueError.
pub mod Base
pub mod Model
pub mod Projection
pub mod Adapters
pub mod Replay
pub mod Recovery
pub mod Memory
pub mod Runtime
pub mod TimeTravel
pub mod EventStore
pub mod Coordinator
pub mod Tasks
pub mod Sqlite
pub mod Context
pub mod Sdk
pub mod Keys
pub mod Walrus
pub mod Tests
