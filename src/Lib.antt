-- ===== src/Lib.antt =====
-- WSARB, a proxy that takes the same feed from several redundant sources over websockets and
-- passes it on to its clients. This library models the proxy's decisions; the results are listed
-- at the end of this comment.
--
-- The parts, and the files that model them:
--
-- * `SubKey` (src/state.rs): what a client subscribes to. `normalized` gives the one spelling that
--   the request and the frames meet under; `label` is what the log prints.
-- * `Entry` (src/state.rs, `SubEntry` and the `match` of `on_update`): the arbitration of one key.
--   A `Seq` says how a frame orders: `Point` and `Lead` by stamp, `Sticky` by the one source that
--   is followed, `Block` by the position within a block that the sources race for, and `Snapshot`.
--   `arbitrate` gives the new entry and a `Verdict`. `Mask` has the bit masks of sources.
-- * `Hub` (src/state.rs, `AppState`): the shared state. `Hub/Registry` has the subscriptions and
--   what the sources are told of them, `Hub/Update` the way of a frame or a snapshot to the
--   clients, `Hub/Recovery` the loss of a source. An operation takes the state and gives the new
--   one; `Hub/Reach` has every sequence of them as a relation, and `Hub/Members` sets the clients
--   on an entry beside what each client holds. `Hub/Flight` splits `on_update` and
--   `deliver_snapshot` where they release the entry's lock; in `Hub/Interleaved` several tasks are
--   behind that point at once, and do what is left in any order. Every other operation runs whole,
--   but for `detach` in `Hub/Erased`, which is split where it releases the lock.
-- * `Upstream` (src/upstream.rs): a frame's fields, its route to a key, and the gates on its time;
--   `Upstream/Connection` the events of a connection and its backoff, `Upstream/Wire` what is sent
--   on one in the course of its life, `Upstream/Fetch` the sources asked for a snapshot. It calls
--   `on_update`, `deliver_snapshot` and `resync_after_source_loss`.
-- * `Session` (src/client.rs): a client's requests, and in `Session/Socket` the life of its
--   connection. It calls `subscribe`, `unsubscribe` and `cleanup_client`.
-- * `Startup` (src/main.rs): the arguments, and the state that the program starts with.
-- * `Watch` (src/main.rs): the task that runs every five seconds.
-- * `Stats` and `Page` (src/stats.rs): a source's counters, and of the page some texts, the tags of
--   the clients' subscriptions and the peer that leads the race.
-- * `LoadTest` (src/bin/loadtest.rs): the measurements of one subscription; `LoadTest/Args` and
--   `LoadTest/Plan` what a run is asked for and how it lays out its connections and slots,
--   `LoadTest/Arrivals` what a connection records of what it reads, `LoadTest/Sweep` the pass
--   that compares the connections, `LoadTest/Rows` and `LoadTest/Notes` two parts of the report,
--   and `LoadTest/Outcome` whether the run passes. They share the maps of the frames and of the blocks.
-- * `Base` has what they share: texts as bytes, maps as association lists, bits, lists and tests.
--   `Tests` applies each result to a concrete input.
--
-- How the code is read. An `Instant` or a `Duration` is its nanoseconds and a wall-clock time its
-- milliseconds. A counter of u32 or u64 wraps, as in a release build. A string is its UTF-8 bytes,
-- and a slice off a character's boundary is `none`, the panic. A `DashMap` is an association list,
-- visited in its order. An `Arc<Client>` is an id, with the object in a heap; `notify_one` sets a
-- flag; what was sent to `ctrl_tx` is a list.
--
-- Parameters, since they are not of this code: `try_send` and the channel of tokio (with the
-- law of a first-in first-out queue where a theorem needs it), the parser and the printer of
-- serde_json, the clocks, the attempt at a snapshot from one source, and floating point.
--
-- Two functions run on fuel: `decimal`, which prints a number n in at most n + 1 rounds, and
-- `chunks_of`, which has a round for each element and takes at least one element in each.
--
-- Not modelled: sockets, tasks and timeouts, so that an attempt at a snapshot ends is assumed;
-- interleavings while an entry is locked, which the lock excludes; those in the middle of an
-- operation that takes several locks in turn, or goes on after it has released one, but for the
-- two above and `detach`: `subscribe` and `pin` broadcast after the release, `unsubscribe` forgets
-- the key before it takes the entry, and `cleanup_client` takes one entry after another; log
-- lines, but for the panic of a label in a client's request; the JSON text of keys and frames;
-- HTTP, and the statistics page but for its own texts; the connecting and the subscribing of the
-- load test, and of its report what is only printed; the scripts under tools.
pub mod Base
pub mod Entry
pub mod Hub
pub mod LoadTest
pub mod Mask
pub mod Page
pub mod Session
pub mod Startup
pub mod Stats
pub mod SubKey
pub mod Tests
pub mod Upstream
pub mod Watch
