-- ===== src/Lib.antt =====
-- keylens: a terminal browser for Redis keyspaces with a lens for BullMQ queues. The program has a
-- worker task that owns the connection and the scan cursor, and a UI task that owns the key tree,
-- the selection and the panes; they exchange messages over bounded channels, and a reader task adds
-- the events of the watched queues.
--
-- Base: shared notation, lists, signed integers, texts as lists of code points, and the operations
--   of Rust's `str` that the program calls: `split`, `split_once`, `rfind`, `strip_prefix`, and in
--   Base/Lines and Base/Decimal `lines`, `trim`, the case of ASCII letters, `parse` and `to_string`.
-- Conn: crates/keylens-conn. Conn/Reply has the data types of src/value.rs, src/stream.rs,
--   src/server_info.rs and src/server.rs. Conn/Value is the client's reply, with
--   `display_string`; Conn/Error is src/error.rs, Conn/Capability src/capability.rs. Of src/conn.rs,
--   Conn/Command has the allowlist, `cmd`, `execute` and `pipeline`, Conn/Scan `scan_page` and
--   `KeyScanner`, Conn/Probe the probes and Conn/Connect what a new connection makes of them. Of
--   src/value.rs, Conn/Kind has `Kind`, Conn/Decode the decoding of replies and Conn/Read `key_head`,
--   `read_key` and `read_value`. Conn/Info is src/server_info.rs (`parse_info` is
--   `ServerInfo::parse`), Conn/Server src/server.rs (`read_slowlog` is `Conn::slowlog`, and the other
--   reads likewise) with the texts it parses in Conn/Listings, Conn/Stream src/stream.rs. Conn/Url
--   is src/url.rs (`redact_url`, `redact_authority`).
-- Ui: crates/keylens-ui. Ui/Tree is `KeyTree` of src/tree.rs, Ui/Tree/Rows its `rows`, `walk` and
--   `expand_all`; Ui/Pane is src/pane.rs; Ui/Format is part of src/format.rs.
-- Lens: `Detection` of crates/keylens-lens/src/lib.rs.
-- BullMq: crates/lenses/keylens-bullmq. BullMq/Events is `Series` of src/events.rs
--   (`record_event` is `Series::record`), BullMq/Events/Throughput its `Throughput`; BullMq/Keys is
--   src/keys.rs; BullMq/Job the data of src/job.rs and src/lens.rs; BullMq/Fields the parsing of a
--   job; BullMq/Lens, BullMq/Jobs and BullMq/Detect the operations of src/lens.rs.
-- Worker: crates/keylens/src/worker.rs. Worker is the worker with the batches of a scan (`gather` is
--   the loop of `scan_batch`) and `type_keys`, Worker/Requests one turn of `run` for each request.
-- App: crates/keylens/src/app.rs with the messages of crates/keylens/src/worker.rs. A function of
--   the model has the name of the method; `App/Ops` holds the accessors and the sending of
--   requests, `App/Apply` the updates, `App/Load` the loading of tabs, `App/Queues`, `App/Keys` and
--   `App/Handle` the keys. A handler's `match` on a key is a function to the type of its arms,
--   followed by a function on the arms.
-- Reader: `parse_xread`, `retry_delay` and the loop of `run` in crates/keylens/src/events.rs, and
--   `entry_id_ms` of the lens. The reads are a sequence of replies and errors, each with whether the
--   UI still receives.
--
-- Code that talks to the server is a `Program` (Conn/Program): a tree of commands and batches, each
-- followed by a function of what comes back, so that a statement on every tree of commands holds
-- whatever the server answers. `run` evaluates a program against a server that answers a command
-- always the same. Commands sent together under `join!` or in chunks of 64 are put in one order. A
-- scanner of keys is the list of the pages and errors that it will yield; where the worker or the
-- lens makes a new one, that list is an argument. A spawned task is named by what it runs and a
-- number.
--
-- The client package is the record `Client` of Conn/Value: its conversions of a value, with the one
-- law that a text converts to itself. `Json` of BullMq/Fields is what serde_json makes of a text.
-- `Display` of an error is an argument of the worker.
--
-- State is passed in and returned. The sending half of tokio's channel is the record `Channel`: it
-- accepts a request behind the earlier ones, or hands it back. The keys of crossterm are `KeyCode`,
-- with the variants that the program names and one for the rest. A map or a set is the list of its
-- entries, kept in order where the source's is a tree. `usize` and `u64` counters are unbounded,
-- where a bound is not part of the operation: page bounds are checked against an `i64`, parsed
-- numbers against their type, scroll offsets saturate at 16 bits, cursor steps at 64. An `f64` that
-- is only carried along is its bits. An enum's constructors have the source's names, with a suffix
-- where another name in scope needs it.
--
-- `walk` takes fuel, since it continues at the node that folding has led to; `rows` gives it the
-- height of the tree. `digits` has `n + 1` steps for `n`, more than it has digits. `type_chunks`
-- takes the number of keys, no less than the number of chunks, and `gather` the pages that a batch
-- may still read.
--
-- Not modelled: drawing, the configuration of the client and the deadline of a handshake, the latency
-- it measures, `xread`, the abort of tasks when the worker is dropped, the tests of the reader before
-- it attaches, configuration and start-up, and computations on floats (rates, sparklines, meters, the
-- hit rate). `list_state` of the application belongs to the renderer.
pub mod Base
pub mod Conn
pub mod Ui
pub mod Lens
pub mod BullMq
pub mod App
pub mod Reader
pub mod Worker
