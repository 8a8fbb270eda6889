-- ===== src/Lib.antt =====
-- A verification library of vcd_tools_rs, a tool set that answers queries on VCD waveform files.
--
-- The program reads the header of a file into a catalogue of signals (`catalog.rs`), and answers a
-- query by one pass over the body: `query/stream.rs` resolves the requested names to identifier
-- codes and yields the changes of these codes in a time window, and `query/extract.rs` expands
-- each change to one row for each requested name. A query runs under limits, a deadline and a
-- cancellation flag (`query/mod.rs`) and against one generation of the file (`opened/mod.rs`).
-- `lib.rs` holds the values, the errors and an older iterator that reads a file by its path.
--
-- The files, and what they are about (paths from the repository's root):
--   Prelude       shared types, tests on numbers, lists, maps as association lists, `Result`.
--   Errors        `VcdError` of src/lib.rs, `QueryError` of src/query/mod.rs, `is_generation_mismatch`
--                 of src/opened/identity.rs.
--   Value         src/lib.rs: `ChangeValue`, `TargetValue`, `TimeWindow`, parsing and formatting.
--   Vcd           src/lib.rs: what the parser yields, `command_to_change_value`.
--   Catalog       src/catalog.rs: `CatalogBuilder`, `SignalCatalog`.
--   Index         src/lib.rs: `SignalIndex`, `build_target_map`.
--   Query         src/query: Context is mod.rs, Stream is stream.rs, Extract is extract.rs, and
--                 Extract/Legacy is `TimeValueIter` of src/lib.rs; Opened is the part of
--                 src/opened/mod.rs that queries read; Exec is `&mut self` with `QueryResult`.
--                 Find and Toggles are src/query/ops.rs, Metadata the scan of
--                 src/opened/mod.rs and `compute_time_bounds` of src/lib.rs, Compare is
--                 src/query/compare.rs, with its trait `TimelineProvider` as a record.
--   Server        src/server. Of protocol.rs: Utf8 and Lines are `JsonLineAccumulator` with its UTF-8
--                 decoding, Protocol the errors and their bounds, Request the requests, their
--                 encoder and `decode_request` (Take, Decode), Frames the response frames and
--                 `end_success`; Json is `serde_json::Value`, Answer the operator `?`. Output is
--                 `OutputSink` of runtime.rs with the end of `worker_loop`, Stream `StreamOutput`
--                 of service.rs with the chunks of a visit, Service its `ServiceConfig` and the
--                 contexts of its queries, and Runtime the rest of runtime.rs: `RuntimeConfig`,
--                 `ConnectionState` and the loop over the lines of a connection.
--   Tests         the library at concrete inputs.
--
-- How the code is read. A `&mut self` method is a function from the state to its result and the new
-- state. A loop over the parser is recursion on the list of what the parser has still to yield. The
-- clock, the cancellation flag and the file change while a query runs: each look at them has a
-- number, a moment, and a state carries the number of its next look, so every behaviour of the
-- surroundings is a `World` and a flag that depend on the moment. Machine integers are natural
-- numbers, with saturation and wrap-around written out; a `u64` that the parser or the caller hands
-- in is a natural number. A `String` is a list of characters.
--
-- Parameters. The `vcd` crate's parser is the list of items that it yields, and its `Display` is the
-- record VcdDisplay. The text of an `f64` and `str::to_lowercase` outside ASCII are the record
-- Formats. The validation of the file against its opened generation is `validate` of World. What
-- the parser yields is the `body` of the query, also where the file is changed while it is read: it
-- is the body of the opened generation only if a validation behind it succeeds.
--
-- Fuel. `collect_rows` and `collect_legacy` stand for `collect()` on an iterator and take fuel; a
-- round for each row that may come and one more is enough: one more than the number of commands
-- times the number of requested names. `find_loop` and `toggles_loop` take the same fuel;
-- `timeline_loop` takes one more than the entries of both timelines. `send_rows_split` takes the
-- number of the rows as the bound on its depth. The sending loops of the server end by the clock:
-- they are recursion on the list of the rounds that they make before.
--
-- The server. The chunks that a connection reads go through `read_chunks` and `push_bytes`, a line
-- through the JSON parser and `decode_request_with_active`; the dispatcher answers by frames, which
-- `send_frame` checks against the lifecycle of the response, encodes within the bound and hands to
-- the queue of the writer; `conclude` is what the worker does
-- after it. A round of a sending loop is an `Attempt`: what the check of the context gives, whether
-- another thread has disconnected, and what `try_send` answers; all of it is arbitrary. What
-- serde_json writes for a frame is a parameter: the list of its writes, or the bytes.
--
-- Not modelled: the implementations of `TimelineProvider`, the metadata cache, the JSON parser
-- of the protocol and the wire forms of values and results, the queue of the scheduler, the
-- permits of scans and connections (src/server/runtime.rs), the handlers of the requests but
-- for their streams and limits (src/server/service.rs), the header scan, the parser itself, files and
-- their identity (src/opened/identity.rs), the FST backend (src/opened/fst.rs,
-- src/opened/waveform.rs), sockets (src/server/listener.rs, app.rs), the command line
-- (src/main.rs), the Python bindings (src/python.rs) and src/bin/vcd2trace.rs.
pub mod Prelude
pub mod Value
pub mod Errors
pub mod Vcd
pub mod Catalog
pub mod Index
pub mod Query
pub mod Server
pub mod Tests
