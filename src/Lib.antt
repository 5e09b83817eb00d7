-- ===== src/Lib.antt =====
-- Verification of the Files Studio backend (the Rust sidecar under backend/src).
--
-- The sidecar answers requests of a host panel and of MCP tools. A request's paths pass the
-- connection's policy before anything reaches the storage engine. The scheduler fires its jobs at
-- the instants of their cron expressions, one run of a task at a time. Archives are read and written
-- by code of the backend itself. A file that is edited locally is watched and uploaded when it was
-- saved. The MCP tools keep their own state: settings, UI intents, cursors over scan results, and
-- one-time tokens that confirm a destructive call.
--
-- Files:
-- * Prelude and its children: Boolean tests, results, lists over the native numbers, and Rust
--   strings as lists of code points with the `str` methods that the sources call.
-- * Policy (backend/src/policy.rs): Segments has the loops of `sanitize` and of the backslash
--   probe; Resolve the policy record, its constructors and `resolve`; Gates the `check_*` methods;
--   Sanitize, Backslash, Confine, Whitelist and Refusals prove them. `resolve` calls itself on a
--   relative spelling at most once, so it has two rounds of fuel.
-- * Cron (backend/src/scheduler/cron.rs): Bits the `u64` masks by recursion on binary digits;
--   Fields the parser; Next the walk of `next_after_in`, over the chrono crate's calendar and time
--   zone as parameters (a naive local time is a count of minutes); Masks, Selection, Meaning, Scan,
--   Earliest and Repeated prove them. The loop over a span's values has `hi + 2` rounds of fuel, which is
--   proved enough; the day walk's bound is the code's own MAX_DAY_STEPS.
-- * Mcp (backend/src/mcp/state.rs, and the argument readers of backend/src/mcp/mod.rs): Lru the
--   ordered table, Settings the limits, Cursors, Confirms and Intents the three tables, Arguments
--   the readers; Table, Limits, Updates, Paging, Reading, Tokens, Survival and Answers prove them.
--   Json is the interface of the serde_json crate. Identifiers (uuid) and the clock are arguments;
--   a mutable reference handed out by a table is the function that the caller applies to it.
-- * Transfers (backend/src/transfers.rs and backend/src/rclone/bytes_channel.rs): Frames the binary
--   frame, Staging the upload's local file, Pump the download loop; Codec, Sequence, Delivery, Slices
--   and Streaming prove them. The outcomes of a write, of the flush and of the upload are arguments;
--   Delivery is about a disk that takes every write. The
--   loop that empties the buffer has one round of fuel for each byte of it, and each round takes
--   256 KiB, so it ends with less than a full buffer, which Streaming proves.
-- * Decisions (backend/src/rclone/list_decision.rs): Cache the memory of directory sizes; Coherence
--   and Bounded prove it. Its eviction loop has as many rounds of fuel as there are entries, which
--   Bounded proves enough.
-- * Store (backend/src/store.rs): Rings the transfer and run histories; Suffix and Runs prove them. A
--   file is its list of records, and an atomic write that fails leaves it as it was.
-- * Globs (backend/src/mcp/tools.rs, `glob_match`): Matching the searches, Meaning what the patterns
--   denote.
-- * Scheduler (backend/src/scheduler/mod.rs and backend/src/scheduler/model.rs): Model the data,
--   Validate the checks on a request, over Cron and Policy, Tasks the operations on stored tasks, Names
--   their proofs. The registry of connections is a parameter. Runs has the claim of a task, the tick
--   and the end of a run, Awaiting the poll of `await_job_terminal`, Driving `drive_run` with its
--   hooks, History the restart, the history and the cancel, and Steps the relation of all that can
--   happen to the scheduler, one step at a time under its locks. Flights and Flying prove the single
--   flight, Due and Ticks the tick, Hydrated the restart, Resync and Awaited the drive of a run. The job
--   starters and the rc call of the retention are the record Engine; the poll's job table is a
--   function of the number of the poll, and its deadline a test on that number. The poll has a round
--   of fuel for each poll; Awaited proves how many are enough where a vanished job stays gone.
-- * Archive (backend/src/archive.rs): Paths the zip-slip guard, Reader the bit reader, Huffman the
--   canonical tables, Inflate the decoder, Gzip the frame, its checksum and the stored writer; Utf8 the
--   standard library's lossy decoder, Fields the fields of a tar header and the PAX records, Blocks and
--   Tar the walker, Writer the headers, Listing the list, the extraction plan and the pages. The walker's own iteration cap
--   is its fuel; a pass over PAX records has one round for each byte, which Headers proves enough.
--   Confined and Drives prove the guard; Masks, Reading and Streams the reader; Tables, Guard, Dynamic,
--   Ends and Bombs that inflating ends and stays within the bomb guard; Stored, Chunks, RoundTrip,
--   Unfinished and Framing the gzip writer against the reader; Headers, Walked and Extracted the safety of the extraction plan, and Overflow,
--   Devices and Pages the rest of the walker; Octal, Layout, Passes and HeaderTrip that a header is read
--   back, and Totals the length of a PAX record, whose loop has 22 rounds of fuel, proved enough. `fill` has the eight rounds that a 64-bit buffer takes, and each loop of
--   the decoder a round for each bit that the input can have left, which is proved enough. A byte is a
--   number below 256; an index out of bounds, where Rust panics, is an error of its own.
--
-- * Editing (backend/src/remote_edit.rs, with the watch loop, the sync-back and the decisions of
--   backend/src/main.rs): Watch the session and its steps; Gate and Settling prove them. A poll's stat of
--   the local copy and the outcome of an upload are arguments.
--
-- Not modelled: streamed listings, directory jobs, mounts, the local copies of remote editing, and the
-- rest of the MCP tools; processes, sockets, HTTP and the operating system's calls are input and
-- output, and the host's events and the audit log are output.
--
-- Texts in error messages are not modelled: an error is a constructor that names its cause.
pub mod Prelude
pub mod Policy
pub mod Cron
pub mod Mcp
pub mod Transfers
pub mod Decisions
pub mod Store
pub mod Globs
pub mod Scheduler
pub mod Archive
pub mod Editing
