-- ===== src/Lib.antt =====
-- Verification of jupynvim's Rust backend: the in-process library `libjupynvim`
-- (core/native/src) and the backend process `jupynvim-core` (core/src).
--
-- Parts and files:
--   Abi            core/native/src/abi.rs: status codes and job kinds.
--   Wake           core/native/src/wake.rs: the wake socket, one function per atomic section.
--   Pool           core/native/src/pool.rs: the data of the worker pool, the lanes, `take_inbox`,
--                  `pop`, `claim` and the search of `cancel`; Pool/Submit: the checks of `submit`
--                  and the worker count; Pool/Accepts: what they let in; Pool/Threads: what a
--                  worker and a caller do in one atomic section; Pool/System: all threads
--                  interleaved, as a step relation.
--   Jobs           core/native/src/jobs.rs: what a worker runs for a kind, with Jobs/Words, Fill and
--                  Sleep about its parts.
--   Gate           core/src/writes.rs: the gate that the exit closes, with its threads.
--   Guard          core/src/guard.rs: the lines to the guard process and what it does with them;
--                  Guard/Decimal and Guard/Line: the backend's text; Guard/Respawn: the limit on
--                  starts; Guard/Backend: the backend's calls, with what the system answers as an
--                  argument; Guard/Told, Sync, Promise: what the guard knows.
--   Notebook       core/src/notebook.rs: a cell from and to JSON; Notebook/Source: its source;
--                  Notebook/Maps: what is relied on of serde_json (a parameter) and the loops over a
--                  map's entries; Notebook/Cells, RoundTrip: saved cells; Notebook/Sample: a small
--                  JSON that has the laws.
--   Protocol       core/src/protocol.rs: messages as frames, with the JSON texts and the HMAC as
--                  parameters; Protocol/Frames: what frames prove of a message.
--   Session        core/src/session.rs: the calls that change the list of cells; Session/Places:
--                  which cells are where afterwards.
--   Math           core/native/src/mathgrammar: jsstr.rs, the helpers on bytes, with lemmas in
--                  Math/Bytes. Math/Fences and Math/Blocks: blocks.rs, the segments of a source;
--                  Blocks/Lines and Cover: where they lie. Math/Output: maths, edits and placeholders. Math/Delims and
--                  Dollars: the searches of scan.rs; Math/Scan: its state and steps, with
--                  Scan/Bounds, Places, Asked, Escapes, Spans and Refines about what it writes. Math/Lookahead: the
--                  lists and walks of index.rs, with Lookahead/Bound; Math/Index: its questions and
--                  memos, with Index/Doubled, Walks, Runs, Blanks and Right. Math/Pieces: what any output is
--                  made of. Math/Document: mod.rs, a source as a whole, with Document/Refines,
--                  Shown, Restore, Order and Offsets.
--   Palette        core/native/src/palette/wire.rs: the lines of a derive request, with the names of
--                  rules.rs in Palette/Names; Palette/Blame: what an error names; Palette/Once: the
--                  line of the kind.
--
-- Interfaces. A scan asks the index of its segment, `SegIndex`; what the index says of environments
-- is the record `EnvIndex`, of a function and of the law that an end lies behind its place and in
-- the segment. A text is the list of its bytes: the code cuts it at ASCII bytes only, so its
-- conversions from UTF-8 change nothing.
--
-- Concurrency. A thread is a program counter; a step is one atomic section: an operation on an
-- atomic that other threads read without a lock, or what a thread does under a mutex between two
-- such operations. Every interleaving of these steps is allowed. Sections under the pool's mutex
-- that touch two such atomics are one step too: `look_for_job` swaps the inbox and, with a job
-- found, stores `waking`. A submit that reads `waking` between the two is no interleaving of its
-- own: the store never makes it smaller, and a submit that read 0 looks at the count again under
-- the mutex, so it goes on as one that read it after the store. `close_locked` stores `closed` and
-- swaps the inbox: a submit that reads the one between the two is as one after both, and one that
-- pushes there as one before both. A condition variable may let a
-- waiting worker go with no notify, and `notify_one` may choose any waiting worker.
--
-- Numbers are the native ones. A job id wraps at 2^64 as `fetch_add` does; counters that the code
-- keeps in `usize` and that count threads or list entries do not wrap. The sum of a cell's place and
-- the distance of its move wraps as an `i64` of the release profile does.
--
-- Not modelled: the socket, thread creation and the timing of waits (a wait may end at any time);
-- what a job computes enters the pool as an outcome that the environment chooses. Of the other
-- parts, connection files (core/src/connfile.rs), kernel specs, the kernel process, widgets, images,
-- the RPC handlers (core/src/rpc), the palette's colours and registry (core/native/src/palette) and,
-- of the math pass, the environment index and the preparation of TeX
-- (core/native/src/mathgrammar/ams.rs, macros.rs) are left out, and so is all input and output.
-- serde_json's values, the HMAC, `from_utf8` and the operating system's answers are parameters.
--
-- Fuel. The loops of `fill` and `sleep` take a number of rounds; the theorems about them show that
-- one round per byte and per millisecond is enough. A round of `print` handles a decimal digit. The
-- loops of the math pass move on by a byte or a line in each round, and take as many rounds as there
-- are bytes or lines; theorems about the block pass and the scan show that this is enough.
pub mod Prelude
pub mod Gate
pub mod Guard
pub mod Abi
pub mod Wake
pub mod Pool
pub mod Jobs
pub mod Notebook
pub mod Protocol
pub mod Session
pub mod Math
pub mod Palette
