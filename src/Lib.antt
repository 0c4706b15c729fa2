-- ===== src/Lib.antt =====
-- A verification library for durastream: append-only, durable record streams in files, with a
-- SQLite table of metadata.
--
-- The program's parts, and the files that model them (paths from the repository's root):
--   src/durastream/codec.py: Codec (pack_frame, iter_frames; the struct format ">II" as pack_u32,
--   header_pack and header_unpack) and Token (to_token, from_token).
--   src/durastream/errors.py: Errors. An exception is a value of Error; a call that may raise
--   returns a Result.
--   src/durastream/utils.py: Names (check_name as a full match of its character class; the path
--   of a log, of store.py, with os.path.join).
--   src/durastream/stream.py: Scan (_scan), Disk (_write_all and the system calls under it) and
--   Stream (the class DurableStream): Stream/Defs has the object, the machine that a method runs
--   on and _recover; Stream/Write has append, append_many, close and the listeners; Stream/Read
--   has read and the rounds of subscribe; Stream/History has the life of a log as steps, with
--   ends of processes and crashes of the machine, and Stream/Follow the generator subscribe among
--   the other methods, cut at its reads, tests and waits.
--   src/durastream/store.py: Meta (the table of streams, and the statements that the program
--   executes on it), Dict (the dictionary of open streams, and a directory) and Store: Store.antt
--   has the world that a store runs in (objects, directory entries, inodes with a lock each, open
--   files), Store/Files has _try_lock, _lock_for_removal, _remove_if_exists, _fsync_dir and the
--   choice of a handle's role in DurableStream.__init__, Store/Ops what the methods share, and
--   Store/Methods __init__, create, open (open_existing here), delete, list and close;
--   Store/System has several stores over the same files.
--   src/durastream/aio.py: Sub (_Sub, and one round of the loop of AsyncDurableStream.subscribe
--   as turn; Sub/InOrder has the steps of the generator and of the tasks beside it, and
--   Sub/Asleep those of the deliveries that wake it), Hub (_Hub), Wait (AsyncDurableStream.wait),
--   Async (AsyncDurableStream.read, and AsyncStore) and Batch (AsyncBatchWriter).
--   demos/work_queue.py: WorkQueue (run_worker, and the checkpoint that it keeps).
--   demos/fastapi_resume.py: Resume (generate, and the generator sse_stream for one connection,
--   with the bytes that it yields). json.dumps, and whether a record decodes as a text, are
--   parameters.
--   demos/restart_stream.py: Restart (main, over the log of its stream, and append_range of
--   demos/utils.py).
--   demos/ledger.py: Ledger (event, apply, and the loops of main). json is a parameter in
--   WorkQueue and in Ledger, with the law in the ledger that what is dumped is loaded again.
--
-- How they interact. A stream packs the payloads of a batch into frames (Codec), writes them to
-- the end of its log and syncs it (Disk), and only then extends its index and tells its
-- listeners; if a write or a sync fails it cuts the log back, and if that fails too it closes
-- itself. Opening a log scans it for intact frames (Scan), and the owner cuts off what stands
-- behind them. A close is written to the table of streams (Meta) before it shows in memory.
--
-- How the code is modelled:
--   Python's int is without a bound. str and int, of to_token and from_token, refuse more than
--   4300 digits, as the interpreter does by default. The checkpoint of WorkQueue is written and
--   read without that limit: it is a number of records of one log.
--   A method is a function from the machine it runs on (the object, its log file, the table, the
--   answers that the system will give, the process id, the calls of listeners so far) to its
--   result and the machine changed; what was changed before a raise stays changed.
--   The operating system's answers are a list that is given: each call takes one, which lets it
--   succeed, makes a write or a read short, or makes it raise an OSError; past the end of the
--   list calls succeed. So a theorem for every machine is one for every run of the system. A
--   LogFile has the bytes written and, apart from them, the first bytes that are known to survive
--   a crash: a sync makes all durable, a cut keeps the durable bytes that it leaves.
--   zlib.crc32 is not part of the repository: it is the parameter Codec.Zlib, a function from
--   byte strings to numbers below 2 ^ 32. Codec/Crc32 is a checksum that meets it, for tests.
--   Bytes and code points are natural numbers; a file of bytes is said to hold numbers below 256
--   (AreBytes) where a proof needs it. An offset is a signed integer. Texts are lists of code
--   points.
--   The loops of iter_frames and _scan run on fuel, the number of bytes: a round moves on by
--   eight bytes at least. The loop of run_worker runs on the number of records: a round reads one
--   at least. The loop of append_range runs on the number of records that it is asked for: a
--   batch has one at least. The decimal digits of n run on n + 1. The loops of _write_all and
--   read recur on the list of answers.
--   The lock of a stream is held for a whole method, so a method is one step; waking threads that
--   wait changes no state. The store's lock is held likewise.
--   The coroutines of aio.py are cut at their awaits and yields into steps, and the steps of all
--   tasks may come in any order. A read of the disk returns the durable records of that moment.
--   In Sub/InOrder a sleeping generator may go on at any time; in Sub/Asleep it does once its
--   event is set, and the deliveries that are under way are kept, from the notification on. In
--   Wait a step is one read or write of what the coroutine shares with other threads. In Batch a
--   caller that is cancelled once waits for its append all the same; one that is cancelled again,
--   or whose append's own task is cancelled, gives its batch up: the lock is let go, the batch
--   does not come back, and a thread may still append it.
--   In Stream/History and Stream/Follow a step is a method of one object, or what happens to its
--   log and its file. In Resume the generator's steps end at its reads, tests and yields, and the
--   client may leave at any of them; the wait may end at any time.
--   In Store/System a step is one call of one store, or of a method of one of its streams; the
--   stores have their own dictionary, connection and process, and share objects, files and locks.
--   In a store, objects, inodes and open files are numbers. Closing a file lets its lock go; an
--   object that __init__ fails to build is dropped, and its file is closed. The world says
--   whether fcntl exists, whether the file system has flock, and whether it is read-only.
--
-- The proofs are in the modules below each part: Codec/Decode (what bytes decode to),
-- Codec/Frames and Codec/Sound (both ways of the round trip), Token/Scanned, RoundTrip and Order,
-- Disk/Laws, Stream/Holds (the invariant: the index and the log of a stream that holds given
-- records), Stream/Commit, Append, Fetch, Range, Recover, Crash, Outcome, Told, Close and Tail;
-- Sub/View (the buffer is a part of the stream) and Sub/InOrder; Batch/Kept; Sub/Wake and
-- Sub/Asleep; Hub/Listens and Hub/OneListener; Wait/Woken and Wait/Missed; Async/Reading and
-- Async/Hubs; Store/Registry, Store/Keeps, Store/Removal, Store/Unlinked (a name that has gone
-- stays gone until it is assigned) and Store/Fresh (Store/Fresh/Empty: a file without an entry is
-- opened empty); Stream/Firm (every method keeps a durable beginning of the log),
-- Stream/History/Safe and Acked, Stream/Follow/Drained (with Stream/Shut: a closed stream takes
-- no append, and stays closed); WorkQueue/Seen, Checkpoint, Drain and AtLeastOnce; Ledger/Balance
-- and Audit; Resume/Sending (what the yielded bytes are), Going, InOrder and Generated;
-- Restart/Records, Opened and Survive; Stream/Whole and Calm; Stream/Silent; Stream/Role and
-- Store/Locks (the invariant of objects, files and locks, and that the methods keep it), with
-- Store/System/OneWriter and Refused.
--
-- Not modelled: a process that forks with streams open; two threads inside one store, whose lock
-- lets in one at a time; the methods of aio.py that only hand a call to a thread, which are that
-- call; the page of the chat (demos/resume.html) and the EventSource of the browser, so what a
-- client makes of the bytes that it gets; the other demos and the main programs, the benchmark
-- and the tests of the repository.
pub mod Async
pub mod Common
pub mod Errors
pub mod Sub
pub mod Hub
pub mod Wait
pub mod Batch
pub mod Dict
pub mod Store
pub mod Texts
pub mod Names
pub mod Resume
pub mod Restart
pub mod Token
pub mod Codec
pub mod Scan
pub mod Exec
pub mod Disk
pub mod Meta
pub mod Stream
pub mod Examples
pub mod WorkQueue
pub mod Ledger
