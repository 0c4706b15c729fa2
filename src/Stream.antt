-- ===== src/Stream.antt =====
-- `DurableStream` of src/durastream/stream.py: a stream over its log file. A method takes the machine
-- that it runs on and returns it changed, beside its result. `_lock` and `_cond` are held for a whole
-- method, so methods are single steps here; waking waiting threads changes no state.
pub mod Silent
pub mod Shut
pub mod Whole
pub mod Calm
pub mod Follow
pub mod History
pub mod Firm
pub mod Role
pub mod Defs
pub mod Read
pub mod Write
pub mod Holds
pub mod Commit
pub mod Append
pub mod Fetch
pub mod Range
pub mod Recover
pub mod Crash
pub mod Outcome
pub mod Told
pub mod Close
pub mod Tail
mod Tests
