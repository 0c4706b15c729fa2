-- ===== src/Batch.antt =====
-- `AsyncBatchWriter` of src/durastream/aio.py: its methods, cut at the places where other tasks may run.
-- A caller that is cancelled once waits for its append all the same; one that is cancelled again while it
-- waits, or whose append's own task is cancelled, gives the batch up (`give_up`).
pub mod Kept
mod Tests
use durastream.Common.{
  ℕ, ◌≡◌, Bool, true, false, Option, none, some, List, [], ◌∷◌, ◌++◌, Bytes, if◌then◌else◌,
}
use durastream.Errors.{Error, Result, ok, err, durastream_error}
use durastream.Exec.{Exec, pure, raise, ◌>>◌}

-- `timer` tells that a task sleeps and will flush.
pub record Writer : Type 0 where
  pub buf : List Bytes
  pub timer : Bool
  pub error : Option Error
  pub closed : Bool

abbrev pub new_writer : Writer
new_writer = record { buf = []; timer = false; error = none; closed = false }

-- A writer, the batch whose append is under way (the lock is held while there is one), the records
-- that its stream has appended, the payloads of the writes that returned, and the batches that were given
-- up, each of which a thread may still append.
pub record Batcher : Type 0 where
  pub self : Writer
  pub batch : List Bytes
  pub appended : List Bytes
  pub written : List Bytes
  pub given_up : List (List Bytes)

-- The error of a flush in the background is raised once.
abbrev pub raise_error : Option Error → Exec Writer (Unit {0})
raise_error none w = (ok tt, w)
raise_error (some e) w = (err e, record w { error = none })

unfoldable pub raise_pending : Exec Writer (Unit {0})
raise_pending w = raise_error w.error w

abbrev pub put : Bytes → Exec Writer (Unit {0})
put payload w =
    if w.closed
    then (err durastream_error, w)
    else (ok tt, record w { buf = w.buf ++ payload ∷ []; timer = true })

unfoldable pub write : Bytes → Exec Writer (Unit {0})
unfolding raise_pending
write payload = raise_pending >> put payload

-- The lock is taken, and the buffer with it; an empty batch is not appended, and the lock let go.
unfoldable pub take_batch : Batcher → Batcher
take_batch b = record b { self = record b.self { buf = [] }; batch = b.self.buf }

-- The end of `_append`: a batch that was not appended goes back to the front of the buffer.
unfoldable pub append_done : Result ℕ → Batcher → Batcher
append_done (ok end) b = record b { batch = []; appended = b.appended ++ b.batch }
append_done (err e) b = record b {
  self = record b.self { buf = b.batch ++ b.self.buf };
  batch = [];
}

-- The end of `_append` where the wait for the append is cancelled, or the task of the append was: the lock
-- is let go, and the batch is not put back, whatever becomes of it.
unfoldable pub give_up : Batcher → Batcher
give_up b = record b { batch = []; given_up = b.given_up ++ b.batch ∷ [] }

-- The thread of a batch that was given up appends it.
unfoldable pub append_given_up : List Bytes → Batcher → Batcher
append_given_up batch b = record b { appended = b.appended ++ batch }

-- The `except` of `_flush_later`.
abbrev pub keep_error : Result ℕ → Writer → Writer
keep_error (ok end) w = w
keep_error (err e) w = record w { error = some e }

-- The timer fires: from here on `close` lets this flush finish.
unfoldable pub flush_later : Writer → Writer
flush_later w = record w { timer = false }

-- `close` up to its flush, and after it.
unfoldable pub close_begin : Writer → Writer
close_begin w = record w { timer = false }

unfoldable pub close_end : Writer → Writer
close_end w = record w { closed = true }

-- The payload of a write that returned.
abbrev pub add_written : Bytes → Batcher → Result (Unit {0}) × Writer → Batcher
add_written payload b (ok _, w) = record b { self = w; written = b.written ++ payload ∷ [] }
add_written payload b (err e, w) = record b { self = w }

abbrev pub write_in : Bytes → Batcher → Batcher
write_in payload b = add_written payload b (write payload b.self)

abbrev pub writes_in : List Bytes → Batcher → Batcher
writes_in [] b = b
writes_in (p ∷ payloads) b = writes_in payloads (write_in p b)

abbrev pub with_self : (Writer → Writer) → Batcher → Batcher
with_self f b = record b { self = f b.self }

-- The steps of a writer's tasks. `append_done` is not told to the caller of a background flush, but kept.
pub data Step : Batcher → Batcher → Type 0 where
  write_returned : (payload : Bytes) (b : Batcher) → Step b (write_in payload b)
  flush_entered : (b : Batcher) → Step b (with_self (λ w. (raise_pending w).1) b)
  locked : (b : Batcher) → b.batch ≡ [] → Step b (take_batch b)
  append_returned : (r : Result ℕ) (b : Batcher) → Step b (append_done r b)
  append_later_returned :
      (r : Result ℕ) (b : Batcher) → Step b (with_self (keep_error r) (append_done r b))
  cancelled_again : (b : Batcher) → Step b (give_up b)
  appended_late :
      (before after : List (List Bytes)) (batch : List Bytes) (b : Batcher)
      → b.given_up ≡ before ++ batch ∷ after
      → Step b (append_given_up batch b)
  timer_fired : (b : Batcher) → Step b (with_self flush_later b)
  closing : (b : Batcher) → Step b (with_self close_begin b)
  stopped : (b : Batcher) → Step b (with_self close_end b)

pub data Reached : Batcher → Type 0 where
  created :
      Reached (record { self = new_writer; batch = []; appended = []; written = []; given_up = [] })
  then_step : (b c : Batcher) → Reached b → Step b c → Reached c
