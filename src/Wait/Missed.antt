-- ===== src/Wait/Missed.antt =====
-- What `wait` does not promise.
use durastream.Common.{ℕ, suc, ◌+◌, true, false}
use durastream.Wait.{Wait, at_loop, at_closed}

-- an empty stream that is open
abbrev first : Wait
first = record {
  next_offset = 0;
  closed = false;
  flights = 0;
  event = false;
  seen = 0;
  place = at_loop;
}

abbrev looked : Wait
looked = record first { place = at_closed }

-- the stream gets its records up to the offset and one more, and is closed
abbrev overtaken : ℕ → Wait
overtaken offset = record looked { next_offset = 0 + suc offset; closed = true; flights = 2 }
