-- ===== src/Wait.antt =====
-- `AsyncDurableStream.wait` of src/durastream/aio.py, between the threads that append and close and the
-- event loop that delivers. That it joins its hub first and leaves it last is Hub's part.
pub mod Missed
mod Tests
pub mod Woken
use durastream.Common.{ℕ, suc, ◌+◌, ◌<◌, ◌≡◌, Bool, true, false, leb, if◌then◌else◌, ◌⊎◌}
use durastream.Common.Int.{ℤ, pos, lebℤ}

-- Where the coroutine is: before the test of the loop, before the test of `closed`, before the clearing
-- of the event, before each of the two tests after it, in the wait for the event, and at the end.
pub data Place : Type 0 where
  at_loop at_closed at_clear at_retest at_retest_closed asleep : Place
  returned : Bool → Place

-- `flights` is the number of deliveries under way, those included that the writer's thread is about to
-- post; `seen` is what the test of the loop read last.
pub record Wait : Type 0 where
  pub next_offset : ℕ
  pub closed : Bool
  pub flights : ℕ
  pub event : Bool
  pub seen : ℕ
  pub place : Place

abbrev pub move : Place → Wait → Wait
move p w = record w { place = p }

-- The coroutine's next read or write of what it shares with other threads.
abbrev pub go_from : Place → ℤ → Wait → Wait
go_from at_loop offset w =
    let w' = record w { seen = w.next_offset } in
    if lebℤ (pos w.next_offset) offset then move at_closed w' else move (returned true) w'
go_from at_closed offset w = if w.closed then move (returned false) w else move at_clear w
go_from at_clear offset w = record w { event = false; place = at_retest }
go_from at_retest offset w =
    if lebℤ (pos w.next_offset) offset then move at_retest_closed w else move at_loop w
go_from at_retest_closed offset w = if w.closed then move at_loop w else move asleep w
go_from asleep offset w = if w.event then move at_loop w else w
go_from (returned b) offset w = w

unfoldable pub go : ℤ → Wait → Wait
go offset w = go_from w.place offset w

-- The event loop runs other callbacks only while the coroutine is suspended or done.
abbrev pub suspended : Place → Bool
suspended asleep = true
suspended (returned b) = true
suspended _ = false

pub data Step (offset : ℤ) : Wait → Wait → Type 0 where
  goes : (w : Wait) → Step offset w (go offset w)
  appended :
      (n : ℕ) (w : Wait)
      → Step offset w (record w { next_offset = w.next_offset + suc n; flights = w.flights + 1 })
  shut : (w : Wait) → Step offset w (record w { closed = true; flights = w.flights + 1 })
  delivered :
      (w : Wait) (k : ℕ)
      → suspended w.place ≡ true
      → w.flights ≡ suc k
      → Step offset w (record w { flights = k; event = true })

pub data Reached (offset : ℤ) : Wait → Type 0 where
  called :
      (next_offset : ℕ) (closed : Bool)
      → Reached offset (record {
        next_offset = next_offset;
        closed = closed;
        flights = 0;
        event = false;
        seen = 0;
        place = at_loop;
      })
  then_step : (w v : Wait) → Reached offset w → Step offset w v → Reached offset v
