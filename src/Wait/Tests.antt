-- ===== src/Wait/Tests.antt =====
-- A `wait` on a stream of one record, for the next one, that goes to sleep.
use durastream.Common.{◌≡◌, refl, true, false}
use durastream.Wait.{Wait, at_loop, asleep, returned, go}
use durastream.Common.Int.{pos}

abbrev started : Wait
started = record {
  next_offset = 1;
  closed = false;
  flights = 0;
  event = false;
  seen = 0;
  place = at_loop;
}

abbrev sleeping : Wait
sleeping = go (pos 1) (go (pos 1) (go (pos 1) (go (pos 1) (go (pos 1) started))))

sleeping_test : sleeping.place ≡ asleep
unfolding go
sleeping_test = refl

-- the append is delivered, and wakes it
abbrev woken : Wait
woken = go (pos 1) (go (pos 1) (record sleeping { next_offset = 2; event = true }))

woken_test : woken.place ≡ returned true
unfolding go
woken_test = refl
