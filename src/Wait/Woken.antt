-- ===== src/Wait/Woken.antt =====
-- What `wait` promises.
use durastream.Common.{ℕ, ◌≤◌, ◌<◌, ◌≡◌, true, false, ◌⊎◌}
use durastream.Wait.{Place, at_closed, at_retest_closed, asleep, returned, Wait}
use durastream.Common.Int.{ℤ, pos, negsuc}

-- A stream of `n` records has none past the offset: `n` is not above it.
abbrev pub NotPast : ℕ → ℤ → Type 0
NotPast n (pos a) = n ≤ a
NotPast n (negsuc a) = ⊥

abbrev pub Past : ℕ → ℤ → Type 0
Past n (pos a) = a < n
Past n (negsuc a) = Unit {0}

-- What holds at each place.
abbrev At : ℤ → Wait → Place → Type 0
At offset w at_closed = NotPast w.seen offset
At offset w at_retest_closed = Past w.next_offset offset → 0 < w.flights
At offset w asleep =
    w.event ≡ false → (Past w.next_offset offset) ⊎ (w.closed ≡ true) → 0 < w.flights
At offset w (returned true) = Past w.next_offset offset
At offset w (returned false) = (w.closed ≡ true) × (NotPast w.seen offset)
At offset w _ = Unit {0}

abbrev Holds : ℤ → Wait → Type 0
Holds offset w = At offset w w.place
