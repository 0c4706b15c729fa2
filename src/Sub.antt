-- ===== src/Sub.antt =====
-- `_Sub` of src/durastream/aio.py, a subscriber's view of the live tail, and the loop of
-- `AsyncDurableStream.subscribe`, cut at the places where other tasks may run.
pub mod View
pub mod Wake
pub mod Asleep
pub mod InOrder
mod Tests
use durastream.Common.{
  ℕ, ◌+◌, ◌-◌, ◌*◌, max, Bool, true, false, not, ◌&&◌, ◌||◌, Option, none, some, List, [], ◌∷◌,
  ◌++◌, Bytes, length, drop, leb, ltb, if◌then◌else◌,
}
use durastream.Common.Int.{ℤ, pos_part}

abbrev pub lag_limit : ℕ
lag_limit = 10000

abbrev pub lag_bytes : ℕ
lag_bytes = 16 * 1024 * 1024

pub record Sub : Type 0 where
  pub buf : List Bytes
  pub nbytes : ℕ
  pub start : ℕ
  pub stale : Bool
  pub event : Bool

abbrev pub new_sub : Sub
new_sub = record { buf = []; nbytes = 0; start = 0; stale = true; event = false }

-- `sum(map(len, records))`
abbrev pub total_size : List Bytes → ℕ
total_size [] = 0
total_size (r ∷ records) = length r + total_size records

abbrev pub clear : Sub → Sub
clear s = record s { buf = []; nbytes = 0 }

-- more than the buffer may hold
unfoldable pub too_far : List Bytes → ℕ → Bool
too_far buf nbytes = ltb lag_limit (length buf) || ltb lag_bytes nbytes

-- What a delivery from `start` on adds to the buffer.
unfoldable pub take_in : ℕ → List Bytes → Sub → Sub
unfolding too_far
take_in start records s =
    let end = s.start + length s.buf in
    let new = drop (end - start) records in
    if ltb end start
    then record s { stale = true }
    else if ltb end (start + length records)
    then record s {
      buf = s.buf ++ new;
      nbytes = s.nbytes + total_size new;
      stale = s.stale || too_far (s.buf ++ new) (s.nbytes + total_size new);
    }
    else s

unfoldable pub receive : ℕ → List Bytes → Sub → Sub
unfolding take_in
receive start [] s = s
receive start (r ∷ records) s = if s.stale then s else take_in start (r ∷ records) s

abbrev pub drop_stale : Sub → Sub
drop_stale s = if s.stale then clear s else s

unfoldable pub deliver : ℕ → List Bytes → Sub → Sub
unfolding receive
deliver start records s = record (drop_stale (receive start records s)) { event = true }

-- `none`: the buffer is empty, and `deque.popleft` raises.
abbrev pub pop_from : List Bytes → Sub → Option (Bytes × Sub)
pop_from [] s = none
pop_from (r ∷ buf) s =
    some (r, record s { buf = buf; nbytes = s.nbytes - length r; start = s.start + 1 })

unfoldable pub popleft : Sub → Option (Bytes × Sub)
popleft s = pop_from s.buf s

-- `while sub.buf and sub.start < pos: sub.popleft()`
unfoldable pub skip : ℕ → List Bytes → Sub → Sub
skip pos [] s = s
skip pos (r ∷ buf) s =
    let rest =
      skip pos buf (record s { buf = buf; nbytes = s.nbytes - length r; start = s.start + 1 }) in
    if ltb s.start pos then rest else s

-- What the generator does next: read from the disk, yield the record it took from the buffer, go
-- around the loop, return, or wait for the event.
pub data Turn : Type 0 where
  fetch again finish : Turn
  deliver_one : Bytes → Turn
  sleep : Turn

-- The buffer's first record; without one, the end of the generator, or a wait. Nothing is delivered within
-- a round, so the test behind `event.clear` sees what the round saw; a close between the two tests sends a
-- delivery too, which wakes the generator.
abbrev pub take_or_wait : ℕ → ℕ → Bool → Sub → Option (Bytes × Sub) → Turn × Sub
take_or_wait pos next_offset closed s (some (r, s')) = (deliver_one r, s')
take_or_wait pos next_offset false s none = (sleep, record s { event = false })
take_or_wait pos next_offset true s none =
    if leb next_offset pos then (finish, s) else (again, record s { stale = true })

abbrev pub live : ℕ → ℕ → Bool → Sub → Turn × Sub
live pos next_offset closed s =
    if ltb pos s.start
    then (again, record s { stale = true })
    else take_or_wait pos next_offset closed s (popleft s)

abbrev pub hold_at : ℕ → List Bytes → Sub → Sub
hold_at pos [] s = record s { start = max s.start pos }
hold_at pos (r ∷ buf) s = s

abbrev pub catch_up : ℕ → Sub → Sub
catch_up next_offset s = record (clear s) { start = next_offset; stale = false }

-- One round of the loop, up to its first `await` or `yield`.
unfoldable pub turn : ℕ → ℕ → Bool → Sub → Turn × Sub
unfolding popleft skip
turn pos next_offset closed s =
    if s.stale
    then (fetch, catch_up next_offset s)
    else let s' = skip pos s.buf s in live pos next_offset closed (hold_at pos s'.buf s')
