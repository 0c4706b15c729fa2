-- ===== src/Stream/Follow.antt =====
-- The generator `subscribe` of a stream, in one thread, while others append to the stream, close it, and
-- let its file go (`_close_fds`, by the store's delete or close).
pub mod Drained
pub mod FirstOf
mod Tests
use durastream.Common.{ℕ, ◌+◌, ◌≡◌, none, List, [], ◌++◌, Bytes, length}
use durastream.Common.Int.{ℤ, pos, add_ℕ}
use durastream.Errors.{Error, Result, ok, err}
use durastream.Disk.{Answer}
use durastream.Codec.{Zlib}
use durastream.Stream.Defs.{Stream, Machine}
use durastream.Stream.Write.{append_many, close, close_fds}
use durastream.Stream.Read.{read, Next, again, wait, stop, subscribe_next}
use durastream.Stream.Holds.{Holds}

-- Before the read, before the test under the condition, in the condition's wait, and at the end.
pub data Place : Type 0 where
  reading checking waiting returned : Place
  raised : Error → Place

pub record Follower : Type 0 where
  pub w : Machine
  pub offset : ℤ
  pub yielded : List Bytes
  pub place : Place

-- the batch is yielded
abbrev pub yield_batch : Follower → Result (List Bytes) × Machine → Follower
yield_batch f (ok batch, w) = record {
  w = w;
  offset = add_ℕ f.offset (length batch);
  yielded = f.yielded ++ batch;
  place = checking;
}
yield_batch f (err e, w) = record f { w = w; place = raised e }

abbrev pub place_of : Next → Place
place_of again = reading
place_of wait = waiting
place_of stop = returned

-- The test under the condition, and what the generator does by it.
abbrev pub look : Follower → Follower
look f = record f { place = place_of (subscribe_next f.offset f.w.self) }

module _ ⦃z : Zlib⦄ where
  -- The threads take turns under the stream's lock; a wait may end at any time, and the test is made again.
  pub data Step : Follower → Follower → Type 0 where
    appended :
        (payloads : List Bytes) (f : Follower)
        → Step f (record f { w = (append_many payloads f.w).1 })
    closed : (f : Follower) → Step f (record f { w = (close f.w).1 })
    released : (f : Follower) → Step f (record f { w = record f.w { self = close_fds f.w.self } })
    answers : (os : List Answer) (f : Follower) → Step f (record f { w = record f.w { os = os } })
    reads : (f : Follower) → f.place ≡ reading → Step f (yield_batch f (read f.offset none f.w))
    looks : (f : Follower) → f.place ≡ checking → Step f (look f)
    woken : (f : Follower) → f.place ≡ waiting → Step f (record f { place = checking })

  pub data Reached (offset : ℤ) : Follower → Type 0 where
    called :
        (w : Machine) (rs : List Bytes)
        → Holds rs w
        → Reached offset (record { w = w; offset = offset; yielded = []; place = reading })
    then_step : (f g : Follower) → Reached offset f → Step f g → Reached offset g
