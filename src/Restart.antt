-- ===== src/Restart.antt =====
-- demos/restart_stream.py: records are appended in several sessions, each of which opens the log anew.
-- append_range is of demos/utils.py. What the store does beside the log is Store's part, and what is
-- printed is left out. A failed assertion is a result of its own here, and not an error.
pub mod Opened
pub mod Records
pub mod Survive
mod Tests
use durastream.Common.{
  ℕ, zero, suc, ◌+◌, ◌-◌, ◌/◌, Bool, true, false, ◌&&◌, Option, none, some, List, [], ◌∷◌, ◌++◌,
  Bytes, Text, length, leb, ◌==◌, min, if◌then◌else◌,
}
use durastream.Common.Int.{ℤ, pos, negsuc}
use durastream.Errors.{Result, ok, err, value_error, index_error}
use durastream.Exec.{Exec, pure, ◌>>=◌}
use durastream.Codec.{Zlib}
use durastream.Stream.Defs.{Machine, new_stream, recover, next_offset}
use durastream.Stream.Write.{append_many, close_fds}
use durastream.Stream.Read.{read}

-- `BATCH`
abbrev pub batch_size : ℕ
batch_size = 10000

-- the records of `n` numbers from `base` on
abbrev pub records_from : (ℕ → Bytes) → ℕ → ℕ → List Bytes
records_from make base zero = []
records_from make base (suc n) = make base ∷ records_from make (suc base) n

module _ ⦃z : Zlib⦄ where
  -- The loop of append_range, on fuel; a round moves on by a batch, which is not empty.
  unfoldable pub append_batches : ℕ → (ℕ → Bytes) → ℕ → ℕ → ℕ → Exec Machine (Unit {0})
  append_batches zero make base end batch w = (ok tt, w)
  append_batches (suc fuel) make base end batch w =
      let rest = append_batches fuel make (base + batch) end batch in
      if leb end base
      then (ok tt, w)
      else (append_many (records_from make base (min batch (end - base))) >>= λ _. rest) w

  -- `range` refuses a step of 0
  unfoldable pub append_range : ℕ → ℕ → (ℕ → Bytes) → ℕ → Exec Machine (Unit {0})
  unfolding append_batches
  append_range start end make zero w = (err value_error, w)
  append_range start end make (suc batch) w =
      append_batches (end - start) make start end (suc batch) w

-- What a session finds when it opens the log: whether it is the log's writer, the file and the process.
pub record Opening : Type 0 where
  pub owner : Bool
  pub file : ℕ
  pub pid : ℕ

-- An assertion that fails ends the program.
abbrev pub asserting : {A : Type 0} → Bool → Exec Machine (Option A) → Exec Machine (Option A)
asserting true go_on w = go_on w
asserting false go_on w = (ok none, w)

abbrev pub close_store : Exec Machine (Unit {0})
close_store w = (ok tt, record w { self = close_fds w.self })

-- the last session takes what is left
abbrev pub session_end : ℕ → ℕ → ℕ → List Opening → ℕ
session_end n per_session produced [] = n
session_end n per_session produced (o ∷ others) = produced + per_session

-- `produced - 1`
abbrev pub sub_one : ℕ → ℤ
sub_one zero = negsuc 0
sub_one (suc n) = pos n

-- `sample[0]`
abbrev pub first_of : List Bytes → Exec Machine (Option Bytes)
first_of [] w = (err index_error, w)
first_of (r ∷ sample) w = (ok (some r), w)

module _ ⦃z : Zlib⦄ where
  -- A new object for the stream, in a new process.
  unfoldable pub open_log : Opening → Exec Machine (Unit {0})
  unfolding new_stream
  open_log o w = recover (record w {
    self = new_stream w.self.name w.self.path w.self.content_type false o.file o.owner o.pid;
    getpid = o.pid;
  })

  -- The end of main: the log is opened once more, and its last record is read.
  unfoldable pub verify_all : ℕ → Opening → ℕ → Exec Machine (Option Bytes)
  unfolding next_offset
  verify_all n last produced w =
      (open_log last >>= λ _. λ v.
          asserting (next_offset v.self == produced && (produced == n))
            (read (sub_one produced) (some (pos produced)) >>= first_of) v)
        w

module _ ⦃z : Zlib⦄ (record_of : ℕ → Bytes) where
  -- The sessions, from `produced` on.
  unfoldable pub run_sessions : ℕ → ℕ → Opening → List Opening → ℕ → Exec Machine (Option Bytes)
  unfolding next_offset append_range
  run_sessions n per_session last [] produced w = verify_all n last produced w
  run_sessions n per_session last (o ∷ openings) produced w =
      let end = session_end n per_session produced openings in
      (open_log o >>= λ _. λ v.
          asserting (next_offset v.self == produced)
            (append_range produced end record_of batch_size >>= λ _.
              close_store >>= λ _. run_sessions n per_session last openings end)
            v)
        w

  -- `main`, of `n` records in a session for each opening; `last` is the final one. The result is the
  -- record that is printed at the end.
  unfoldable pub main : ℕ → List Opening → Opening → Exec Machine (Option Bytes)
  main n openings last w = run_sessions n (n / length openings) last openings 0 w
