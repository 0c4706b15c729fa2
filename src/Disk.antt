-- ===== src/Disk.antt =====
-- One open log file, as the operating system keeps it, and the calls of src/durastream/stream.py
-- that write to it. The system's answers to the calls are a list that is given: an answer is taken
-- for each call, and a call past the end of the list succeeds.
pub mod Laws
use durastream.Common.{
  ℕ, zero, suc, ◌-◌, ◌≡◌, List, [], ◌∷◌, ◌++◌, Bytes, length, take, drop, replicate,
}
use durastream.Errors.{Result, ok, err, os_error}
use durastream.Exec.{Exec}

-- `done`: the call does all that it was asked for. `short k`: a write takes `k` bytes at most, a read
-- returns `k + 1` at most; the other calls succeed. `fail`: the call raises an `OSError`.
pub data Answer : Type 0 where
  done fail : Answer
  short : ℕ → Answer

-- `durable` is the part of the file that is known to survive a crash of the machine.
pub record LogFile : Type 0 where
  pub bytes : Bytes
  pub durable : Bytes

pub record Disk : Type 0 where
  pub log : LogFile
  pub os : List Answer

-- The file is open for appending: what is written goes to its end.
abbrev pub extend : LogFile → Bytes → LogFile
extend f b = record f { bytes = f.bytes ++ b }

-- The loop of `_write_all`: write, and go on with what is left of the view.
unfoldable pub write_rounds : List Answer → Bytes → LogFile → Result (Unit {0}) × Disk
write_rounds [] view f = (ok tt, record { log = extend f view; os = [] })
write_rounds (answer ∷ os) [] f = (ok tt, record { log = f; os = answer ∷ os })
write_rounds (done ∷ os) (b ∷ view) f = (ok tt, record { log = extend f (b ∷ view); os = os })
write_rounds (fail ∷ os) (b ∷ view) f = (err os_error, record { log = f; os = os })
write_rounds (short k ∷ os) (b ∷ view) f =
    write_rounds os (drop k (b ∷ view)) (extend f (take k (b ∷ view)))

unfoldable pub write_all : Bytes → Exec Disk (Unit {0})
unfolding write_rounds
write_all view d = write_rounds d.os view d.log

abbrev answer_fsync : LogFile → List Answer → Result (Unit {0}) × Disk
answer_fsync f [] = (ok tt, record { log = record f { durable = f.bytes }; os = [] })
answer_fsync f (fail ∷ os) = (err os_error, record { log = f; os = os })
answer_fsync f (_ ∷ os) = (ok tt, record { log = record f { durable = f.bytes }; os = os })

-- `_fsync`: what the file holds is durable once the call has returned.
unfoldable pub fsync : Exec Disk (Unit {0})
fsync d = answer_fsync d.log d.os

-- A file that is cut at a length that it does not have grows by zeros.
abbrev pub cut : ℕ → LogFile → LogFile
cut n f = record {
  bytes = take n f.bytes ++ replicate (n - length f.bytes) 0;
  durable = take n f.durable;
}

abbrev answer_ftruncate : ℕ → LogFile → List Answer → Result (Unit {0}) × Disk
answer_ftruncate n f [] = (ok tt, record { log = cut n f; os = [] })
answer_ftruncate n f (fail ∷ os) = (err os_error, record { log = f; os = os })
answer_ftruncate n f (_ ∷ os) = (ok tt, record { log = cut n f; os = os })

unfoldable pub ftruncate : ℕ → Exec Disk (Unit {0})
ftruncate n d = answer_ftruncate n d.log d.os
