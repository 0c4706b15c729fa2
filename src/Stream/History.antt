-- ===== src/Stream/History.antt =====
-- The life of one log: appends, closes, ends of the process, crashes of the machine, and openings, in any
-- order, each with whatever the system answers.
pub mod Acked
pub mod Safe
mod Tests
use durastream.Common.{
  ℕ, ◌+◌, ◌-◌, ◌≡◌, Bool, true, false, List, [], ◌∷◌, ◌++◌, Bytes, Text, length,
}
use durastream.Errors.{Result, ok, err}
use durastream.Disk.{Answer}
use durastream.Codec.{Zlib}
use durastream.Codec.Sound.{AreBytes}
use durastream.Stream.Defs.{Machine, new_stream, recover}
use durastream.Stream.Write.{append_many, close, close_fds}

-- The batches whose appends have returned, each with the offset of its first record.
abbrev pub Acks : Type 0
Acks = List (ℕ × List Bytes)

abbrev pub acknowledge : List Bytes → Result ℕ → Acks → Acks
acknowledge payloads (err e) acked = acked
acknowledge [] (ok end) acked = acked
acknowledge (p ∷ payloads) (ok end) acked =
    acked ++ (end - length (p ∷ payloads), p ∷ payloads) ∷ []

-- `up`: there is an object that has opened the log.
pub record Life : Type 0 where
  pub w : Machine
  pub up : Bool
  pub acked : Acks

abbrev pub is_ok : {A : Type 0} → Result A → Bool
is_ok (ok a) = true
is_ok (err e) = false

-- What a crash leaves: what was durable, and anything behind it.
abbrev pub crash : Bytes → Machine → Machine
crash junk w = record w { log = record { bytes = w.log.durable ++ junk; durable = w.log.durable } }

-- A new object of some process, as the writer of the log or not.
abbrev pub fresh : Text → Text → Text → Bool → ℕ → Bool → ℕ → List Answer → Machine → Machine
fresh name path content_type closed fd owner pid os w = record w {
  self = new_stream name path content_type closed fd owner pid;
  os = os;
  getpid = pid;
}

module _ ⦃z : Zlib⦄ where
  abbrev pub reopen : Machine → Acks → Life
  reopen w acked = let (r, v) = recover w in record { w = v; up = is_ok r; acked = acked }

  pub data Step : Life → Life → Type 0 where
    appended :
        (payloads : List Bytes) (l : Life)
        → l.up ≡ true
        → Step l (record l {
          w = (append_many payloads l.w).1;
          acked = acknowledge payloads (append_many payloads l.w).0 l.acked;
        })
    closed : (l : Life) → Step l (record l { w = (close l.w).1 })
    released : (l : Life) → Step l (record l { w = record l.w { self = close_fds l.w.self } })
    ended : (l : Life) → Step l (record l { up = false })
    crashed : (junk : Bytes) (l : Life) → Step l (record l { w = crash junk l.w; up = false })
    opened :
        (name path content_type : Text) (was_closed : Bool) (fd : ℕ) (owner : Bool) (pid : ℕ)
        (os : List Answer) (l : Life)
        → AreBytes l.w.log.bytes
        → Step l (reopen (fresh name path content_type was_closed fd owner pid os l.w) l.acked)
    answers : (os : List Answer) (l : Life) → Step l (record l { w = record l.w { os = os } })

  -- At first the log is a file of any contents, which no object has opened.
  pub data Reached : Life → Type 0 where
    found : (w : Machine) → Reached (record { w = w; up = false; acked = [] })
    then_step : (l m : Life) → Reached l → Step l m → Reached m
