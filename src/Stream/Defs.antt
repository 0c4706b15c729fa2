-- ===== src/Stream/Defs.antt =====
-- The state of a stream and of the machine under it (`__init__`, `_recover` and the properties of
-- `DurableStream` in src/durastream/stream.py).
use durastream.Common.{
  ℕ, ◌-◌, Bool, not, ◌&&◌, Option, some, List, [], ◌∷◌, Bytes, Text, length, last_or, ◌==◌,
  if◌then◌else◌,
}
use durastream.Errors.{Result, ok, err, os_error}
use durastream.Exec.{Exec, ◌>>◌}
use durastream.Disk.{Answer, fail, LogFile, Disk, ftruncate, fsync}
use durastream.Meta
use durastream.Meta.{Row, Sql, Meta}
use durastream.Codec.{Zlib}
use durastream.Scan.{scan}

-- A registered callback, known by a number.
pub record Listener : Type 0 where
  pub lid : ℕ
  pub callback : ℕ

-- `file` is the number of the open file, and `pid` the process that opened it.
pub record Stream : Type 0 where
  pub name : Text
  pub path : Text
  pub content_type : Text
  pub closed : Bool
  pub listeners : List Listener
  pub next_lid : ℕ
  pub file : Option ℕ
  pub owner : Bool
  pub pid : ℕ
  pub index : List ℕ

-- A call of a listener: `callback(start, records)`.
pub record Call : Type 0 where
  pub callback : ℕ
  pub start : ℕ
  pub records : List Bytes

-- A stream, its log, the metadata database, the answers that the system will give, the process that
-- runs the method, and the calls of listeners made so far.
pub record Machine : Type 0 where
  pub self : Stream
  pub log : LogFile
  pub db : Option (List Row)
  pub os : List Answer
  pub getpid : ℕ
  pub calls : List Call

abbrev pub on_disk : {A : Type 0} → Exec Disk A → Exec Machine A
on_disk m w =
    let (r, d) = m (record { log = w.log; os = w.os }) in (r, record w { log = d.log; os = d.os })

abbrev pub on_meta : Sql → Exec Machine (List Row)
on_meta sql w =
    let (r, m) = Meta.execute sql (record { db = w.db; os = w.os }) in
    (r, record w { db = m.db; os = m.os })

unfoldable pub next_offset : Stream → ℕ
next_offset s = length s.index - 1

-- `self._index[-1]`
abbrev pub log_end : Stream → ℕ
log_end s = last_or s.index 0

unfoldable pub writable : Machine → Bool
writable w = w.self.owner && (w.self.pid == w.getpid)

-- A new object, before its log has been read.
unfoldable pub new_stream : Text → Text → Text → Bool → ℕ → Bool → ℕ → Stream
new_stream name path content_type closed file owner pid = record {
  name = name;
  path = path;
  content_type = content_type;
  closed = closed;
  listeners = [];
  next_lid = 1;
  file = some file;
  owner = owner;
  pid = pid;
  index = [];
}

abbrev pub set_index : List ℕ → Exec Machine (Unit {0})
set_index index w = (ok tt, record w { self = record w.self { index = index } })

abbrev pub answer_open : LogFile → List Answer → Result (Unit {0}) × Disk
answer_open f [] = (ok tt, record { log = f; os = [] })
answer_open f (fail ∷ os) = (err os_error, record { log = f; os = os })
answer_open f (_ ∷ os) = (ok tt, record { log = f; os = os })

-- `open(path, "rb")` in `_scan`
unfoldable pub open_for_scan : Exec Disk (Unit {0})
open_for_scan d = answer_open d.log d.os

module _ ⦃z : Zlib⦄ where
  -- The repair of a torn tail, by the writer alone.
  unfoldable pub repair : List ℕ → Exec Machine (Unit {0})
  repair index w =
      if w.self.owner && not (last_or index 0 == length w.log.bytes)
      then (on_disk (ftruncate (last_or index 0)) >> on_disk fsync) w
      else (ok tt, w)

  -- `_recover`, and the assignment of its result in `__init__`.
  unfoldable pub recover : Exec Machine (Unit {0})
  unfolding repair
  recover w =
      let index = scan w.log.bytes (length w.log.bytes) in
      (on_disk open_for_scan >> repair index >> set_index index) w
