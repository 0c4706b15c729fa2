-- ===== src/Store.antt =====
-- The state of `Store` of src/durastream/store.py: its open streams, the files under it, and the calls of
-- the system that it makes.
pub mod Fresh
pub mod Unlinked
pub mod Files
pub mod Ops
pub mod Keeps
pub mod Locks
mod Tests
pub mod System
pub mod Registry
pub mod Removal
pub mod Methods
use durastream.Common.{
  ℕ, Bool, true, false, Option, none, some, List, [], ◌∷◌, ◌++◌, Bytes, Text, codes, length,
  get_elem?, set, ◌==◌, if◌then◌else◌,
}
use durastream.Texts.{text_eq}
use durastream.Errors.{Result, ok, err, os_error, durastream_error}
use durastream.Exec.{Exec}
use durastream.Disk.{Answer, fail, LogFile}
use durastream.Meta
use durastream.Meta.{Row, Sql, Meta}
use durastream.Stream.Defs.{Stream, Machine, Call, writable}
use durastream.Stream.Write.{notify_closed, close_fds}
use durastream.Dict.{Dict, lookup, assign, remove}

-- `holder` is the open file that has the lock.
pub record Inode : Type 0 where
  pub log : LogFile
  pub holder : Option ℕ

-- No `fcntl`; a file system without `flock`; and one with it.
pub data Locking : Type 0 where
  no_fcntl unsupported enforced : Locking

-- Objects, inodes and open files are numbered by their places in `heap`, `inodes` and `files`; `dir` maps
-- the paths of `streams_dir` to inodes, and `durable_dir` is what of it is known to survive a crash.
pub record World : Type 0 where
  pub streams_dir : Text
  pub opened : Dict
  pub heap : List Stream
  pub db : Option (List Row)
  pub dir : Dict
  pub durable_dir : Dict
  pub inodes : List Inode
  pub files : List ℕ
  pub locking : Locking
  pub read_only : Bool
  pub os : List Answer
  pub getpid : ℕ
  pub time : ℕ
  pub calls : List Call

abbrev pub empty_log : LogFile
empty_log = record { bytes = []; durable = [] }

abbrev pub as_machine : World → Stream → LogFile → Machine
as_machine w s log = record {
  self = s;
  log = log;
  db = w.db;
  os = w.os;
  getpid = w.getpid;
  calls = w.calls;
}

-- A call of the system: it takes an answer.
abbrev pub asked : {A : Type 0} → List Answer → Exec World A → Exec World A
asked [] m w = m w
asked (fail ∷ os) m w = (err os_error, record w { os = os })
asked (_ ∷ os) m w = m (record w { os = os })

abbrev pub in_meta : {A : Type 0} → (Meta → Result A × Meta) → Exec World A
in_meta f w =
    let (r, m) = f (record { db = w.db; os = w.os }) in (r, record w { db = m.db; os = m.os })

abbrev pub put_inode : (Inode → Inode) → ℕ → List Inode → Option Inode → List Inode
put_inode g ino inodes none = inodes
put_inode g ino inodes (some i) = set inodes ino (g i)

abbrev pub update_inode : (Inode → Inode) → ℕ → List Inode → List Inode
update_inode g ino inodes = put_inode g ino inodes (get_elem? inodes ino)

abbrev pub held_by : Option Inode → Option ℕ
held_by none = none
held_by (some i) = i.holder

-- the lock after a file is closed
abbrev pub release_holder : ℕ → Option ℕ → Option ℕ
release_holder f none = none
release_holder f (some h) = if h == f then none else some h

-- who has the lock of the inode that an open file has
abbrev pub holder_at : List Inode → Option ℕ → Option ℕ
holder_at inodes none = none
holder_at inodes (some ino) = held_by (get_elem? inodes ino)
