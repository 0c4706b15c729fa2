-- ===== src/Store/System.antt =====
-- Stores that share a machine: in one process or in several, each with its own dictionary of open streams
-- and its own connection to the database, over the same files.
mod Tests
pub mod OneWriter
pub mod Refused
use durastream.Common.{
  ℕ, ◌<◌, ◌≡◌, true, Option, none, some, List, [], ◌∷◌, Bytes, Text, length, get_elem?, set,
}
use durastream.Errors.{Result}
use durastream.Exec.{Exec}
use durastream.Disk.{Answer, LogFile}
use durastream.Meta.{Row}
use durastream.Codec.{Zlib}
use durastream.Dict.{Dict, Below}
use durastream.Stream.Defs.{Stream, Machine}
use durastream.Stream.Write
use durastream.Stream.Write.{append_many}
use durastream.Store.{World, Inode, enforced, as_machine, held_by}
use durastream.Store.Files.{inode_of, on_inode}
use durastream.Store.Ops.{log_of, close_object}
use durastream.Store.Methods.{create, open_existing, delete, is_writer}
use durastream.Store.Methods

-- What is a store's own: its open streams, its connection, and the process that it runs in, with the
-- answers that the system will give it and the time.
pub record Client : Type 0 where
  pub opened : Dict
  pub db : Option (List Row)
  pub getpid : ℕ
  pub os : List Answer
  pub time : ℕ

abbrev pub enter : Client → World → World
enter c w = record w { opened = c.opened; db = c.db; getpid = c.getpid; os = c.os; time = c.time }

-- the inode of an object's file
abbrev pub log_inode : Stream → World → Option ℕ
log_inode s w = elim s.file [ none ↦ none | some f ↦ inode_of f w ]

-- A method of the stream object `o`, which is `s`.
abbrev pub on_stream : {A : Type 0} → ℕ → Stream → Exec Machine A → Exec World A
on_stream o s m w =
    let (r, v) = m (as_machine w s (log_of (log_inode s w) w)) in
    (
      r,
      on_inode (λ i. record i { log = v.log }) (log_inode s w)
          (record w { heap = set w.heap o v.self; db = v.db; os = v.os; calls = v.calls }),
    )

module _ ⦃z : Zlib⦄ where
  -- One call of one store, or of a method of one of its streams; and an object that is collected, as
  -- all are when their process ends.
  pub data Step : World → World → Type 0 where
    entered : (c : Client) (w : World) → Step w (enter c w)
    created :
        (name : Text) (content_type : Option Text) (w : World)
        → Step w (create name content_type w).1
    opened : (name : Text) (w : World) → Step w (open_existing name w).1
    deleted : (name : Text) (w : World) → Step w (delete name w).1
    store_closed : (w : World) → Step w (Methods.close w)
    appended :
        (o : ℕ) (s : Stream) (payloads : List Bytes) (w : World)
        → get_elem? w.heap o ≡ some s
        → Step w (on_stream o s (append_many payloads) w).1
    stream_closed :
        (o : ℕ) (s : Stream) (w : World)
        → get_elem? w.heap o ≡ some s
        → Step w (on_stream o s Write.close w).1
    dropped : (o : ℕ) (w : World) → Step w (close_object o w)

  -- At first no file is open; there may be logs.
  pub data Reached : World → Type 0 where
    booted :
        (w : World)
        → w.locking ≡ enforced
        → w.heap ≡ []
        → w.files ≡ []
        → ((ino : ℕ) → held_by (get_elem? w.inodes ino) ≡ none)
        → Below (length w.inodes) w.dir
        → Reached w
    then_step : (w v : World) → Reached w → Step w v → Reached v

-- In the process `pid`, the object `o` may write to the log `ino`.
abbrev pub WritesTo : ℕ → ℕ → ℕ → World → Type 0
WritesTo o ino pid w =
    (s : Stream) × (get_elem? w.heap o ≡ some s)
    × (is_writer (some s) (record w { getpid = pid }) ≡ true)
    × ((f : ℕ) × (s.file ≡ some f) × (inode_of f w ≡ some ino))
