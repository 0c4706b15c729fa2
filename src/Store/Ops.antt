-- ===== src/Store/Ops.antt =====
-- The methods of `Store`, and the choice of a handle's role in `DurableStream.__init__`.
use durastream.Common.{
  ℕ, Bool, Option, none, some, List, [], ◌∷◌, ◌++◌, Text, codes, length, get_elem?, set,
  if◌then◌else◌,
}
use durastream.Texts.{text_eq}
use durastream.Errors.{Result, ok, err, value_error}
use durastream.Exec.{Exec, pure, ◌>>=◌}
use durastream.Disk.{LogFile}
use durastream.Meta
use durastream.Meta.{Row, create_table, insert_row, select_row, delete_row, select_names, Meta}
use durastream.Stream.Defs.{Stream, Machine}
use durastream.Stream.Write.{notify_closed, close_fds}
use durastream.Store.{Inode, World, empty_log, as_machine, in_meta}
use durastream.Store.Files.{inode_of, on_inode, close_file}

-- the log that an open file has
abbrev pub log_in : Option Inode → LogFile
log_in none = empty_log
log_in (some i) = i.log

abbrev pub log_of : Option ℕ → World → LogFile
log_of none w = empty_log
log_of (some ino) w = log_in (get_elem? w.inodes ino)

abbrev pub put_log : ℕ → LogFile → World → World
put_log f log w = on_inode (λ i. record i { log = log }) (inode_of f w) w

-- A new object; where `__init__` raises, it is dropped and its file is closed.
abbrev pub settle_object : ℕ → World → Result (Unit {0}) × Machine → Result ℕ × World
settle_object f w (ok _, m) =
    (ok (length w.heap), put_log f m.log (record w { heap = w.heap ++ m.self ∷ []; os = m.os }))
settle_object f w (err e, m) = (err e, close_file f (put_log f m.log (record w { os = m.os })))

-- `_row`
abbrev pub first_row : List Row → Option (Text × Bool)
first_row [] = none
first_row (r ∷ rows) = some (r.content_type, r.closed)

unfoldable pub row : Text → Exec World (Option (Text × Bool))
row name = in_meta (Meta.execute (select_row name)) >>= λ rows. pure (first_row rows)

unfoldable pub check_type : Text → Option Text → Result (Unit {0})
check_type existing none = ok tt
check_type existing (some given) = if text_eq given existing then ok tt else err value_error

-- `s._close_fds()` of the object `o`, and what `s` is
abbrev pub close_handle : Option ℕ → World → World
close_handle none w = w
close_handle (some f) w = close_file f w

abbrev pub close_stream : ℕ → Option Stream → World → World
close_stream o none w = w
close_stream o (some s) w = close_handle s.file (record w { heap = set w.heap o (close_fds s) })

unfoldable pub close_object : ℕ → World → World
close_object o w = close_stream o (get_elem? w.heap o) w

abbrev pub notify_stream : Option Stream → World → World
notify_stream none w = w
notify_stream (some s) w = record w { calls = (notify_closed (as_machine w s empty_log)).calls }

unfoldable pub notify_object : ℕ → World → World
notify_object o w = notify_stream (get_elem? w.heap o) w

abbrev pub default_content_type : Text
default_content_type = codes "application/octet-stream"
