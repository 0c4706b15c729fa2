-- ===== src/Store/System/Tests.antt =====
-- Two stores in two processes: the first creates a stream, and the second opens it.
use durastream.Common.{ℕ, ◌≡◌, refl, true, false, none, some, [], ◌∷◌, Text, codes}
use durastream.Errors.{err, stream_locked}
use durastream.Codec.Crc32.{zlib}
use durastream.Dict.{lookup, assign}
use durastream.Meta.{execute}
use durastream.Names.{check_name, log_path}
use durastream.Scan.{scan}
use durastream.Stream.Defs.{Stream, recover, open_for_scan, new_stream, writable}
use durastream.Store.{World, enforced}
use durastream.Store.Files.{lock_for_removal, remove_if_exists, open_role, fsync_dir}
use durastream.Store.Ops.{row, default_content_type}
use durastream.Store.Methods.{
  create, open_existing, delete, open_stream, init_stream, is_writer, owns,
}
use durastream.Store.System.{
  Client, enter, Reached, booted, then_step, entered, created, opened, WritesTo,
}
use durastream.Store.System.OneWriter.{one_writer}
use durastream.Store.System.Refused.{Untouched, delete-refused}

abbrev empty_machine : World
empty_machine = record {
  streams_dir = codes "d";
  opened = [];
  heap = [];
  db = some [];
  dir = [];
  durable_dir = [];
  inodes = [];
  files = [];
  locking = enforced;
  read_only = false;
  os = [];
  getpid = 1;
  time = 0;
  calls = [];
}

abbrev s : Text
s = codes "s"

abbrev with_stream : World
with_stream = (create s none empty_machine).1

-- the store of process 2
abbrev second : Client
second = record { opened = []; db = with_stream.db; getpid = 2; os = []; time = 1 }

abbrev both : World
both = (open_existing s (enter second with_stream)).1

both-Reached : Reached both
both-Reached =
    then_step _ _
      (then_step _ _
        (then_step _ _ (booted empty_machine refl refl refl (λ ino. refl) tt)
          (created s none empty_machine))
        (entered second with_stream))
      (opened s (enter second with_stream))

abbrev first : Stream
first = record {
  name = s;
  path = codes "d/s.log";
  content_type = default_content_type;
  closed = false;
  listeners = [];
  next_lid = 1;
  file = some 0;
  owner = true;
  pid = 1;
  index = 0 ∷ [];
}

abbrev reader : Stream
reader = record first { file = some 1; owner = false; pid = 2 }

heap_test : both.heap ≡ first ∷ reader ∷ []
unfolding create open_existing check_name lookup assign row execute lock_for_removal
    remove_if_exists open_stream open_role init_stream recover open_for_scan new_stream scan
    fsync_dir writable log_path
heap_test = refl

writer : WritesTo 0 0 1 both
unfolding create open_existing check_name lookup assign row execute lock_for_removal
    remove_if_exists open_stream open_role init_stream recover open_for_scan new_stream scan
    fsync_dir writable log_path
writer = (first, refl, refl, (0, refl, refl))

one_writer_example : ◌≡◌ {A = ℕ} 0 0
one_writer_example = one_writer both both-Reached 0 0 0 1 1 writer writer

not_writer : is_writer (some reader) both ≡ false
unfolding create open_existing check_name lookup assign row execute lock_for_removal
    remove_if_exists open_stream open_role init_stream recover open_for_scan new_stream scan
    fsync_dir writable log_path
not_writer = refl

there : lookup (log_path both.streams_dir s) both.dir ≡ some 0
unfolding create open_existing check_name lookup assign row execute lock_for_removal
    remove_if_exists open_stream open_role init_stream recover open_for_scan new_stream scan
    fsync_dir writable log_path
there = refl

not_owned : owns (lookup s both.opened) both ≡ false
unfolding create open_existing check_name lookup assign row execute lock_for_removal
    remove_if_exists open_stream open_role init_stream recover open_for_scan new_stream scan
    fsync_dir writable log_path
not_owned = refl

delete-refused_example :
    ((delete s (record both { db = some []; os = [] })).0 ≡ err (stream_locked s))
    × Untouched
        (record both { db = some []; os = [] })
        (delete s (record both { db = some []; os = [] })).1
delete-refused_example = delete-refused both both-Reached s [] 0 0 1 writer there not_owned
