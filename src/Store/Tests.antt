-- ===== src/Store/Tests.antt =====
-- A store with one stream, created, opened again, and deleted.
use durastream.Common.{◌≡◌, refl, ap, false, none, some, [], ◌∷◌, Text, codes}
use durastream.Errors.{ok, err, key_error}
use durastream.Codec.Crc32.{zlib}
use durastream.Store.{World, enforced}
use durastream.Names.{check_name, log_path}
use durastream.Dict.{lookup, assign, remove}
use durastream.Meta.{find_row, execute, check_open}
use durastream.Scan.{scan}
use durastream.Stream.Defs.{recover, open_for_scan, new_stream, writable}
use durastream.Store.Files.{close_file, lock_for_removal, remove_if_exists, open_role, fsync_dir}
use durastream.Store.Ops.{row, close_object}
use durastream.Store.Methods.{
  create, delete, delete_locked, open_stream, init_stream, open_existing,
}
use durastream.Store.Registry.{create-idempotent}
use durastream.Store.Removal.{delete-open}
use durastream.Store.Unlinked.{Ends}
use durastream.Store.Fresh.{IsNew, create-IsNew}

abbrev empty_store : World
empty_store = record {
  streams_dir = codes "d";
  opened = [];
  heap = [];
  db = some [];
  dir = [];
  durable_dir = [];
  inodes = [];
  files = [];
  locking = enforced;
  read_only = false;
  os = [];
  getpid = 1;
  time = 0;
  calls = [];
}

abbrev s : Text
s = codes "s"

abbrev with_stream : World
with_stream = (create s none empty_store).1

create_run : create s none empty_store ≡ (ok 0, with_stream)
unfolding create check_name lookup row execute lock_for_removal remove_if_exists open_stream
    open_role init_stream recover open_for_scan new_stream scan fsync_dir
create_run = refl

create-idempotent_example :
    (open_existing s with_stream ≡ (ok 0, with_stream))
    × (create s none with_stream ≡ (ok 0, with_stream))
create-idempotent_example = create-idempotent s none empty_store with_stream 0 create_run

abbrev after_delete : World
after_delete = (delete s with_stream).1

delete_result : (delete s with_stream).0 ≡ ok tt
unfolding delete delete_locked create check_open execute check_name lookup row lock_for_removal
    remove_if_exists open_stream open_role init_stream recover open_for_scan new_stream scan
    fsync_dir close_object writable assign log_path close_file
delete_result = refl

delete_run : delete s with_stream ≡ (ok tt, after_delete)
delete_run = ap (λ r. (r, after_delete)) delete_result

delete-open_example :
    open_existing s (record after_delete { os = [] })
    ≡ (err (key_error s), record after_delete { os = [] })
delete-open_example = delete-open s with_stream after_delete delete_run

-- what a delete leaves that crashed before it removed the log
abbrev leftover : World
leftover = record empty_store {
  dir = (codes "d/s.log", 0) ∷ [];
  inodes =
      record { log = record { bytes = codes "old"; durable = codes "old" }; holder = none } ∷ [];
}

create-IsNew_example : Ends IsNew (create s none leftover)
unfolding find_row lookup
create-IsNew_example = create-IsNew s none [] leftover refl refl refl

leftover_test : (create s none leftover).0 ≡ ok 0
unfolding create check_name lookup row execute lock_for_removal remove_if_exists open_stream
    open_role init_stream recover open_for_scan new_stream scan fsync_dir assign log_path close_file
    remove
leftover_test = refl
