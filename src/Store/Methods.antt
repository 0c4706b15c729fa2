-- ===== src/Store/Methods.antt =====
-- The methods of `Store`, as other code calls them.
use durastream.Common.{
  ℕ, Bool, true, false, Option, none, some, List, [], ◌∷◌, map, Text, get_elem?, if◌then◌else◌,
}
use durastream.Errors.{ok, err, key_error}
use durastream.Exec.{Exec, pure, lift, ◌>>=◌}
use durastream.Meta
use durastream.Meta.{Row, create_table, insert_row, delete_row, select_names, Meta}
use durastream.Names.{check_name, log_path}
use durastream.Codec.{Zlib}
use durastream.Stream.Defs.{Stream, new_stream, recover, writable}
use durastream.Dict.{Dict, lookup, assign, remove}
use durastream.Store.{World, Locking, no_fcntl, empty_log, as_machine, asked, in_meta}
use durastream.Store.Files.{
  inode_of, open_role, lock_for_removal, remove_if_exists, close_guard, fsync_dir,
}
use durastream.Store.Ops.{
  log_of, settle_object, row, check_type, close_object, notify_object, default_content_type,
}

-- `__init__`: the directory, the database, whose file holds `rows`, and its table
unfoldable pub init : List Row → Exec World (Unit {0})
init rows w =
    asked w.os
      (λ v.
        (in_meta (Meta.execute create_table) >>= λ _. pure tt)
          (record v { opened = []; db = some rows }))
      w

abbrev pub register : Text → ℕ → Exec World ℕ
register name o w = (ok o, record w { opened = assign name o w.opened })

-- `list`: what the database returns, in its order
unfoldable pub list : Exec World (List Text)
list = in_meta (Meta.execute select_names) >>= λ rows. pure (map (λ (r : Row). r.name) rows)

module _ ⦃z : Zlib⦄ where
  -- `DurableStream.__init__` once the file is open
  unfoldable pub init_stream : Text → Text → Bool → ℕ → Bool → Exec World ℕ
  init_stream name content_type closed f owner w =
      let s = new_stream name (log_path w.streams_dir name) content_type closed f owner w.getpid in
      settle_object f w (recover (as_machine w s (log_of (inode_of f w) w)))

  unfoldable pub open_stream : Text → Text → Bool → Exec World ℕ
  open_stream name content_type closed w =
      (open_role (log_path w.streams_dir name) >>= λ r.
      init_stream name content_type closed r.0 r.1 >>= register name)
        w

  -- The new row, the new log, and its directory entry.
  abbrev pub insert : Text → Text → Exec World ℕ
  insert name content_type w =
      (in_meta (
            Meta.execute (
              insert_row record {
                name = name;
                content_type = content_type;
                closed = false;
                created_at = w.time;
              }))
          >>= λ _. open_stream name content_type false >>= λ o. fsync_dir >>= λ _. pure o)
        w

  -- A log without a row is removed under its lock, and the probe closed whether or not that succeeds.
  abbrev pub remove_under : Text → Option ℕ → Exec World Bool
  remove_under path guard w = let (r, w') = remove_if_exists path w in (r, close_guard guard w')

  abbrev pub or_default : Option Text → Text
  or_default none = default_content_type
  or_default (some content_type) = content_type

  abbrev pub create_new : Text → Option Text → Exec World ℕ
  create_new name content_type w =
      (lock_for_removal name (log_path w.streams_dir name) >>= λ guard.
      remove_under (log_path w.streams_dir name) guard >>= λ removed.
      insert name (or_default content_type))
        w

  abbrev pub create_row : Text → Option Text → Option (Text × Bool) → Exec World ℕ
  create_row name content_type (some (existing, closed)) w =
      (lift (check_type existing content_type) >>= λ _. open_stream name existing closed) w
  create_row name content_type none w = create_new name content_type w

  -- the type of the object that is open
  abbrev pub type_of : Option Stream → Text
  type_of none = []
  type_of (some s) = s.content_type

  abbrev pub create_opened : Text → Option Text → Option ℕ → Exec World ℕ
  create_opened name content_type (some o) w =
      (lift (check_type (type_of (get_elem? w.heap o)) content_type) >>= λ _. pure o) w
  create_opened name content_type none w = (row name >>= create_row name content_type) w

  unfoldable pub create : Text → Option Text → Exec World ℕ
  create name content_type =
      lift (check_name name) >>= λ _. λ w. create_opened name content_type (lookup name w.opened) w

  abbrev pub open_row : Text → Option (Text × Bool) → Exec World ℕ
  open_row name none w = (err (key_error name), w)
  open_row name (some (content_type, closed)) w = open_stream name content_type closed w

  abbrev pub open_opened : Text → Option ℕ → Exec World ℕ
  open_opened name (some o) w = (ok o, w)
  open_opened name none w = (row name >>= open_row name) w

  -- `open`
  unfoldable pub open_existing : Text → Exec World ℕ
  open_existing name w = open_opened name (lookup name w.opened) w

abbrev pub is_writer : Option Stream → World → Bool
is_writer none w = false
is_writer (some s) w = writable (as_machine w s empty_log)

abbrev pub owns : Option ℕ → World → Bool
owns none w = false
owns (some o) w = is_writer (get_elem? w.heap o) w

-- The lock that is held across the unlink: the writer's own, or a probe's.
abbrev pub delete_guard : Text → Option ℕ → Exec World (Option ℕ)
delete_guard name found w =
    if owns found w then (ok none, w) else lock_for_removal name (log_path w.streams_dir name) w

abbrev pub close_found : Option ℕ → World → World
close_found none w = w
close_found (some o) w = close_object o w

-- Without `fcntl` an open file cannot be unlinked, so it is closed first.
abbrev pub close_first : Locking → Option ℕ → World → World
close_first no_fcntl found w = close_found found w
close_first _ found w = w

abbrev pub unlink_log : Text → Option ℕ → Option ℕ → Exec World Bool
unlink_log name found guard w =
    let (r, w') = remove_if_exists (log_path w.streams_dir name) (close_first w.locking found w) in
    (r, close_guard guard w')

abbrev pub pop_found : Text → Option ℕ → Exec World (Unit {0})
pop_found name none w = (ok tt, w)
pop_found name (some o) w = (ok tt, close_object o (record w { opened = remove name w.opened }))

abbrev pub sync_removal : Bool → Exec World (Unit {0})
sync_removal true w = fsync_dir w
sync_removal false w = (ok tt, w)

abbrev pub delete_row_of : Text → Exec World (Unit {0})
delete_row_of name = in_meta (Meta.execute (delete_row name)) >>= λ _. pure tt

unfoldable pub delete_locked : Text → Option ℕ → Exec World (Unit {0})
delete_locked name found = delete_guard name found >>= λ guard.
    unlink_log name found guard >>= λ removed.
    pop_found name found >>= λ _. sync_removal removed >>= λ _. delete_row_of name

abbrev pub notify_found : Option ℕ → World → World
notify_found none w = w
notify_found (some o) w = notify_object o w

-- Once the stream is found, its listeners are told whether or not the rest succeeds.
abbrev pub delete_found : Text → Option ℕ → Exec World (Unit {0})
delete_found name found w = let (r, w') = delete_locked name found w in (r, notify_found found w')

unfoldable pub delete : Text → Exec World (Unit {0})
delete name = in_meta Meta.check_open >>= λ _. λ w. delete_found name (lookup name w.opened) w

abbrev pub close_all : Dict → World → World
close_all [] w = w
close_all ((name, o) ∷ streams) w = close_all streams (close_object o w)

abbrev pub notify_all : Dict → World → World
notify_all [] w = w
notify_all ((name, o) ∷ streams) w = notify_all streams (notify_object o w)

abbrev pub close_meta : World → World
close_meta w = record w { db = (Meta.close (record { db = w.db; os = w.os })).db }

unfoldable pub close : World → World
close w = notify_all w.opened (close_meta (close_all w.opened (record w { opened = [] })))
