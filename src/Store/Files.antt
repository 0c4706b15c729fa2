-- ===== src/Store/Files.antt =====
-- The files under `Store`: opening, locking and removing a log.
use durastream.Common.{
  ℕ, Bool, true, false, Option, none, some, [], ◌∷◌, ◌++◌, Text, length, get_elem?, ◌==◌,
  if◌then◌else◌,
}
use durastream.Errors.{ok, err, os_error, stream_locked}
use durastream.Exec.{Exec, pure, ◌>>=◌}
use durastream.Dict.{lookup, assign, remove}
use durastream.Store.{
  Inode, Locking, no_fcntl, unsupported, enforced, World, empty_log, asked, update_inode, holder_at,
  release_holder,
}

abbrev pub inode_of : ℕ → World → Option ℕ
inode_of f w = get_elem? w.files f

-- What an open file's inode becomes; a file that is not open changes nothing.
abbrev pub on_inode : (Inode → Inode) → Option ℕ → World → World
on_inode g none w = w
on_inode g (some ino) w = record w { inodes = update_inode g ino w.inodes }

-- Closing a file lets its lock go.
unfoldable pub close_file : ℕ → World → World
close_file f w = on_inode (λ i. record i { holder = release_holder f i.holder }) (inode_of f w) w

abbrev pub flock_held : ℕ → Option ℕ → World → Bool × World
flock_held f (some h) w = (h == f, w)
flock_held f none w = (true, on_inode (λ i. record i { holder = some f }) (inode_of f w) w)

-- `flock` of an open file, without waiting
abbrev pub flock : ℕ → World → Bool × World
flock f w = flock_held f (holder_at w.inodes (inode_of f w)) w

abbrev pub try_lock_by : Locking → ℕ → Exec World Bool
try_lock_by no_fcntl f w = (ok true, w)
try_lock_by unsupported f w = (ok true, w)
try_lock_by enforced f w = asked w.os (λ v. let (b, u) = flock f v in (ok b, u)) w

unfoldable pub try_lock : ℕ → Exec World Bool
try_lock f w = try_lock_by w.locking f w

abbrev pub add_file : ℕ → Exec World ℕ
add_file ino w = (ok (length w.files), record w { files = w.files ++ ino ∷ [] })

-- a new and empty log under `path`
abbrev pub add_log : Text → Exec World ℕ
add_log path w = add_file (length w.inodes) (record w {
  inodes = w.inodes ++ record { log = empty_log; holder = none } ∷ [];
  dir = assign path (length w.inodes) w.dir;
})

abbrev pub open_append : Text → Option ℕ → Exec World ℕ
open_append path (some ino) w = add_file ino w
open_append path none w = add_log path w

-- A file that is not there raises a `FileNotFoundError`.
abbrev pub open_read : Option ℕ → Exec World ℕ
open_read (some ino) w = add_file ino w
open_read none w = (err os_error, w)

-- The file of a new handle, and whether the handle is the writer: without write access it is a reader.
unfoldable pub open_role : Text → Exec World (ℕ × Bool)
unfolding try_lock
open_role path w =
    if w.read_only
    then asked w.os (λ v. (open_read (lookup path v.dir) >>= λ f. pure (f, false)) v) w
    else asked w.os
        (λ v.
          (open_append path (lookup path v.dir) >>= λ f. try_lock f >>= λ owner. pure (f, owner)) v)
        w

-- `os.remove`: the inode stays for those who have it open
abbrev pub unlink : Text → Option ℕ → Exec World Bool
unlink path none w = (ok false, w)
unlink path (some ino) w = (ok true, record w { dir = remove path w.dir })

unfoldable pub remove_if_exists : Text → Exec World Bool
remove_if_exists path w = asked w.os (λ v. unlink path (lookup path v.dir) v) w

abbrev pub must_lock : Text → ℕ → Bool → Exec World (Option ℕ)
must_lock name f true w = (ok (some f), w)
must_lock name f false w = (err (stream_locked name), close_file f w)

abbrev pub probe : Text → Option ℕ → Exec World (Option ℕ)
probe name none w = (ok none, w)
probe name (some ino) w = (add_file ino >>= λ f. try_lock f >>= must_lock name f) w

abbrev pub lock_by : Locking → Text → Text → Exec World (Option ℕ)
lock_by no_fcntl name path w = (ok none, w)
lock_by _ name path w = asked w.os (λ v. probe name (lookup path v.dir) v) w

unfoldable pub lock_for_removal : Text → Text → Exec World (Option ℕ)
lock_for_removal name path w = lock_by w.locking name path w

-- The `finally` that closes the probe's file.
abbrev pub close_guard : Option ℕ → World → World
close_guard none w = w
close_guard (some f) w = close_file f w

-- The directory is opened and its entries are made durable.
unfoldable pub fsync_dir : Exec World (Unit {0})
fsync_dir w = asked w.os (λ v. asked v.os (λ u. (ok tt, record u { durable_dir = u.dir })) v) w
