-- ===== src/Store/Keeps.antt =====
-- What leaves the open streams of a store as they are.
use durastream.Common.{
  ℕ, ◌≡◌, refl, ◌∙◌, Bool, true, false, Option, none, some, List, [], ◌∷◌, get_elem?, length, Text,
}
use durastream.Errors.{Result, ok, err}
use durastream.Exec.{Exec, continue}
use durastream.Disk.{Answer, done, fail, short}
use durastream.Stream.Defs.{Stream}
use durastream.Dict.{lookup}
use durastream.Store.{World, asked, Inode, Locking, no_fcntl, unsupported, enforced}
use durastream.Store.Files.{
  fsync_dir, lock_for_removal, on_inode, close_file, flock_held, try_lock, try_lock_by, must_lock,
  add_file, probe, lock_by, unlink, close_guard, remove_if_exists, inode_of,
}
use durastream.Store.Ops.{close_stream, close_handle, close_object}

-- What leaves the open streams as they are.
abbrev pub Keeps : {A : Type 0} → Exec World A → Type 0
Keeps m = (w : World) → (m w).1.opened ≡ w.opened

pub continue-Keeps :
    {A B : Type 0} (f : A → Exec World B) (r : Result A × World)
    → ((a : A) → Keeps (f a))
    → (continue f r).1.opened ≡ r.1.opened
continue-Keeps f (ok a, w) h = h a w
continue-Keeps f (err e, w) h = refl

pub asked-Keeps :
    {A : Type 0} (os : List Answer) (m : Exec World A)
    → Keeps m
    → (w : World) → (asked os m w).1.opened ≡ w.opened
asked-Keeps [] m h w = h w
asked-Keeps (done ∷ os) m h w = h (record w { os = os })
asked-Keeps (fail ∷ os) m h w = refl
asked-Keeps (short k ∷ os) m h w = h (record w { os = os })

pub on_inode-Keeps :
    (g : Inode → Inode) (o : Option ℕ) (w : World) → (on_inode g o w).opened ≡ w.opened
on_inode-Keeps g none w = refl
on_inode-Keeps g (some ino) w = refl

pub close_file-Keeps : (f : ℕ) (w : World) → (close_file f w).opened ≡ w.opened
unfolding close_file
close_file-Keeps f w = on_inode-Keeps _ (inode_of f w) w

pub flock_held-Keeps : (f : ℕ) (h : Option ℕ) (w : World) → (flock_held f h w).1.opened ≡ w.opened
flock_held-Keeps f (some h) w = refl
flock_held-Keeps f none w = on_inode-Keeps _ (inode_of f w) w

pub try_lock-Keeps : (f : ℕ) → Keeps (try_lock f)
unfolding try_lock
try_lock-Keeps f w = by w.locking
  where
    by : (l : Locking) → (try_lock_by l f w).1.opened ≡ w.opened
    by no_fcntl = refl
    by unsupported = refl
    by enforced = asked-Keeps w.os _ (λ v. flock_held-Keeps f _ v) w

pub must_lock-Keeps : (name : Text) (f : ℕ) (b : Bool) → Keeps (must_lock name f b)
must_lock-Keeps name f true w = refl
must_lock-Keeps name f false w = close_file-Keeps f w

pub probe-Keeps : (name : Text) (o : Option ℕ) → Keeps (probe name o)
probe-Keeps name none w = refl
probe-Keeps name (some ino) w =
    let u = (add_file ino w).1 in
    continue-Keeps (must_lock name (length w.files)) (try_lock (length w.files) u)
      (must_lock-Keeps name (length w.files))
    ∙ try_lock-Keeps (length w.files) u

pub lock_for_removal-Keeps : (name path : Text) → Keeps (lock_for_removal name path)
unfolding lock_for_removal
lock_for_removal-Keeps name path w = by w.locking
  where
    by : (l : Locking) → (lock_by l name path w).1.opened ≡ w.opened
    by no_fcntl = refl
    by unsupported = asked-Keeps w.os _ (λ v. probe-Keeps name (lookup path v.dir) v) w
    by enforced = asked-Keeps w.os _ (λ v. probe-Keeps name (lookup path v.dir) v) w

pub unlink-Keeps : (path : Text) (o : Option ℕ) → Keeps (unlink path o)
unlink-Keeps path none w = refl
unlink-Keeps path (some ino) w = refl

pub remove_if_exists-Keeps : (path : Text) → Keeps (remove_if_exists path)
unfolding remove_if_exists
remove_if_exists-Keeps path w = asked-Keeps w.os _ (λ v. unlink-Keeps path (lookup path v.dir) v) w

pub fsync_dir-Keeps : Keeps fsync_dir
unfolding fsync_dir
fsync_dir-Keeps w = asked-Keeps w.os _ (λ v. asked-Keeps v.os _ (λ u. refl) v) w

pub close_guard-Keeps : (guard : Option ℕ) (w : World) → (close_guard guard w).opened ≡ w.opened
close_guard-Keeps none w = refl
close_guard-Keeps (some f) w = close_file-Keeps f w

pub close_handle-Keeps : (file : Option ℕ) (w : World) → (close_handle file w).opened ≡ w.opened
close_handle-Keeps none w = refl
close_handle-Keeps (some f) w = close_file-Keeps f w

pub close_object-Keeps : (o : ℕ) (w : World) → (close_object o w).opened ≡ w.opened
unfolding close_object
close_object-Keeps o w = by (get_elem? w.heap o)
  where
    by : (s : Option Stream) → (close_stream o s w).opened ≡ w.opened
    by none = refl
    by (some s) = close_handle-Keeps s.file _
