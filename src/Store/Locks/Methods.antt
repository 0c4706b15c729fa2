-- ===== src/Store/Locks/Methods.antt =====
-- The methods of a store keep the invariant of locks.
use durastream.Common.{
  ℕ, ◌≡◌, refl, sym, subst, Bool, true, false, Option, none, some, [], ◌∷◌, ◌++◌, Text, get_elem?,
  set, if◌then◌else◌,
}
use durastream.Errors.{Result, ok, err}
use durastream.Exec.{continue, pure}
use durastream.Disk.{LogFile}
use durastream.Meta
use durastream.Meta.{Row, insert_row, select_row, delete_row}
use durastream.Names.{check_name, log_path}
use durastream.Codec.{Zlib}
use durastream.Dict.{Dict, lookup, remove}
use durastream.Stream.Defs.{Stream, Machine, new_stream}
use durastream.Stream.Write.{close_fds}
use durastream.Stream.Role.{recover-Role}
use durastream.Store.{Locking, no_fcntl, unsupported, enforced, World, as_machine, in_meta}
use durastream.Store.Files.{inode_of, on_inode, lock_for_removal, remove_if_exists, fsync_dir}
use durastream.Store.Ops.{
  first_row, log_of, settle_object, row, check_type, close_handle, close_stream, close_object,
  notify_stream, notify_object,
}
use durastream.Store.Methods.{
  register, init_stream, open_stream, insert, remove_under, create_new, create_row, create_opened,
  create, open_row, open_opened, open_existing, type_of, or_default, delete_guard, close_first,
  unlink_log, pop_found, sync_removal, delete_row_of, delete_locked, delete_found, delete,
  close_all, notify_all, close, owns,
}
use durastream.Store.Locks.{IsFree, object-Inv, log-Inv, set-Inv, set-IsFree}
use durastream.Store.Locks.Calls.{
  Sound, Gives, Any, IsLent, HasRole, IsGuard, Any-Gives, continue-Gives, close_file-Sound,
  open_role-Gives, lock_for_removal-Gives, close_guard-Sound, SameHeap, remove_if_exists-Sound,
  fsync_dir-Gives,
}

pub put_log-Sound :
    (at : Option ℕ) (log : LogFile) (w : World)
    → Sound w
    → Sound (on_inode (λ i. record i { log = log }) at w)
put_log-Sound none log w s = s
put_log-Sound (some ino) log w s = (s.0, log-Inv w.dir w.heap w.files w.inodes s.1 log ino)

put_log-heap :
    (at : Option ℕ) (log : LogFile) (w : World)
    → (on_inode (λ i. record i { log = log }) at w).heap ≡ w.heap
put_log-heap none log w = refl
put_log-heap (some ino) log w = refl

settle_object-Gives :
    (f : ℕ) (w : World) (r : Result (Unit {0}) × Machine)
    → Sound w
    → IsLent f r.1.self.owner w
    → r.1.self.file ≡ some f
    → Gives Any (settle_object f w r)
settle_object-Gives f w (ok t, m) s lent file = (
  put_log-Sound (inode_of f w) m.log (record w { heap = w.heap ++ m.self ∷ []; os = m.os })
      (s.0, object-Inv w.dir w.heap w.files w.inodes s.1 m.self f file lent.0 lent.1 lent.2),
  tt,
)
settle_object-Gives f w (err e, m) s lent file =
    close_file-Sound f _ (put_log-Sound (inode_of f w) m.log (record w { os = m.os }) s)
      (subst (IsFree f) (sym (put_log-heap (inode_of f w) m.log (record w { os = m.os }))) lent.0)

IsGuard-SameHeap :
    (guard : Option ℕ) (w v : World) → v.heap ≡ w.heap → IsGuard guard w → IsGuard guard v
IsGuard-SameHeap none w v e q = tt
IsGuard-SameHeap (some f) w v e q = subst (IsFree f) (sym e) q

-- `s._close_fds()` in a store
close_handle-Sound :
    (file : Option ℕ) (w : World)
    → Sound w
    → ((f : ℕ) → file ≡ some f → IsFree f w.heap)
    → Sound (close_handle file w)
close_handle-Sound none w s free = s
close_handle-Sound (some f) w s free = close_file-Sound f w s (free f refl)

pub close_object-Sound : (o : ℕ) (w : World) → Sound w → Sound (close_object o w)
unfolding close_object close_fds
close_object-Sound o w s = by (get_elem? w.heap o) refl
  where
    by : (t : Option Stream) → get_elem? w.heap o ≡ t → Sound (close_stream o t w)
    by none e = s
    by (some t) e =
        close_handle-Sound t.file (record w { heap = set w.heap o (close_fds t) })
          (
            s.0,
            set-Inv w.dir w.heap w.files w.inodes s.1 o t (close_fds t) e (λ f q. absurd (cc q))
                (λ q. absurd (cc q)),
          )
          (λ f q. set-IsFree w.dir w.heap w.files w.inodes s.1 o t (close_fds t) f e q refl)

pub notify_object-Sound : (o : ℕ) (w : World) → Sound w → Sound (notify_object o w)
unfolding notify_object
notify_object-Sound o w s = by (get_elem? w.heap o)
  where
    by : (t : Option Stream) → Sound (notify_stream t w)
    by none = s
    by (some t) = s

row-Gives : (name : Text) (w : World) → Sound w → Gives Any (row name w)
unfolding row
row-Gives name w s =
    continue-Gives Any Any (λ rows. pure (first_row rows))
      (in_meta (Meta.execute (select_row name)) w) (Any-Gives _ _ s) (λ rows v sv q. (sv, tt))

module _ ⦃z : Zlib⦄ where
  init_stream-Gives :
      (name content_type : Text) (closed : Bool) (f : ℕ) (owner : Bool) (w : World)
      → Sound w
      → IsLent f owner w
      → Gives Any (init_stream name content_type closed f owner w)
  unfolding init_stream new_stream
  init_stream-Gives name content_type closed f owner w s lent =
      let t = new_stream name (log_path w.streams_dir name) content_type closed f owner w.getpid in
      let role = recover-Role (as_machine w t (log_of (inode_of f w) w)) in
      settle_object-Gives f w _ s (subst (λ b. IsLent f b w) (sym role.1) lent) role.0

  open_stream-Gives :
      (name content_type : Text) (closed : Bool) (w : World)
      → Sound w
      → Gives Any (open_stream name content_type closed w)
  unfolding open_stream
  open_stream-Gives name content_type closed w s =
      continue-Gives HasRole Any _ _ (open_role-Gives (log_path w.streams_dir name) w s)
        (λ r v sv role.
          continue-Gives Any Any (register name) _
            (init_stream-Gives name content_type closed r.0 r.1 v sv role) (λ o u su q. (su, tt)))

  insert-Gives :
      (name content_type : Text) (w : World) → Sound w → Gives Any (insert name content_type w)
  insert-Gives name content_type w s =
      continue-Gives Any Any
        (λ rows v.
          continue (λ o u. continue (λ t. pure o) (fsync_dir u))
            (open_stream name content_type false v))
        (in_meta
          (Meta.execute (
            insert_row (record {
              name = name;
              content_type = content_type;
              closed = false;
              created_at = w.time;
            })))
          w)
        (Any-Gives _ _ s)
        (λ rows v sv q.
          continue-Gives Any Any _ _ (open_stream-Gives name content_type false v sv) (λ o u su q'.
            continue-Gives Any Any _ _ (fsync_dir-Gives u su) (λ t x sx q''. (sx, tt))))

  remove_under-Gives :
      (path : Text) (guard : Option ℕ) (w : World)
      → Sound w
      → IsGuard guard w
      → Gives Any (remove_under path guard w)
  remove_under-Gives path guard w s g =
      let r = remove_if_exists-Sound path w s in
      Any-Gives _ _ (close_guard-Sound guard _ r.0 (IsGuard-SameHeap guard w _ r.1 g))

  create_new-Gives :
      (name : Text) (content_type : Option Text) (w : World)
      → Sound w
      → Gives Any (create_new name content_type w)
  create_new-Gives name content_type w s =
      let path = log_path w.streams_dir name in
      continue-Gives IsGuard Any _ _ (lock_for_removal-Gives name path w s) (λ guard v sv g.
        continue-Gives Any Any _ _ (remove_under-Gives path guard v sv g)
          (λ removed u su q. insert-Gives name (or_default content_type) u su))

  create_row-Gives :
      (name : Text) (content_type : Option Text) (o : Option (Text × Bool)) (w : World)
      → Sound w
      → Gives Any (create_row name content_type o w)
  create_row-Gives name content_type none w s = create_new-Gives name content_type w s
  create_row-Gives name content_type (some (existing, closed)) w s =
      continue-Gives Any Any _ _ (Any-Gives (check_type existing content_type) w s)
        (λ t v sv q. open_stream-Gives name existing closed v sv)

  create_opened-Gives :
      (name : Text) (content_type : Option Text) (found : Option ℕ) (w : World)
      → Sound w
      → Gives Any (create_opened name content_type found w)
  create_opened-Gives name content_type (some o) w s =
      continue-Gives Any Any _ _
        (Any-Gives (check_type (type_of (get_elem? w.heap o)) content_type) w s)
        (λ t v sv q. (sv, tt))
  create_opened-Gives name content_type none w s =
      continue-Gives Any Any _ _ (row-Gives name w s)
        (λ r v sv q. create_row-Gives name content_type r v sv)

  pub create-Gives :
      (name : Text) (content_type : Option Text) (w : World)
      → Sound w
      → Gives Any (create name content_type w)
  unfolding create
  create-Gives name content_type w s =
      continue-Gives Any Any _ _ (Any-Gives (check_name name) w s)
        (λ n v sv q. create_opened-Gives name content_type (lookup name v.opened) v sv)

  open_row-Gives :
      (name : Text) (r : Option (Text × Bool)) (w : World) → Sound w → Gives Any (open_row name r w)
  open_row-Gives name none w s = s
  open_row-Gives name (some (content_type, closed)) w s =
      open_stream-Gives name content_type closed w s

  open_opened-Gives :
      (name : Text) (found : Option ℕ) (w : World) → Sound w → Gives Any (open_opened name found w)
  open_opened-Gives name (some o) w s = (s, tt)
  open_opened-Gives name none w s =
      continue-Gives Any Any _ _ (row-Gives name w s) (λ r v sv q. open_row-Gives name r v sv)

  pub open_existing-Gives : (name : Text) (w : World) → Sound w → Gives Any (open_existing name w)
  unfolding open_existing
  open_existing-Gives name w s = open_opened-Gives name (lookup name w.opened) w s

close_first-eq :
    (l : Locking) (found : Option ℕ) (w : World) → l ≡ enforced → close_first l found w ≡ w
close_first-eq no_fcntl found w e = absurd (cc e)
close_first-eq unsupported found w e = refl
close_first-eq enforced found w e = refl

delete_guard-Gives :
    (name : Text) (found : Option ℕ) (w : World)
    → Sound w
    → Gives IsGuard (delete_guard name found w)
delete_guard-Gives name found w s = by (owns found w)
  where
    by :
        (b : Bool)
        → Gives IsGuard
            (if b then (ok none, w) else lock_for_removal name (log_path w.streams_dir name) w)
    by true = (s, tt)
    by false = lock_for_removal-Gives name (log_path w.streams_dir name) w s

unlink_log-Gives :
    (name : Text) (found guard : Option ℕ) (w : World)
    → Sound w
    → IsGuard guard w
    → Gives Any (unlink_log name found guard w)
unlink_log-Gives name found guard w s g =
    let path = log_path w.streams_dir name in
    let r =
      subst (λ v. SameHeap w (remove_if_exists path v).1)
        (sym (close_first-eq w.locking found w s.0)) (remove_if_exists-Sound path w s) in
    Any-Gives _ _ (close_guard-Sound guard _ r.0 (IsGuard-SameHeap guard w _ r.1 g))

pop_found-Gives :
    (name : Text) (found : Option ℕ) (w : World) → Sound w → Gives Any (pop_found name found w)
pop_found-Gives name none w s = (s, tt)
pop_found-Gives name (some o) w s =
    (close_object-Sound o (record w { opened = remove name w.opened }) s, tt)

sync_removal-Gives : (removed : Bool) (w : World) → Sound w → Gives Any (sync_removal removed w)
sync_removal-Gives true w s = fsync_dir-Gives w s
sync_removal-Gives false w s = (s, tt)

pub Gives-Sound :
    {A : Type 0} (Q : A → World → Type 0) (r : Result A × World) → Gives Q r → Sound r.1
Gives-Sound Q (ok a, w) g = g.0
Gives-Sound Q (err e, w) g = g

delete_row_of-Gives : (name : Text) (w : World) → Sound w → Gives Any (delete_row_of name w)
delete_row_of-Gives name w s =
    continue-Gives Any Any (λ rows. pure tt) (in_meta (Meta.execute (delete_row name)) w)
      (Any-Gives _ _ s) (λ rows v sv q. (sv, tt))

delete_locked-Gives :
    (name : Text) (found : Option ℕ) (w : World) → Sound w → Gives Any (delete_locked name found w)
unfolding delete_locked
delete_locked-Gives name found w s =
    continue-Gives IsGuard Any _ _ (delete_guard-Gives name found w s) (λ guard v sv g.
      continue-Gives Any Any _ _ (unlink_log-Gives name found guard v sv g) (λ removed u su q.
        continue-Gives Any Any _ _ (pop_found-Gives name found u su) (λ t x sx q'.
          continue-Gives Any Any _ _ (sync_removal-Gives removed x sx)
            (λ t' y sy q''. delete_row_of-Gives name y sy))))

delete_found-Sound :
    (name : Text) (found : Option ℕ) (w : World) → Sound w → Sound (delete_found name found w).1
delete_found-Sound name none w s = Gives-Sound Any _ (delete_locked-Gives name none w s)
delete_found-Sound name (some o) w s =
    notify_object-Sound o _ (Gives-Sound Any _ (delete_locked-Gives name (some o) w s))

pub delete-Gives : (name : Text) (w : World) → Sound w → Gives Any (delete name w)
unfolding delete
delete-Gives name w s =
    continue-Gives Any Any (λ t v. delete_found name (lookup name v.opened) v)
      (in_meta Meta.check_open w) (Any-Gives _ _ s)
      (λ t v sv q. Any-Gives _ _ (delete_found-Sound name (lookup name v.opened) v sv))

close_all-Sound : (d : Dict) (w : World) → Sound w → Sound (close_all d w)
close_all-Sound [] w s = s
close_all-Sound ((name, o) ∷ d) w s =
    close_all-Sound d (close_object o w) (close_object-Sound o w s)

notify_all-Sound : (d : Dict) (w : World) → Sound w → Sound (notify_all d w)
notify_all-Sound [] w s = s
notify_all-Sound ((name, o) ∷ d) w s =
    notify_all-Sound d (notify_object o w) (notify_object-Sound o w s)

pub close-Sound : (w : World) → Sound w → Sound (close w)
unfolding close
close-Sound w s =
    notify_all-Sound w.opened _ (close_all-Sound w.opened (record w { opened = [] }) s)
