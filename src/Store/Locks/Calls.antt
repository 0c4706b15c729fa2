-- ===== src/Store/Locks/Calls.antt =====
-- The calls of the system that a store makes keep the invariant of locks.
use durastream.Common.{
  ℕ, ◌<◌, ◌≡◌, refl, sym, ap, ◌∙◌, subst, Bool, true, false, Option, none, some, List, [], ◌∷◌,
  ◌++◌, Text, inl, inr, Bool-cases, length, length-append, get_elem?, get_elem-append_last,
  get_elem-some, get_elem-lt, ==_iff, if-true, if-false, arith,
}
use durastream.Errors.{Result, ok, err}
use durastream.Exec.{Exec, continue, pure}
use durastream.Disk.{Answer, done, fail, short}
use durastream.Dict.{lookup, assign, lookup-Below, remove-Below}
use durastream.Store.{
  Inode, Locking, no_fcntl, unsupported, enforced, World, asked, empty_log, update_inode, held_by,
  holder_at, release_holder,
}
use durastream.Store.Files.{
  inode_of, on_inode, close_file, flock_held, try_lock, try_lock_by, add_file, open_append,
  open_read, open_role, unlink, remove_if_exists, must_lock, probe, lock_by, lock_for_removal,
  close_guard, fsync_dir,
}
use durastream.Store.Locks.{
  Inv, IsFree, next-IsFree, file-Inv, inode-Inv, lock-Inv, unlock-Inv, held-update,
}

-- `flock` works, and the invariant holds.
abbrev pub Sound : World → Type 0
Sound w = (w.locking ≡ enforced) × Inv w.dir w.heap w.files w.inodes

-- A call keeps the invariant, also where it raises, and gives `Q` where it returns.
abbrev pub Gives : {A : Type 0} → (A → World → Type 0) → Result A × World → Type 0
Gives Q (ok a, w) = Sound w × Q a w
Gives Q (err e, w) = Sound w

abbrev pub Any : {A : Type 0} → A → World → Type 0
Any a w = Unit {0}

-- A file that no object has, and whose log is locked by it if `owner` says so.
abbrev pub IsLent : ℕ → Bool → World → Type 0
IsLent f owner w =
    IsFree f w.heap
    × (f < length w.files)
    × (owner ≡ true → holder_at w.inodes (inode_of f w) ≡ some f)

pub Any-Gives : {A : Type 0} (r : Result A) (w : World) → Sound w → Gives Any (r, w)
Any-Gives (ok a) w s = (s, tt)
Any-Gives (err e) w s = s

pub continue-Gives :
    {A B : Type 0} (Q : A → World → Type 0) (R : B → World → Type 0) (f : A → Exec World B)
    (r : Result A × World)
    → Gives Q r
    → ((a : A) (w : World) → Sound w → Q a w → Gives R (f a w))
    → Gives R (continue f r)
continue-Gives Q R f (ok a, w) s k = k a w s.0 s.1
continue-Gives Q R f (err e, w) s k = s

pub asked-Gives :
    {A : Type 0} (Q : A → World → Type 0) (os : List Answer) (m : Exec World A) (w : World)
    → Sound w
    → Gives Q (m w)
    → ((os' : List Answer) → Gives Q (m (record w { os = os' })))
    → Gives Q (asked os m w)
asked-Gives Q [] m w s now k = now
asked-Gives Q (done ∷ os) m w s now k = k os
asked-Gives Q (fail ∷ os) m w s now k = s
asked-Gives Q (short n ∷ os) m w s now k = k os

pub close_file-Sound : (f : ℕ) (w : World) → Sound w → IsFree f w.heap → Sound (close_file f w)
unfolding close_file
close_file-Sound f w s free = by (inode_of f w)
  where
    by :
        (at : Option ℕ)
        → Sound (on_inode (λ i. record i { holder = release_holder f i.holder }) at w)
    by none = s
    by (some ino) = (s.0, unlock-Inv w.dir w.heap w.files w.inodes s.1 f ino free)

-- the new file of a call
add_file-Lent :
    (ino : ℕ) (w : World)
    → Sound w
    → ino < length w.inodes
    → Gives (λ f u. IsLent f false u × (inode_of f u ≡ some ino)) (add_file ino w)
add_file-Lent ino w s lt = (
  (s.0, file-Inv w.dir w.heap w.files w.inodes s.1 ino lt),
  (
    (
      next-IsFree w.dir w.heap w.files w.inodes s.1,
      omega (arith, length-append w.files (ino ∷ [])),
      λ e. cc e,
    ),
    get_elem-append_last w.files ino,
  ),
)

flock_held-Lent :
    (f ino : ℕ) (held : Option ℕ) (w : World)
    → Sound w
    → IsFree f w.heap
    → inode_of f w ≡ some ino
    → holder_at w.inodes (inode_of f w) ≡ held
    → Sound (flock_held f held w).1 × IsLent f (flock_held f held w).0 (flock_held f held w).1
flock_held-Lent f ino (some h) w s free at e =
    (s, (free, get_elem-some w.files f ino at, λ b. e ∙ ap some ((==_iff h f).0 b)))
flock_held-Lent f ino none w s free at e =
    subst (λ a. Sound (on_inode lock a w) × IsLent f true (on_inode lock a w)) (sym at)
      (
        (s.0, lock-Inv w.dir w.heap w.files w.inodes s.1 f ino at unheld),
        (
          free,
          get_elem-some w.files f ino at,
          λ b.
              ap (holder_at (update_inode lock ino w.inodes)) at
              ∙ held-update lock ino w.inodes there.0 there.1,
        ),
      )
  where
    lock : Inode → Inode
    lock i = record i { holder = some f }

    unheld : held_by (get_elem? w.inodes ino) ≡ none
    unheld = ap (holder_at w.inodes) (sym at) ∙ e

    there : (i : Inode) × (get_elem? w.inodes ino ≡ some i)
    there = get_elem-lt w.inodes ino (s.1.inos f ino at)

pub try_lock-Lent :
    (f ino : ℕ) (w : World)
    → Sound w
    → IsFree f w.heap
    → inode_of f w ≡ some ino
    → Gives (λ b u. IsLent f b u) (try_lock f w)
unfolding try_lock
try_lock-Lent f ino w s free at = by w.locking s.0
  where
    locked :
        (os : List Answer)
        → Gives
            (λ b u. IsLent f b u)
            (let v = record w { os = os } in
              let (b, u) = flock_held f (holder_at v.inodes (inode_of f v)) v in (ok b, u))
    locked os = flock_held-Lent f ino _ (record w { os = os }) s free at refl

    by : (l : Locking) → l ≡ enforced → Gives (λ b u. IsLent f b u) (try_lock_by l f w)
    by no_fcntl e = absurd (cc e)
    by unsupported e = absurd (cc e)
    by enforced e = asked-Gives (λ b u. IsLent f b u) w.os _ w s (locked w.os) locked

-- A file of the call, whose inode is known.
abbrev IsOpened : ℕ → World → Type 0
IsOpened f w = IsFree f w.heap × (f < length w.files) × ((ino : ℕ) × (inode_of f w ≡ some ino))

IsOpened-Gives :
    (ino : ℕ) (w : World) → Sound w → ino < length w.inodes → Gives IsOpened (add_file ino w)
IsOpened-Gives ino w s lt =
    let r = add_file-Lent ino w s lt in (r.0, (r.1.0.0, r.1.0.1, (ino, r.1.1)))

open_append-Gives :
    (path : Text) (at : Option ℕ) (w : World)
    → lookup path w.dir ≡ at
    → Sound w
    → Gives IsOpened (open_append path at w)
open_append-Gives path (some ino) w e s =
    IsOpened-Gives ino w s (lookup-Below _ w.dir path ino s.1.entries e)
open_append-Gives path none w e s =
    IsOpened-Gives (length w.inodes)
      (record w {
        inodes = w.inodes ++ record { log = empty_log; holder = none } ∷ [];
        dir = assign path (length w.inodes) w.dir;
      })
      (
        s.0,
        inode-Inv w.dir w.heap w.files w.inodes s.1 path (record { log = empty_log; holder = none })
            refl,
      )
      (omega (arith, length-append w.inodes (record { log = empty_log; holder = none } ∷ [])))

open_read-Gives :
    (path : Text) (at : Option ℕ) (w : World)
    → lookup path w.dir ≡ at
    → Sound w
    → Gives IsOpened (open_read at w)
open_read-Gives path (some ino) w e s =
    IsOpened-Gives ino w s (lookup-Below _ w.dir path ino s.1.entries e)
open_read-Gives path none w e s = s

abbrev pub HasRole : ℕ × Bool → World → Type 0
HasRole r w = IsLent r.0 r.1 w

pub open_role-Gives : (path : Text) (w : World) → Sound w → Gives HasRole (open_role path w)
unfolding open_role
open_role-Gives path w s = elim (Bool-cases w.read_only) [
  | inl a ↦
      subst (Gives HasRole) (sym (if-true _ _ a))
        (asked-Gives HasRole w.os _ w s (reader w.os) reader)
  | inr a ↦
      subst (Gives HasRole) (sym (if-false _ _ a))
        (asked-Gives HasRole w.os _ w s (writer w.os) writer)
]
  where
    reader :
        (os : List Answer)
        → Gives HasRole
            (continue (λ f. pure (f, false)) (open_read (lookup path w.dir) (record w { os = os })))
    reader os =
        continue-Gives IsOpened HasRole _ _ (open_read-Gives path _ (record w { os = os }) refl s)
          (λ f u su q. (su, (q.0, q.1, λ e. cc e)))

    writer :
        (os : List Answer)
        → Gives HasRole (
            continue
              (λ f v. continue (λ owner. pure (f, owner)) (try_lock f v))
              (open_append path (lookup path w.dir) (record w { os = os })))
    writer os =
        continue-Gives IsOpened HasRole _ _ (open_append-Gives path _ (record w { os = os }) refl s)
          (λ f u su q.
            continue-Gives (λ b v. IsLent f b v) HasRole _ _ (try_lock-Lent f q.2.0 u su q.0 q.2.1)
              (λ b v sv l. (sv, l)))

-- The file of a probe is no object's.
abbrev pub IsGuard : Option ℕ → World → Type 0
IsGuard none w = Unit {0}
IsGuard (some f) w = IsFree f w.heap

must_lock-Gives :
    (name : Text) (f : ℕ) (b : Bool) (w : World)
    → Sound w
    → IsFree f w.heap
    → Gives IsGuard (must_lock name f b w)
must_lock-Gives name f true w s free = (s, free)
must_lock-Gives name f false w s free = close_file-Sound f w s free

probe-Gives :
    (name path : Text) (at : Option ℕ) (w : World)
    → lookup path w.dir ≡ at
    → Sound w
    → Gives IsGuard (probe name at w)
probe-Gives name path none w e s = (s, tt)
probe-Gives name path (some ino) w e s =
    continue-Gives IsOpened IsGuard _ (add_file ino w)
      (IsOpened-Gives ino w s (lookup-Below _ w.dir path ino s.1.entries e))
      (λ f u su q.
        continue-Gives (λ b v. IsLent f b v) IsGuard _ _ (try_lock-Lent f q.2.0 u su q.0 q.2.1)
          (λ b v sv l. must_lock-Gives name f b v sv l.0))

pub lock_for_removal-Gives :
    (name path : Text) (w : World) → Sound w → Gives IsGuard (lock_for_removal name path w)
unfolding lock_for_removal
lock_for_removal-Gives name path w s = by w.locking s.0
  where
    by : (l : Locking) → l ≡ enforced → Gives IsGuard (lock_by l name path w)
    by no_fcntl e = absurd (cc e)
    by unsupported e = absurd (cc e)
    by enforced e =
        asked-Gives IsGuard w.os _ w s (probe-Gives name path _ (record w { os = w.os }) refl s)
          (λ os. probe-Gives name path _ (record w { os = os }) refl s)

pub close_guard-Sound :
    (guard : Option ℕ) (w : World) → Sound w → IsGuard guard w → Sound (close_guard guard w)
close_guard-Sound none w s q = s
close_guard-Sound (some f) w s q = close_file-Sound f w s q

-- A removal keeps the objects, whether or not it succeeds.
abbrev pub SameHeap : World → World → Type 0
SameHeap w v = Sound v × (v.heap ≡ w.heap)

pub remove_if_exists-Sound :
    (path : Text) (w : World) → Sound w → SameHeap w (remove_if_exists path w).1
unfolding remove_if_exists
remove_if_exists-Sound path w s = by w.os
  where
    unlinked :
        (os : List Answer) (at : Option ℕ) → SameHeap w (unlink path at (record w { os = os })).1
    unlinked os none = (s, refl)
    unlinked os (some ino) = (
      (
        s.0,
        record {
          entries = remove-Below (length w.inodes) w.dir path s.1.entries;
          inos = s.1.inos;
          bounded = s.1.bounded;
          known = s.1.known;
          held = s.1.held;
          distinct = s.1.distinct;
        },
      ),
      refl,
    )

    by : (os : List Answer) → SameHeap w (asked os (λ v. unlink path (lookup path v.dir) v) w).1
    by [] = unlinked w.os (lookup path w.dir)
    by (done ∷ os) = unlinked os (lookup path w.dir)
    by (fail ∷ os) = (s, refl)
    by (short k ∷ os) = unlinked os (lookup path w.dir)

pub fsync_dir-Gives : (w : World) → Sound w → Gives Any (fsync_dir w)
unfolding fsync_dir
fsync_dir-Gives w s = asked-Gives Any w.os _ w s (inner w s) (λ os. inner (record w { os = os }) s)
  where
    inner :
        (v : World)
        → Sound v
        → Gives Any (asked v.os (λ u. (ok tt, record u { durable_dir = u.dir })) v)
    inner v sv = asked-Gives Any v.os _ v sv (sv, tt) (λ os. (sv, tt))
