-- ===== src/Store/Unlinked.antt =====
-- The entry of a log in the directory, over the calls of the system that `create` makes.
use durastream.Common.{
  ℕ, ◌≡◌, refl, Bool, true, false, Option, none, some, List, [], ◌∷◌, ◌++◌, length, Text,
}
use durastream.Errors.{Result, ok, err}
use durastream.Exec.{Exec, continue}
use durastream.Disk.{Answer, done, fail, short}
use durastream.Codec.{Zlib}
use durastream.Dict.{lookup, lookup-remove}
use durastream.Store.{
  World, Inode, Locking, no_fcntl, unsupported, enforced, asked, holder_at, release_holder,
}
use durastream.Store.Files.{
  inode_of, on_inode, close_file, flock_held, flock, try_lock_by, try_lock, unlink,
  remove_if_exists, must_lock, probe, lock_by, lock_for_removal, close_guard,
}
use durastream.Store.Methods.{remove_under}

-- What holds of a result, if there is one.
abbrev pub Ends : {A : Type 0} → (A → World → Type 0) → Result A × World → Type 0
Ends Q (ok a, w) = Q a w
Ends Q (err e, w) = Unit {0}

pub continue-Ends :
    {A B : Type 0} (Q : A → World → Type 0) (P : B → World → Type 0) (f : A → Exec World B)
    (r : Result A × World)
    → Ends Q r
    → ((a : A) (w : World) → Q a w → Ends P (f a w))
    → Ends P (continue f r)
continue-Ends Q P f (ok a, w) h k = k a w h
continue-Ends Q P f (err e, w) h k = tt

pub asked-Ends :
    {A : Type 0} (P : A → World → Type 0) (os : List Answer) (m : Exec World A) (w : World)
    → Ends P (m w)
    → ((os : List Answer) → Ends P (m (record w { os = os })))
    → Ends P (asked os m w)
asked-Ends P [] m w h k = h
asked-Ends P (done ∷ os) m w h k = k os
asked-Ends P (fail ∷ os) m w h k = tt
asked-Ends P (short n ∷ os) m w h k = k os

-- the directory of the logs
abbrev pub In : Text → World → Type 0
In d w = w.streams_dir ≡ d

module _ (d : Text) where
  on_inode-In : (g : Inode → Inode) (ino : Option ℕ) (w : World) → In d w → In d (on_inode g ino w)
  on_inode-In g none w h = h
  on_inode-In g (some ino) w h = h

  close_file-In : (f : ℕ) (w : World) → In d w → In d (close_file f w)
  unfolding close_file
  close_file-In f w h = on_inode-In _ (inode_of f w) w h

  flock_held-In : (f : ℕ) (holder : Option ℕ) (w : World) → In d w → In d (flock_held f holder w).1
  flock_held-In f none w h = on_inode-In _ (inode_of f w) w h
  flock_held-In f (some k) w h = h

  try_lock_by-In : (l : Locking) (f : ℕ) (w : World) → In d w → Ends (λ b. In d) (try_lock_by l f w)
  try_lock_by-In no_fcntl f w h = h
  try_lock_by-In unsupported f w h = h
  try_lock_by-In enforced f w h =
      asked-Ends (λ b. In d) w.os (λ v. let (b, u) = flock f v in (ok b, u)) w
        (flock_held-In f (holder_at w.inodes (inode_of f w)) w h)
        (λ os. flock_held-In f (holder_at w.inodes (inode_of f w)) (record w { os = os }) h)

  must_lock-In :
      (name : Text) (f : ℕ) (b : Bool) (w : World)
      → In d w
      → Ends (λ g. In d) (must_lock name f b w)
  must_lock-In name f true w h = h
  must_lock-In name f false w h = tt

  probe-In :
      (name : Text) (found : Option ℕ) (w : World) → In d w → Ends (λ g. In d) (probe name found w)
  unfolding try_lock
  probe-In name none w h = h
  probe-In name (some ino) w h =
      continue-Ends (λ b. In d) (λ g. In d) (must_lock name (length w.files)) _
        (try_lock_by-In w.locking (length w.files) (record w { files = w.files ++ ino ∷ [] }) h)
        (λ b v k. must_lock-In name (length w.files) b v k)

  lock_by-In :
      (l : Locking) (name path : Text) (w : World)
      → In d w
      → Ends (λ g. In d) (lock_by l name path w)
  lock_by-In no_fcntl name path w h = h
  lock_by-In unsupported name path w h =
      asked-Ends (λ g. In d) w.os _ w (probe-In name _ w h)
        (λ os. probe-In name _ (record w { os = os }) h)
  lock_by-In enforced name path w h =
      asked-Ends (λ g. In d) w.os _ w (probe-In name _ w h)
        (λ os. probe-In name _ (record w { os = os }) h)

  pub lock_for_removal-In :
      (name path : Text) (w : World) → In d w → Ends (λ g. In d) (lock_for_removal name path w)
  unfolding lock_for_removal
  lock_for_removal-In name path w h = lock_by-In w.locking name path w h

-- no entry under `path`
abbrev pub NoEntry : Text → Text → World → Type 0
NoEntry d path w = In d w × (lookup path w.dir ≡ none)

module _ (d path : Text) where
  unlink-NoEntry :
      (found : Option ℕ) (w : World)
      → In d w
      → lookup path w.dir ≡ found
      → Ends (λ b. NoEntry d path) (unlink path found w)
  unlink-NoEntry none w h e = (h, e)
  unlink-NoEntry (some ino) w h e = (h, lookup-remove path w.dir)

  remove_if_exists-NoEntry :
      (w : World) → In d w → Ends (λ b. NoEntry d path) (remove_if_exists path w)
  unfolding remove_if_exists
  remove_if_exists-NoEntry w h =
      asked-Ends (λ b. NoEntry d path) w.os _ w (unlink-NoEntry (lookup path w.dir) w h refl)
        (λ os. unlink-NoEntry (lookup path w.dir) (record w { os = os }) h refl)

  close_file-NoEntry : (f : ℕ) (w : World) → NoEntry d path w → NoEntry d path (close_file f w)
  unfolding close_file
  close_file-NoEntry f w h = by (inode_of f w)
    where
      by :
          (ino : Option ℕ)
          → NoEntry d path (on_inode (λ i. record i { holder = release_holder f i.holder }) ino w)
      by none = h
      by (some ino) = h

  pub remove_under-NoEntry :
      ⦃z : Zlib⦄
      → (guard : Option ℕ) (w : World) → In d w
      → Ends (λ b. NoEntry d path) (remove_under path guard w)
  remove_under-NoEntry guard w h = by guard (remove_if_exists path w) (remove_if_exists-NoEntry w h)
    where
      by :
          (guard : Option ℕ) (r : Result Bool × World)
          → Ends (λ b. NoEntry d path) r
          → Ends (λ b. NoEntry d path) (r.0, close_guard guard r.1)
      by none (ok b, v) k = k
      by (some f) (ok b, v) k = close_file-NoEntry f v k
      by g (err e, v) k = tt
