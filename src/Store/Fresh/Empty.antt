-- ===== src/Store/Fresh/Empty.antt =====
-- The file of a name without an entry, as src/durastream/stream.py opens it for a new stream.
use durastream.Common.{
  ℕ, ◌≡◌, refl, sym, ap, ◌∙◌, subst, Bool, false, Option, none, some, List, [], length, Text,
  get_elem?, set, get_elem-append_last, get_elem-set, get_elem-set_other, get_elem-some, ℕ_discrete,
  if-true, if-false, Bool-cases, inl, inr,
}
use durastream.Errors.{ok}
use durastream.Exec.{pure, ◌>>=◌}
use durastream.Disk.{LogFile}
use durastream.Dict.{lookup}
use durastream.Store.{
  World, Inode, Locking, no_fcntl, unsupported, enforced, empty_log, update_inode, put_inode,
  holder_at,
}
use durastream.Store.Files.{
  inode_of, on_inode, flock_held, flock, try_lock_by, try_lock, add_log, open_append, open_read,
  open_role,
}
use durastream.Store.Ops.{log_in}
use durastream.Store.Unlinked.{Ends, continue-Ends, asked-Ends}

-- the log of an inode
abbrev pub log_at : ℕ → World → LogFile
log_at ino w = log_in (get_elem? w.inodes ino)

-- A lock that is taken or let go leaves every log as it is.
update-log :
    (g : Inode → Inode)
    → ((i : Inode) → (g i).log ≡ i.log)
    → (j ino : ℕ) (inodes : List Inode)
    → log_in (get_elem? (update_inode g j inodes) ino) ≡ log_in (get_elem? inodes ino)
update-log g keeps j ino inodes = by (get_elem? inodes j) refl
  where
    by :
        (o : Option Inode)
        → get_elem? inodes j ≡ o
        → log_in (get_elem? (put_inode g j inodes o) ino) ≡ log_in (get_elem? inodes ino)
    by none e = refl
    by (some i) e = elim (ℕ_discrete ino j) [
      | yes same ↦
          ap (λ k. log_in (get_elem? (set inodes j (g i)) k)) same
          ∙ ap log_in (get_elem-set inodes j (g i) (get_elem-some inodes j i e))
          ∙ keeps i
          ∙ sym (ap log_in (ap (get_elem? inodes) same ∙ e))
      | no other ↦ ap log_in (get_elem-set_other inodes j ino (g i) other)
    ]

-- The log that is put into an inode is empty, so the inode's is.
pub put-empty :
    (log : LogFile)
    → log.bytes ≡ []
    → (ino : ℕ) (inodes : List Inode)
    → (log_in (get_elem? (update_inode (λ i. record i { log = log }) ino inodes) ino)).bytes ≡ []
put-empty log e ino inodes = by (get_elem? inodes ino) refl
  where
    by :
        (o : Option Inode)
        → get_elem? inodes ino ≡ o
        → (log_in (get_elem? (put_inode (λ i. record i { log = log }) ino inodes o) ino)).bytes ≡ []
    by none q = ap (λ o. (log_in o).bytes) q
    by (some i) q =
        ap (λ o. (log_in o).bytes)
          (get_elem-set inodes ino (record i { log = log }) (get_elem-some inodes ino i q))
        ∙ e

-- An open file of an empty log.
abbrev pub OnEmpty : ℕ → World → Type 0
OnEmpty f w = (ino : ℕ) × (inode_of f w ≡ some ino) × (log_at ino w ≡ empty_log)

flock_held-OnEmpty :
    (f g : ℕ) (holder : Option ℕ) (w : World) → OnEmpty f w → OnEmpty f (flock_held g holder w).1
flock_held-OnEmpty f g (some k) w h = h
flock_held-OnEmpty f g none w (ino, at, e) = by (inode_of g w)
  where
    by : (j : Option ℕ) → OnEmpty f (on_inode (λ i. record i { holder = some g }) j w)
    by none = (ino, at, e)
    by (some j) =
        (ino, at, update-log (λ i. record i { holder = some g }) (λ i. refl) j ino w.inodes ∙ e)

try_lock_by-OnEmpty :
    (l : Locking) (f : ℕ) (w : World) → OnEmpty f w → Ends (λ b. OnEmpty f) (try_lock_by l f w)
try_lock_by-OnEmpty no_fcntl f w h = h
try_lock_by-OnEmpty unsupported f w h = h
try_lock_by-OnEmpty enforced f w h =
    asked-Ends (λ b. OnEmpty f) w.os (λ v. let (b, u) = flock f v in (ok b, u)) w
      (flock_held-OnEmpty f f (holder_at w.inodes (inode_of f w)) w h)
      (λ os. flock_held-OnEmpty f f (holder_at w.inodes (inode_of f w)) (record w { os = os }) h)

abbrev pub RoleOnEmpty : ℕ × Bool → World → Type 0
RoleOnEmpty (f, owner) = OnEmpty f

-- A file that has no entry is opened as a new and empty log, or not at all.
module _ (path : Text) where
  new-OnEmpty :
      (found : Option ℕ) (w : World)
      → found ≡ none
      → Ends RoleOnEmpty
          ((open_append path found >>= λ f. try_lock f >>= λ owner. pure (f, owner)) w)
  unfolding try_lock
  new-OnEmpty (some ino) w e = absurd (cc e)
  new-OnEmpty none w e =
      continue-Ends (λ b. OnEmpty (length w.files)) RoleOnEmpty
        (λ owner. pure (length w.files, owner)) _
        (try_lock_by-OnEmpty w.locking (length w.files) (add_log path w).1 (
          length w.inodes,
          get_elem-append_last w.files (length w.inodes),
          ap log_in (get_elem-append_last w.inodes (record { log = empty_log; holder = none })),
        ))
        (λ b v h. h)

  read-none :
      (found : Option ℕ) (w : World)
      → found ≡ none
      → Ends RoleOnEmpty ((open_read found >>= λ f. pure (f, false)) w)
  read-none (some ino) w e = absurd (cc e)
  read-none none w e = tt

  pub open_role-OnEmpty :
      (w : World) → lookup path w.dir ≡ none → Ends RoleOnEmpty (open_role path w)
  unfolding open_role
  open_role-OnEmpty w e = elim (Bool-cases w.read_only) [
    | inl a ↦ subst (Ends RoleOnEmpty) (sym (if-true _ _ a)) (
        asked-Ends RoleOnEmpty w.os _ w (read-none (lookup path w.dir) w e)
          (λ os. read-none (lookup path w.dir) (record w { os = os }) e))
    | inr a ↦ subst (Ends RoleOnEmpty) (sym (if-false _ _ a)) (
        asked-Ends RoleOnEmpty w.os _ w (new-OnEmpty (lookup path w.dir) w e)
          (λ os. new-OnEmpty (lookup path w.dir) (record w { os = os }) e))
  ]
