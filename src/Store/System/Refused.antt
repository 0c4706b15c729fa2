-- ===== src/Store/System/Refused.antt =====
-- What a store cannot do to a stream that another one has the lock of.
use durastream.Common.{
  ℕ, zero, suc, ◌<◌, ◌≡◌, refl, sym, ap, ◌∙◌, false, not, Option, none, some, List, [], ◌∷◌, ◌++◌,
  Bytes, Text, get_elem?, set, length, ◌==◌, arith, Bool-cases, inl, inr, if-true, if-false,
  get_elem-append_last,
}
use mathlib.Core.Option.{some-injective}
use durastream.Errors.{Error, Result, ok, err, value_error, stream_closed, stream_locked}
use durastream.Exec.{continue}
use durastream.Meta.{Row, check_open}
use durastream.Names.{log_path}
use durastream.Codec.{Zlib}
use durastream.Dict.{lookup}
use durastream.Stream.Defs.{Stream, Machine, writable, next_offset}
use durastream.Stream.Write.{append_many, notify}
use durastream.Stream.Outcome.{all_fit, guard_error, append_many-refused}
use durastream.Store.{
  World, Inode, enforced, asked, as_machine, put_inode, update_inode, held_by, holder_at,
  release_holder,
}
use durastream.Store.Files.{
  inode_of, on_inode, close_file, flock_held, flock, try_lock, try_lock_by, must_lock, probe,
  lock_by, lock_for_removal,
}
use durastream.Store.Ops.{log_in, log_of, notify_stream, notify_object}
use durastream.Store.Methods.{
  is_writer, owns, delete, delete_locked, notify_found, unlink_log, pop_found, sync_removal,
  delete_row_of,
}
use durastream.Store.System.{log_inode, on_stream, Reached, WritesTo}
use durastream.Store.System.OneWriter.{Reached-Sound, is_writer-owner}

-- a guard refuses an append to a stream that is not this process's
reader-guard :
    (ps : List Bytes) (w : Machine) → writable w ≡ false → (e : Error) × (guard_error ps w ≡ some e)
reader-guard ps w h = elim (Bool-cases (all_fit ps)) [
  | inr big ↦ (value_error, if-true _ _ (ap not big))
  | inl fit ↦ elim (Bool-cases w.self.closed) [
    | inl c ↦ (stream_closed w.self.name, if-false _ _ (ap not fit) ∙ if-true _ _ c)
    | inr c ↦ (
      stream_locked w.self.name,
      if-false _ _ (ap not fit) ∙ if-false _ _ c ∙ if-true _ _ (ap not h),
    )
  ]
]

set-get : {A : Type 0} (xs : List A) (i : ℕ) (x : A) → get_elem? xs i ≡ some x → set xs i x ≡ xs
set-get [] i x e = refl
set-get (y ∷ xs) zero x e = ap (λ h. h ∷ xs) (sym (some-injective y x e))
set-get (y ∷ xs) (suc i) x e = ap (λ t. y ∷ t) (set-get xs i x e)

-- A log that is put back as it was.
put_back :
    (at : Option ℕ) (w v : World)
    → v.inodes ≡ w.inodes
    → (on_inode (λ i. record i { log = log_of at w }) at v).inodes ≡ w.inodes
put_back none w v e = e
put_back (some ino) w v e = ap (update_inode back ino) e ∙ by (get_elem? w.inodes ino) refl
  where
    back : Inode → Inode
    back i = record i { log = log_in (get_elem? w.inodes ino) }

    by : (o : Option Inode) → get_elem? w.inodes ino ≡ o → put_inode back ino w.inodes o ≡ w.inodes
    by none q = refl
    by (some i) q =
        ap (λ r. set w.inodes ino (record i { log = log_in r })) q ∙ set-get w.inodes ino i q

module _ ⦃z : Zlib⦄ where
  -- An append to a stream that is not this process's raises an error, and leaves every log, every lock
  -- and the database as they are.
  pub append-refused :
      (o : ℕ) (s : Stream) (payloads : List Bytes) (w : World)
      → is_writer (some s) w ≡ false
      → ((e : Error) × ((on_stream o s (append_many payloads) w).0 ≡ err e))
        × ((on_stream o s (append_many payloads) w).1.inodes ≡ w.inodes)
        × ((on_stream o s (append_many payloads) w).1.db ≡ w.db)
  unfolding notify writable
  append-refused o s payloads w h = (
    (guard.0, ap (λ r. r.0) run),
    ap
          (λ (r : Result ℕ × Machine).
            (on_inode (λ i. record i { log = r.1.log }) at (after r)).inodes)
          run
        ∙ put_back at w (after (err guard.0, notify (next_offset s) [] before)) refl,
    same_db at,
  )
    where
      at : Option ℕ
      at = log_inode s w

      before : Machine
      before = as_machine w s (log_of (log_inode s w) w)

      guard : (e : Error) × (guard_error payloads before ≡ some e)
      guard = reader-guard payloads before h

      run : append_many payloads before ≡ (err guard.0, notify (next_offset s) [] before)
      run = append_many-refused payloads before guard.1

      after : Result ℕ × Machine → World
      after r = record w {
        heap = set w.heap o r.1.self;
        db = r.1.db;
        os = r.1.os;
        calls = r.1.calls;
      }

      same_db :
          (at : Option ℕ)
          → (on_inode
              (λ i. record i { log = (append_many payloads before).1.log })
              at
              (after (append_many payloads before))).db
            ≡ w.db
      same_db none = ap (λ r. r.1.db) run
      same_db (some ino) = ap (λ r. r.1.db) run

-- what a delete leaves alone where it is refused
abbrev pub Untouched : World → World → Type 0
Untouched w v = (v.dir ≡ w.dir) × (v.db ≡ w.db) × (v.opened ≡ w.opened) × (v.heap ≡ w.heap)

close_file-Untouched : (f : ℕ) (w : World) → Untouched w (close_file f w)
unfolding close_file
close_file-Untouched f w = by (inode_of f w)
  where
    by :
        (at : Option ℕ)
        → Untouched w (on_inode (λ i. record i { holder = release_holder f i.holder }) at w)
    by none = (refl, refl, refl, refl)
    by (some ino) = (refl, refl, refl, refl)

notify_found-Untouched : (found : Option ℕ) (w : World) → Untouched w (notify_found found w)
unfolding notify_object
notify_found-Untouched none w = (refl, refl, refl, refl)
notify_found-Untouched (some o) w = by (get_elem? w.heap o)
  where
    by : (s : Option Stream) → Untouched w (notify_stream s w)
    by none = (refl, refl, refl, refl)
    by (some s) = (refl, refl, refl, refl)

==_lt : (m n : ℕ) → m < n → (m == n) ≡ false
==_lt m n lt = ground arith

module _ (w : World) (locking : w.locking ≡ enforced) (os : w.os ≡ []) (ino f : ℕ)
    (held : held_by (get_elem? w.inodes ino) ≡ some f) (lt : f < length w.files) where
  abbrev n : ℕ
  n = length w.files

  abbrev probed : World
  probed = record w { files = w.files ++ ino ∷ [] }

  try_lock-held : try_lock n probed ≡ (ok false, probed)
  unfolding try_lock
  try_lock-held =
      ap (λ l. try_lock_by l n probed) locking
      ∙ ap (λ answers. asked answers (λ v. let (b, u) = flock n v in (ok b, u)) probed) os
      ∙ ap (λ at. let (b, u) = flock_held n (holder_at w.inodes at) probed in (ok b, u))
          (get_elem-append_last w.files ino)
      ∙ ap (λ h. let (b, u) = flock_held n h probed in (ok b, u)) held
      ∙ ap (λ b. (ok b, probed)) (==_lt f n lt)

  probe-held :
      (name : Text) → probe name (some ino) w ≡ (err (stream_locked name), close_file n probed)
  probe-held name = ap (continue (must_lock name n)) try_lock-held

  lock_for_removal-held :
      (name path : Text)
      → lookup path w.dir ≡ some ino
      → lock_for_removal name path w ≡ (err (stream_locked name), close_file n probed)
  unfolding lock_for_removal
  lock_for_removal-held name path at =
      ap (λ l. lock_by l name path w) locking
      ∙ ap (λ answers. asked answers (λ v. probe name (lookup path v.dir) v) w) os
      ∙ ap (λ o. probe name o w) at
      ∙ probe-held name

  delete_locked-held :
      (name : Text) (found : Option ℕ)
      → owns found w ≡ false
      → lookup (log_path w.streams_dir name) w.dir ≡ some ino
      → delete_locked name found w ≡ (err (stream_locked name), close_file n probed)
  unfolding delete_locked
  delete_locked-held name found reader at =
      ap
        (continue (λ guard v.
          continue
            (λ removed u.
              continue (λ _ x. continue (λ _. delete_row_of name) (sync_removal removed x))
                (pop_found name found u))
            (unlink_log name found guard v)))
        (if-false _ _ reader ∙ lock_for_removal-held name (log_path w.streams_dir name) at)

-- the answers of the system and the connection do not matter to who the writer is
owns-same :
    (rows : List Row) (found : Option ℕ) (w : World)
    → owns found (record w { db = some rows; os = [] }) ≡ owns found w
unfolding writable
owns-same rows none w = refl
owns-same rows (some o) w = by (get_elem? w.heap o)
  where
    by : (s : Option Stream) → is_writer s (record w { db = some rows; os = [] }) ≡ is_writer s w
    by none = refl
    by (some s) = refl

-- Where an object has the lock of the log of `name`, a delete by a store whose own stream of that name
-- is not open or not the writer's raises `StreamLocked`, if no call of the system fails; the files'
-- names, the database, the open streams and the objects are left as they are.
pub delete-refused :
    ⦃z : Zlib⦄
    → (w : World) → Reached w
    → (name : Text) (rows : List Row) (p ino j : ℕ) → WritesTo p ino j w
    → lookup (log_path w.streams_dir name) w.dir ≡ some ino
    → owns (lookup name w.opened) w ≡ false
    → ((delete name (record w { db = some rows; os = [] })).0 ≡ err (stream_locked name))
      × Untouched
          (record w { db = some rows; os = [] })
          (delete name (record w { db = some rows; os = [] })).1
unfolding delete check_open writable
delete-refused w reached name rows p ino j (t, e, can, (f, q, at)) there reader =
    let sound = Reached-Sound reached in
    let held =
      ap (holder_at w.inodes) (sym at)
      ∙ sound.1.held p t f e q (is_writer-owner t (record w { getpid = j }) can) in
    let run =
      delete_locked-held (record w { db = some rows; os = [] }) sound.0 refl ino f held
        (sound.1.bounded ino f held) name (lookup name w.opened)
        (owns-same rows (lookup name w.opened) w ∙ reader) there in
    let told =
      notify_found-Untouched (lookup name w.opened)
        (delete_locked name (lookup name w.opened) (record w { db = some rows; os = [] })).1 in
    let shut =
      close_file-Untouched (length w.files)
        (record w { files = w.files ++ ino ∷ []; db = some rows; os = [] }) in
    let end = ap (λ r. r.1) run in
    (
      ap (λ r. r.0) run,
      (
        told.0 ∙ ap (λ u. u.dir) end ∙ shut.0,
        told.1 ∙ ap (λ u. u.db) end ∙ shut.1,
        told.2 ∙ ap (λ u. u.opened) end ∙ shut.2,
        told.3 ∙ ap (λ u. u.heap) end ∙ shut.3,
      ),
    )
