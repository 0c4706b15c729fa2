-- ===== src/Store/Removal.antt =====
-- What a delete that returns leaves.
use durastream.Common.{
  ℕ, ◌≡◌, refl, ap, ◌∙◌, subst, Bool, true, false, Option, none, some, List, [], ◌∷◌, get_elem?,
  Text, if◌then◌else◌, arith,
}
use durastream.Errors.{Result, ok, err, key_error}
use durastream.Exec.{Exec, continue}
use durastream.Disk.{Answer, done, fail, short}
use durastream.Meta
use durastream.Meta.{Row, find_row, remove_row, run, execute, delete_row, select_row}
use durastream.Names.{log_path}
use durastream.Codec.{Zlib}
use durastream.Store.Keeps.{
  lock_for_removal-Keeps, remove_if_exists-Keeps, fsync_dir-Keeps, close_guard-Keeps,
  close_object-Keeps,
}
use durastream.Stream.Defs.{Stream}
use durastream.Dict.{lookup, remove, lookup-remove}
use durastream.Store.{World, Locking, no_fcntl, unsupported, enforced, in_meta}
use durastream.Store.Files.{fsync_dir, lock_for_removal, remove_if_exists}
use durastream.Store.Ops.{row, close_object, notify_stream, notify_object, first_row}
use durastream.Store.Methods.{
  open_opened, open_row, open_existing, delete, delete_locked, delete_guard, unlink_log, pop_found,
  sync_removal, delete_row_of, delete_found, close_found, close_first, owns,
}

find_row-remove_row : (name : Text) (rows : List Row) → find_row name (remove_row name rows) ≡ []
unfolding find_row remove_row
find_row-remove_row name [] = refl
find_row-remove_row name (r ∷ rows) = ground (arith, find_row-remove_row name rows)

-- The row of the name is gone.
abbrev Gone : Text → Option (List Row) → Type 0
Gone name none = ⊥
Gone name (some rows) = find_row name rows ≡ []

abbrev Deleted : Text → Result (Unit {0}) × World → Type 0
Deleted name (ok _, w) = (lookup name w.opened ≡ none) × Gone name w.db
Deleted name (err e, w) = Unit {0}

module _ (name : Text) where
  continue-Deleted :
      {A : Type 0} (f : A → Exec World (Unit {0})) (r : Result A × World)
      → ((a : A) → Deleted name (f a r.1))
      → Deleted name (continue f r)
  continue-Deleted f (ok a, w) h = h a
  continue-Deleted f (err e, w) h = tt

  row-Deleted :
      (db : Option (List Row)) (os : List Answer) (w : World)
      → lookup name w.opened ≡ none
      → Deleted name (delete_row_of name (record w { db = db; os = os }))
  unfolding execute run
  row-Deleted none os w h = tt
  row-Deleted (some rows) [] w h = (h, find_row-remove_row name rows)
  row-Deleted (some rows) (done ∷ os) w h = (h, find_row-remove_row name rows)
  row-Deleted (some rows) (fail ∷ os) w h = tt
  row-Deleted (some rows) (short k ∷ os) w h = (h, find_row-remove_row name rows)

  sync-Deleted :
      (removed : Bool) (w : World)
      → lookup name w.opened ≡ none
      → Deleted name (continue (λ _. delete_row_of name) (sync_removal removed w))
  sync-Deleted true w h =
      continue-Deleted _ (fsync_dir w)
        (λ _. row-Deleted _ _ (fsync_dir w).1 (ap (lookup name) (fsync_dir-Keeps w) ∙ h))
  sync-Deleted false w h = row-Deleted w.db w.os w h

  pop-Deleted :
      (found : Option ℕ) (removed : Bool) (w : World)
      → lookup name w.opened ≡ found
      → Deleted name (
          continue
            (λ _ v. continue (λ _. delete_row_of name) (sync_removal removed v))
            (pop_found name found w))
  pop-Deleted none removed w h = sync-Deleted removed w h
  pop-Deleted (some o) removed w h =
      let v = record w { opened = remove name w.opened } in
      sync-Deleted removed (close_object o v)
        (ap (lookup name) (close_object-Keeps o v) ∙ lookup-remove name w.opened)

  close_found-Keeps : (found : Option ℕ) (w : World) → (close_found found w).opened ≡ w.opened
  close_found-Keeps none w = refl
  close_found-Keeps (some o) w = close_object-Keeps o w

  close_first-Keeps :
      (l : Locking) (found : Option ℕ) (w : World) → (close_first l found w).opened ≡ w.opened
  close_first-Keeps no_fcntl found w = close_found-Keeps found w
  close_first-Keeps unsupported found w = refl
  close_first-Keeps enforced found w = refl

  unlink_log-Keeps :
      (found guard : Option ℕ) (w : World) → (unlink_log name found guard w).1.opened ≡ w.opened
  unlink_log-Keeps found guard w =
      let v = close_first w.locking found w in
      close_guard-Keeps guard (remove_if_exists (log_path w.streams_dir name) v).1
      ∙ remove_if_exists-Keeps (log_path w.streams_dir name) v
      ∙ close_first-Keeps w.locking found w

  delete_guard-Keeps :
      (found : Option ℕ) (w : World) → (delete_guard name found w).1.opened ≡ w.opened
  delete_guard-Keeps found w = by (owns found w)
    where
      by :
          (b : Bool)
          → (if b
              then (ok none, w)
              else lock_for_removal name (log_path w.streams_dir name) w).1.opened
            ≡ w.opened
      by true = refl
      by false = lock_for_removal-Keeps name (log_path w.streams_dir name) w

  locked-Deleted :
      (found : Option ℕ) (w : World)
      → lookup name w.opened ≡ found
      → Deleted name (delete_locked name found w)
  unfolding delete_locked
  locked-Deleted found w h =
      let v = (delete_guard name found w).1 in
      continue-Deleted _ (delete_guard name found w) (λ guard.
        let u = (unlink_log name found guard v).1 in
        continue-Deleted _ (unlink_log name found guard v) (λ removed.
          pop-Deleted found removed u
            (ap (lookup name) (unlink_log-Keeps found guard v ∙ delete_guard-Keeps found w) ∙ h)))

  told-Deleted :
      (s : Option Stream) (r : Result (Unit {0}) × World)
      → Deleted name r
      → Deleted name (r.0, notify_stream s r.1)
  told-Deleted none r h = h
  told-Deleted (some s) (ok t, w) h = h
  told-Deleted (some s) (err e, w) h = tt

  found-Deleted :
      (found : Option ℕ) (w : World)
      → lookup name w.opened ≡ found
      → Deleted name (delete_found name found w)
  unfolding notify_object
  found-Deleted none w h = locked-Deleted none w h
  found-Deleted (some o) w h =
      told-Deleted (get_elem? (delete_locked name (some o) w).1.heap o)
        (delete_locked name (some o) w) (locked-Deleted (some o) w h)

  delete-Deleted : (w : World) → Deleted name (delete name w)
  unfolding delete
  delete-Deleted w = continue-Deleted _ (in_meta Meta.check_open w) (λ _. found-Deleted _ _ refl)

  no_row :
      (db : Option (List Row)) (w : World)
      → Gone name db
      → row name (record w { db = db; os = [] }) ≡ (ok none, record w { db = db; os = [] })
  unfolding row execute run
  no_row none w h = absurd h
  no_row (some rows) w h =
      ap (λ found. (ok (first_row found), record w { db = some rows; os = [] })) h

  -- If `delete` of a store returns, then as long as no call of the system fails, `open` of the name
  -- raises a `KeyError` with the name, and leaves everything as it is.
  pub delete-open :
      ⦃z : Zlib⦄
      → (w w' : World) → delete name w ≡ (ok tt, w')
      → open_existing name (record w' { os = [] }) ≡ (err (key_error name), record w' { os = [] })
  unfolding open_existing
  delete-open w w' e =
      let h = subst (Deleted name) e (delete-Deleted w) in
      ap (λ found. open_opened name found (record w' { os = [] })) h.0
      ∙ ap (continue (open_row name)) (no_row w'.db w' h.1)
