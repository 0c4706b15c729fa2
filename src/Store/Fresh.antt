-- ===== src/Store/Fresh.antt =====
-- `create` of src/durastream/store.py, for a name without a row.
pub mod Empty
use durastream.Common.{
  ℕ, ◌≡◌, refl, sym, ap, ◌∙◌, subst, Bool, false, Option, none, some, List, [], ◌∷◌, ◌++◌, length,
  Text, get_elem?, set, get_elem-append_last, get_elem-set, get_elem-set_other, get_elem-some,
  ℕ_discrete, if-true, if-false, Bool-cases, inl, inr,
}
use durastream.Errors.{Result, ok, err}
use durastream.Exec.{continue, pure, ◌>>=◌}
use durastream.Disk.{Answer, done, fail, short, LogFile}
use durastream.Meta
use durastream.Meta.{Row, Sql, find_row, execute, run, select_row, insert_row}
use durastream.Names.{check_name, log_path}
use durastream.Codec.{Zlib}
use durastream.Codec.Decode.{decode}
use durastream.Codec.Sound.{AreBytes}
use durastream.Codec.Frames.{decode-encode_all}
use durastream.Dict.{lookup}
use durastream.Stream.Defs.{Stream, Machine, new_stream, recover}
use durastream.Stream.Holds.{Holds}
use durastream.Stream.Recover.{Recovered, recover-Recovered}
use durastream.Stream.Role.{SameRole, recover-Role}
use durastream.Store.{
  World, Inode, Locking, no_fcntl, unsupported, enforced, empty_log, as_machine, asked,
  update_inode, put_inode, holder_at,
}
use durastream.Store.Files.{
  inode_of, on_inode, flock_held, flock, try_lock_by, try_lock, add_log, open_append, open_read,
  open_role, fsync_dir,
}
use durastream.Store.Ops.{log_in, log_of, settle_object, row, first_row}
use durastream.Store.Methods.{
  register, init_stream, open_stream, insert, or_default, create_new, create_row, create_opened,
  create,
}
use durastream.Store.Unlinked.{
  Ends, continue-Ends, asked-Ends, In, NoEntry, lock_for_removal-In, remove_under-NoEntry,
}
use durastream.Store.Fresh.Empty.{log_at, put-empty, OnEmpty, RoleOnEmpty, open_role-OnEmpty}

-- The object `o` has no records, is not closed, and its log is empty.
abbrev pub IsNew : ℕ → World → Type 0
IsNew o w =
    (s : Stream) × (get_elem? w.heap o ≡ some s)
    × (s.index ≡ 0 ∷ [])
    × (s.closed ≡ false)
    × ((ino : ℕ) × ((f : ℕ) × (s.file ≡ some f) × (inode_of f w ≡ some ino))
        × ((log_at ino w).bytes ≡ []))

module _ ⦃z : Zlib⦄ where
  decode-nil : decode [] ≡ []
  decode-nil = decode-encode_all [] tt

  -- the log of a machine that has opened an empty log as an open stream
  still_empty :
      (m v : Machine)
      → m.log ≡ empty_log
      → m.self.closed ≡ false
      → Holds [] v
      → (m.self.owner ≡ false → v.log ≡ m.log)
      → v.self.closed ≡ m.self.closed
      → v.self.owner ≡ m.self.owner
      → v.log.bytes ≡ []
  still_empty m v e c h reader closed owner = elim (Bool-cases m.self.owner) [
    | inl o ↦ h.bytes ∙ h.clean (closed ∙ c) (owner ∙ o)
    | inr o ↦ ap (λ l. l.bytes) (reader o ∙ e)
  ]

  settle-IsNew :
      (f ino : ℕ) (w : World) (m : Machine)
      → inode_of f w ≡ some ino
      → m.log ≡ empty_log
      → m.self.closed ≡ false
      → m.self.file ≡ some f
      → (r : Result (Unit {0}) × Machine) → Recovered m r
      → SameRole m.self r.1.self
      → Ends IsNew (settle_object f w r)
  settle-IsNew f ino w m at e c file (err x, v) h role = tt
  settle-IsNew f ino w m at e c file (ok u, v) (holds, reader, closed) role =
      subst (λ o. IsNew (length w.heap) (on_inode (λ i. record i { log = v.log }) o after)) (sym at)
        (
          v.self,
          get_elem-append_last w.heap v.self,
          empty.index,
          closed ∙ c,
          (
            ino,
            (f, role.0 ∙ file, at),
            put-empty v.log (still_empty m v e c empty reader closed role.1) ino w.inodes,
          ),
        )
    where
      after : World
      after = record w { heap = w.heap ++ v.self ∷ []; os = v.os }

      empty : Holds [] v
      empty = subst (λ rs. Holds rs v) (ap decode (ap (λ l. l.bytes) e) ∙ decode-nil) holds

  module _ (name : Text) where
    init_stream-IsNew :
        (content_type : Text) (f : ℕ) (owner : Bool) (w : World)
        → OnEmpty f w
        → Ends IsNew (init_stream name content_type false f owner w)
    unfolding init_stream new_stream
    init_stream-IsNew content_type f owner w (ino, at, e) =
        settle-IsNew f ino w m at found refl refl (recover m)
          (recover-Recovered m (subst (λ (l : LogFile). AreBytes l.bytes) (sym found) tt))
          (recover-Role m)
      where
        m : Machine
        m =
            as_machine w
              (new_stream name (log_path w.streams_dir name) content_type false f owner w.getpid)
              (log_of (inode_of f w) w)

        found : log_of (inode_of f w) w ≡ empty_log
        found = ap (λ o. log_of o w) at ∙ e

    open_stream-IsNew :
        (content_type d : Text) (w : World)
        → NoEntry d (log_path d name) w
        → Ends IsNew (open_stream name content_type false w)
    unfolding open_stream
    open_stream-IsNew content_type d w (h, e) =
        continue-Ends RoleOnEmpty IsNew
          (λ r v. continue (register name) (init_stream name content_type false r.0 r.1 v)) _
          (open_role-OnEmpty (log_path w.streams_dir name) w
            (ap (λ x. lookup (log_path x name) w.dir) h ∙ e))
          (λ r v q.
            continue-Ends IsNew IsNew (register name) _ (init_stream-IsNew content_type r.0 r.1 v q)
              (λ o u n. n))

    fsync_dir-IsNew :
        (o : ℕ) (w : World) → IsNew o w → Ends IsNew (continue (λ _. pure o) (fsync_dir w))
    unfolding fsync_dir
    fsync_dir-IsNew o w h =
        continue-Ends (λ _. IsNew o) IsNew (λ _. pure o) _
          (asked-Ends (λ _. IsNew o) w.os _ w (synced w h) (λ os. synced (record w { os = os }) h))
          (λ _ v q. q)
      where
        synced :
            (v : World)
            → IsNew o v
            → Ends (λ _. IsNew o) (asked v.os (λ u. (ok tt, record u { durable_dir = u.dir })) v)
        synced v q = asked-Ends (λ _. IsNew o) v.os _ v q (λ os. q)

    insert-IsNew :
        (content_type d : Text) (w : World)
        → NoEntry d (log_path d name) w
        → Ends IsNew (insert name content_type w)
    insert-IsNew content_type d w h =
        continue-Ends (λ _. NoEntry d (log_path d name)) IsNew
          (λ _ v.
            continue (λ o u. continue (λ _. pure o) (fsync_dir u))
              (open_stream name content_type false v))
          _
          (by (
            Meta.execute
              (insert_row (record {
                name = name;
                content_type = content_type;
                closed = false;
                created_at = w.time;
              }))
              (record { db = w.db; os = w.os })))
          (λ _ v q.
            continue-Ends IsNew IsNew (λ o u. continue (λ _. pure o) (fsync_dir u)) _
              (open_stream-IsNew content_type d v q) (λ o u n. fsync_dir-IsNew o u n))
      where
        by :
            (r : Result (List Row) × Meta.Meta)
            → Ends (λ _. NoEntry d (log_path d name)) (r.0, record w { db = r.1.db; os = r.1.os })
        by (ok rows, m) = h
        by (err e, m) = tt

    create_new-IsNew :
        (content_type : Option Text) (w : World) → Ends IsNew (create_new name content_type w)
    create_new-IsNew content_type w =
        continue-Ends (λ _. In w.streams_dir) IsNew _ _
          (lock_for_removal-In w.streams_dir name (log_path w.streams_dir name) w refl)
          (λ guard v h.
            continue-Ends (λ _. NoEntry w.streams_dir (log_path w.streams_dir name)) IsNew _ _
              (remove_under-NoEntry w.streams_dir (log_path w.streams_dir name) guard v h)
              (λ removed u q. insert-IsNew (or_default content_type) w.streams_dir u q))

    -- the query of a name without a row
    row-none :
        (rows : List Row) (w : World)
        → w.db ≡ some rows
        → find_row name rows ≡ []
        → Ends (λ r v. r ≡ none) (row name w)
    unfolding row execute run
    row-none rows w e none_found =
        subst (λ db. Ends (λ r v. r ≡ none) (row name (record w { db = db }))) (sym e) (by w.os)
      where
        by :
            (os : List Answer)
            → Ends (λ r v. r ≡ none) (row name (record w { db = some rows; os = os }))
        by [] = ap first_row none_found
        by (done ∷ os) = ap first_row none_found
        by (fail ∷ os) = tt
        by (short k ∷ os) = ap first_row none_found

    row_none-IsNew :
        (content_type : Option Text) (found : Option (Text × Bool)) (w : World)
        → found ≡ none
        → Ends IsNew (create_row name content_type found w)
    row_none-IsNew content_type none w e = create_new-IsNew content_type w
    row_none-IsNew content_type (some r) w e = absurd (cc e)

    -- Where the name has no row and is not open, `create` returns a stream without records, whose log is
    -- empty and which is not closed, whatever log is left under the name; or it raises.
    pub create-IsNew :
        (content_type : Option Text) (rows : List Row) (w : World)
        → w.db ≡ some rows
        → find_row name rows ≡ []
        → lookup name w.opened ≡ none
        → Ends IsNew (create name content_type w)
    unfolding create
    create-IsNew content_type rows w db none_found not_open = by (check_name name)
      where
        by :
            (r : Result Text)
            → Ends IsNew
                (continue (λ _ v. create_opened name content_type (lookup name v.opened) v) (r, w))
        by (err e) = tt
        by (ok n) =
            subst (λ found. Ends IsNew (create_opened name content_type found w)) (sym not_open)
              (continue-Ends (λ r v. r ≡ none) IsNew (create_row name content_type) _
                (row-none rows w db none_found) (λ r v e. row_none-IsNew content_type r v e))
