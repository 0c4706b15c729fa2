-- ===== src/Stream/Close.antt =====
-- `close`: the flag in memory and the rows in the database.
use durastream.Common.{
  ◌≡◌, refl, ap, Bool, true, false, not, Option, none, some, List, [], ◌∷◌, ◌++◌, Text, Bool-cases,
  inl, inr, if◌then◌else◌, if-true, if-false,
}
use durastream.Errors.{Result, ok, err, stream_locked}
use durastream.Exec.{◌>>◌}
use durastream.Disk.{Answer, done, fail, short}
use durastream.Meta
use durastream.Meta.{Row, Sql, Meta, update_closed, close_row}
use durastream.Texts.{text_eq}
use durastream.Stream.Defs.{Machine, on_meta, next_offset, writable}
use durastream.Stream.Write.{notify, close, close_locked, mark_closed}
use durastream.Stream.Append.{told}

-- Each row is kept, with its name, content type and time; those of that name are marked as closed, and the
-- others are as before.
abbrev pub RowsClosed : Text → List Row → List Row → Type 0
RowsClosed name [] after = after ≡ []
RowsClosed name (r ∷ rows) [] = ⊥
RowsClosed name (r ∷ rows) (s ∷ after) =
    (s.name ≡ r.name)
    × (s.content_type ≡ r.content_type)
    × (s.created_at ≡ r.created_at)
    × (text_eq r.name name ≡ true → s.closed ≡ true)
    × (text_eq r.name name ≡ false → s.closed ≡ r.closed)
    × RowsClosed name rows after

abbrev pub DbClosed : Text → Option (List Row) → Option (List Row) → Type 0
DbClosed name (some before) (some after) = RowsClosed name before after
DbClosed name none after = ⊥
DbClosed name (some before) none = ⊥

RowsClosed-close_row : (name : Text) (rows : List Row) → RowsClosed name rows (close_row name rows)
unfolding close_row
RowsClosed-close_row name [] = refl
RowsClosed-close_row name (r ∷ rows) =
    by (text_eq r.name name) refl (RowsClosed-close_row name rows)
  where
    by :
        (b : Bool)
        → text_eq r.name name ≡ b
        → RowsClosed name rows (close_row name rows)
        → RowsClosed name
            (r ∷ rows)
            ((if b then record r { closed = true } else r) ∷ close_row name rows)
    by true e rest = (refl, refl, refl, (λ _. refl), (λ h. absurd (cc (h, e))), rest)
    by false e rest = (refl, refl, refl, (λ h. absurd (cc (h, e))), (λ _. refl), rest)

-- What a close leaves, by its result.
abbrev ClosedBy : Machine → Result (Unit {0}) × Machine → Type 0
ClosedBy before (ok _, w) =
    (writable before ≡ true)
    × (w.self ≡ record before.self { closed = true })
    × DbClosed before.self.name before.db w.db
    × (w.log ≡ before.log)
    × (w.calls ≡ before.calls)
ClosedBy before (err e, w) =
    (w.self ≡ before.self) × (w.db ≡ before.db) × (w.log ≡ before.log) × (w.calls ≡ before.calls)

executed :
    (before : Machine) (db : Option (List Row)) (os : List Answer)
    → writable before ≡ true
    → ClosedBy
        (record before { db = db; os = os })
        ((on_meta (update_closed before.self.name) >> mark_closed)
          (record before { db = db; os = os }))
unfolding Meta.execute writable
executed before none os o = (refl, refl, refl, refl)
executed before (some rows) [] o = (o, refl, RowsClosed-close_row before.self.name rows, refl, refl)
executed before (some rows) (done ∷ os) o =
    (o, refl, RowsClosed-close_row before.self.name rows, refl, refl)
executed before (some rows) (fail ∷ os) o = (refl, refl, refl, refl)
executed before (some rows) (short k ∷ os) o =
    (o, refl, RowsClosed-close_row before.self.name rows, refl, refl)

close_locked-ClosedBy : (w : Machine) → ClosedBy w (close_locked w)
close_locked-ClosedBy w = elim (Bool-cases (writable w)) [
  | inr o ↦
      rw
        (if-true (err (stream_locked w.self.name), w)
          ((on_meta (update_closed w.self.name) >> mark_closed) w) (ap not o))
        (refl, refl, refl, refl)
  | inl o ↦
      rw
        (if-false (err (stream_locked w.self.name), w)
          ((on_meta (update_closed w.self.name) >> mark_closed) w) (ap not o))
        (executed w w.db w.os o)
]

-- the same once the listeners have been told the end of the stream
abbrev pub Closed : Machine → Result (Unit {0}) × Machine → Type 0
Closed before (ok _, w) =
    (writable before ≡ true)
    × (w.self ≡ record before.self { closed = true })
    × DbClosed before.self.name before.db w.db
    × (w.log ≡ before.log)
    × (w.calls ≡ before.calls ++ told before.self (next_offset before.self) [])
Closed before (err e, w) =
    (w.self ≡ before.self)
    × (w.db ≡ before.db)
    × (w.log ≡ before.log)
    × (w.calls ≡ before.calls ++ told before.self (next_offset before.self) [])

notified :
    (before : Machine) (r : Result (Unit {0}) × Machine)
    → ClosedBy before r
    → Closed before (r.0, notify (next_offset r.1.self) [] r.1)
unfolding notify next_offset
notified before (ok u, w) h =
    (h.0, h.1, h.2, h.3, λ i. h.4 i ++ told (h.1 i) (next_offset (h.1 i)) [])
notified before (err e, w) h = (h.0, h.1, h.2, λ i. h.3 i ++ told (h.0 i) (next_offset (h.0 i)) [])

-- A close that returns was made by the writer, has marked the stream as closed in memory and every row of
-- its name in the database, and has kept all rows as they were else; one that raises has changed neither.
-- The log is left alone either way, and each listener is called with the end of the stream and no records.
pub close-Closed : (w : Machine) → Closed w (close w)
unfolding close
close-Closed w = notified w (close_locked w) (close_locked-ClosedBy w)
