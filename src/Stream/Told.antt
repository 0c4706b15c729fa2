-- ===== src/Stream/Told.antt =====
-- Whom an append tells.
use durastream.Common.{
  ℕ, ◌-◌, ◌≡◌, refl, Bool, true, false, not, Option, none, some, List, [], ◌∷◌, ◌++◌, map, Bytes,
  length, arith, inl, inr, if◌then◌else◌,
}
use durastream.Errors.{Result, ok, err, stream_closed, stream_locked, Result-cases}
use durastream.Exec.{◌>>◌}
use durastream.Disk.{Disk, write_all, fsync, ftruncate}
use durastream.Codec.{Zlib, pack_frames, join}
use durastream.Stream.Defs.{Listener, Machine, next_offset, log_end, writable}
use durastream.Stream.Write.{
  notify, commit, settle, after_rollback, append_open, append_frames, append_locked, append_many,
  announce,
}
use durastream.Stream.Holds.{Holds, next_offset-Holds}
use durastream.Stream.Commit.{with_disk, on_disk-then}
use durastream.Stream.Append.{told, Appended, append_locked-Appended}

-- No call of a listener, and no change of the listeners.
abbrev Quiet : Machine → Machine → Type 0
Quiet before after = (after.calls ≡ before.calls) × (after.self.listeners ≡ before.self.listeners)

rolled-Quiet :
    (before w : Machine) (r : Result (Unit {0}) × Disk)
    → Quiet before w
    → Quiet before (after_rollback (with_disk w r))
rolled-Quiet before w (ok u, d) q = q
rolled-Quiet before w (err x, d) q = q

settle-Quiet :
    (frames : List Bytes) (end : ℕ) (w : Machine) (r : Result (Unit {0}) × Disk)
    → Quiet w (settle frames end (with_disk w r)).1
settle-Quiet frames end w (ok u, d) = (refl, refl)
settle-Quiet frames end w (err e, d) =
    let w' = record w { log = d.log; os = d.os } in
    rw (on_disk-then (ftruncate end) fsync w')
      (rolled-Quiet w w' ((ftruncate end >> fsync) d) (refl, refl))

append_open-Quiet :
    (frames : List Bytes) (file : Option ℕ) (w : Machine) → Quiet w (append_open frames file w).1
unfolding commit
append_open-Quiet [] file w = (refl, refl)
append_open-Quiet (f ∷ frames) none w = (refl, refl)
append_open-Quiet (f ∷ frames) (some fd) w =
    rw (on_disk-then (write_all (join (f ∷ frames))) fsync w) (
      settle-Quiet (f ∷ frames) (log_end w.self) w
        ((write_all (join (f ∷ frames)) >> fsync) (record { log = w.log; os = w.os })))

branch-Quiet :
    (b c : Bool) (w : Machine) (x y z : Result ℕ × Machine)
    → Quiet w x.1
    → Quiet w y.1
    → Quiet w z.1
    → Quiet w (if b then x else if c then y else z).1
branch-Quiet true c w x y z p q r = p
branch-Quiet false true w x y z p q r = q
branch-Quiet false false w x y z p q r = r

append_frames-Quiet : (frames : List Bytes) (w : Machine) → Quiet w (append_frames frames w).1
unfolding append_frames
append_frames-Quiet frames w =
    branch-Quiet w.self.closed (not (writable w)) w (err (stream_closed w.self.name), w)
      (err (stream_locked w.self.name), w) (append_open frames w.self.file w) (refl, refl)
      (refl, refl) (append_open-Quiet frames w.self.file w)

told_at :
    (before w : Machine) (m n : ℕ) (records : List Bytes)
    → Quiet before w
    → m ≡ n
    → w.calls ++ told w.self m records ≡ before.calls ++ told before.self n records
told_at before w m n records q e = λ i.
    q.0 i
    ++ map (λ (l : Listener). record { callback = l.callback; start = e i; records = records })
        (q.1 i)

module _ ⦃z : Zlib⦄ where
  append_locked-Quiet : (ps : List Bytes) (w : Machine) → Quiet w (append_locked ps w).1
  unfolding append_locked
  append_locked-Quiet ps w = elim (Result-cases (pack_frames ps)) [
    | inr (e, q) ↦ rw q (refl, refl)
    | inl (frames, q) ↦ rw q (append_frames-Quiet frames w)
  ]

  -- The calls of listeners that an append makes, by its result: each listener is told the records
  -- and the offset of the first, and nothing if there is none; or, on an error, the end of the stream.
  abbrev pub Told : Machine → ℕ → List Bytes → Result ℕ × Machine → Type 0
  Told before offset [] (ok n, w) = w.calls ≡ before.calls
  Told before offset (p ∷ ps) (ok n, w) = w.calls ≡ before.calls ++ told before.self offset (p ∷ ps)
  Told before offset ps (err e, w) = w.calls ≡ before.calls ++ told before.self offset []

  announce-Told :
      (rs ps : List Bytes) (w : Machine) (r : Result ℕ × Machine)
      → Quiet w r.1
      → Appended rs ps r
      → Told w (length rs) ps (announce ps r)
  unfolding notify
  announce-Told rs [] w (ok n, w') q h = q.0
  announce-Told rs (p ∷ ps) w (ok n, w') q h =
      told_at w w' (n - length (p ∷ ps)) (length rs) (p ∷ ps) q (omega (arith, h.0))
  announce-Told rs [] w (err e, w') q h =
      told_at w w' (next_offset w'.self) (length rs) [] q (next_offset-Holds rs w' h)
  announce-Told rs (p ∷ ps) w (err e, w') q h =
      told_at w w' (next_offset w'.self) (length rs) [] q (next_offset-Holds rs w' h)

  -- An append to a stream that holds rs calls every listener exactly once: after success with the
  -- records of the batch and the offset of the first (not at all for an empty batch), after an error
  -- with the offset of the end and no records.
  pub append_many-Told :
      (rs ps : List Bytes) (w : Machine) → Holds rs w → Told w (length rs) ps (append_many ps w)
  unfolding append_many
  append_many-Told rs ps w h =
      announce-Told rs ps w (append_locked ps w) (append_locked-Quiet ps w)
        (append_locked-Appended rs ps w h)
