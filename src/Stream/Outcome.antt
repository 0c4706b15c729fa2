-- ===== src/Stream/Outcome.antt =====
-- When an append succeeds, and when it is refused.
use durastream.Common.{
  ℕ, ◌+◌, ◌≡◌, ap, ◌∙◌, Bool, true, false, not, Option, none, some, List, [], ◌∷◌, map, Bytes,
  length, arith, ◌&&◌, leb, leb→le, leb→gt, Bool-cases, inl, inr, if◌then◌else◌, if-true, if-false,
}
use durastream.Errors.{Error, Result, ok, err, value_error, stream_closed, stream_locked}
use durastream.Exec.{◌>>◌}
use durastream.Disk.{Disk, write_all, fsync}
use durastream.Disk.Laws.{NoFail, write_all-fsync-NoFail}
use durastream.Codec.{max_payload, Zlib, pack_frames, join}
use durastream.Codec.Decode.{AllFit, frame, pack_frame_lem}
use durastream.Codec.Frames.{pack_frames-ok, pack_frame-fails}
use durastream.Stream.Defs.{Machine, next_offset, log_end, writable}
use durastream.Stream.Write.{
  notify, commit, settle, append_open, append_frames, append_locked, append_many, announce,
}
use durastream.Stream.Holds.{Holds}
use durastream.Stream.Commit.{with_disk, on_disk-then}
use durastream.Stream.Append.{Appended, append_many-Appended}

-- a result that is no error
abbrev IsOk {ℓ} : {A : Type ℓ} → Result A → Type 0
IsOk (ok a) = Unit
IsOk (err e) = ⊥

settle-IsOk :
    (frames : List Bytes) (end : ℕ) (w : Machine) (r : Result (Unit {0}) × Disk)
    → r.0 ≡ ok tt
    → IsOk (settle frames end (with_disk w r)).0
settle-IsOk frames end w (ok u, d) e = tt
settle-IsOk frames end w (err x, d) e = cc

commit-IsOk : (frames : List Bytes) (w : Machine) → NoFail w.os → IsOk (commit frames w).0
unfolding commit
commit-IsOk frames w h = rw (on_disk-then (write_all (join frames)) fsync w) (
    settle-IsOk frames (log_end w.self) w
      ((write_all (join frames) >> fsync) (record { log = w.log; os = w.os }))
      (write_all-fsync-NoFail (join frames) (record { log = w.log; os = w.os }) h))

append_open-IsOk :
    (frames : List Bytes) (fd : ℕ) (w : Machine)
    → NoFail w.os
    → IsOk (append_open frames (some fd) w).0
append_open-IsOk [] fd w h = tt
append_open-IsOk (f ∷ frames) fd w h = commit-IsOk (f ∷ frames) w h

announce-IsOk : (ps : List Bytes) (r : Result ℕ × Machine) → IsOk r.0 → IsOk (announce ps r).0
announce-IsOk [] (ok n, w) h = tt
announce-IsOk (p ∷ ps) (ok n, w) h = tt
announce-IsOk ps (err e, w) h = absurd h

abbrev pub all_fit : List Bytes → Bool
all_fit [] = true
all_fit (p ∷ ps) = leb (length p) max_payload && all_fit ps

-- The error of the first guard that refuses an append.
abbrev pub guard_error : List Bytes → Machine → Option Error
guard_error ps w =
    if not (all_fit ps)
    then some value_error
    else if w.self.closed
    then some (stream_closed w.self.name)
    else if not (writable w)
    then some (stream_locked w.self.name)
    else none

all_fit→AllFit : (ps : List Bytes) → all_fit ps ≡ true → AllFit ps
all_fit→AllFit [] h = tt
all_fit→AllFit (p ∷ ps) h = (
  leb→le (length p) max_payload (first (leb (length p) max_payload) (all_fit ps) h),
  all_fit→AllFit ps (second (leb (length p) max_payload) (all_fit ps) h),
)
  where
    first : (a b : Bool) → a && b ≡ true → a ≡ true
    first a b = ground arith

    second : (a b : Bool) → a && b ≡ true → b ≡ true
    second a b = ground arith

module _ ⦃z : Zlib⦄ where
  -- the guards let the frames through to the file
  append_frames-open :
      (frames : List Bytes) (w : Machine) {fd : ℕ}
      → w.self.closed ≡ false
      → writable w ≡ true
      → w.self.file ≡ some fd
      → append_frames frames w ≡ append_open frames (some fd) w
  unfolding append_frames
  append_frames-open frames w c o f =
      if-false _ _ c ∙ if-false _ _ (ap not o) ∙ ap (λ file. append_open frames file w) f

  Appended-IsOk :
      (rs ps : List Bytes) (r : Result ℕ × Machine)
      → Appended rs ps r
      → IsOk r.0
      → r.0 ≡ ok (length rs + length ps)
  Appended-IsOk rs ps (ok n, w) h k = ap ok h.0
  Appended-IsOk rs ps (err e, w) h k = absurd k

  -- An append succeeds on a stream that is open and writable by this process, if no payload is too
  -- large and no system call fails; it returns the new number of records.
  pub append_many-succeeds :
      (rs ps : List Bytes) (w : Machine) {fd : ℕ}
      → Holds rs w
      → w.self.closed ≡ false
      → writable w ≡ true
      → w.self.file ≡ some fd
      → AllFit ps
      → NoFail w.os
      → (append_many ps w).0 ≡ ok (length rs + length ps)
  append_many-succeeds rs ps w {fd} h c o f fits calls =
      Appended-IsOk rs ps (append_many ps w) (append_many-Appended rs ps w h) through
    where
      through : IsOk (append_many ps w).0
      through =
          unfold append_many in
          announce-IsOk ps (append_locked ps w) (
            unfold append_locked in
            rw (pack_frames-ok ps fits, append_frames-open (map frame ps) w c o f)
              (append_open-IsOk (map frame ps) fd w calls))

  pub pack_frames-big : (ps : List Bytes) → all_fit ps ≡ false → pack_frames ps ≡ err value_error
  unfolding pack_frames
  pack_frames-big [] h = cc
  pack_frames-big (p ∷ ps) h = elim (Bool-cases (leb (length p) max_payload)) [
    | inr big ↦ rw (pack_frame-fails p (leb→gt (length p) max_payload big))
    | inl fits ↦
        rw (pack_frame_lem p (leb→le (length p) max_payload fits), pack_frames-big ps (rest fits h))
  ]
    where
      rest :
          leb (length p) max_payload ≡ true
          → leb (length p) max_payload && all_fit ps ≡ false
          → all_fit ps ≡ false
      rest = ground arith

  append_frames-refused :
      (ps frames : List Bytes) (w : Machine) {e : Error}
      → all_fit ps ≡ true
      → guard_error ps w ≡ some e
      → append_frames frames w ≡ (err e, w)
  unfolding append_frames
  append_frames-refused ps frames w {e} a h = elim (Bool-cases w.self.closed) [
    | inl c ↦ if-true _ _ c ∙ ap (λ x. (err x, w)) (guard_closed w.self.closed c h)
    | inr c ↦ elim (Bool-cases (writable w)) [
      | inl o ↦ absurd (guard_none w.self.closed (writable w) c o h)
      | inr o ↦
          if-false _ _ c
          ∙ if-true _ _ (ap not o)
          ∙ ap (λ x. (err x, w)) (guard_locked w.self.closed (writable w) c o h)
    ]
  ]
    where
      guard_closed :
          (closed : Bool)
          → closed ≡ true
          → (if not (all_fit ps)
              then some value_error
              else if closed
              then some (stream_closed w.self.name)
              else if not (writable w)
              then some (stream_locked w.self.name)
              else none)
            ≡ some e
          → stream_closed w.self.name ≡ e
      guard_closed closed c k = ground arith

      guard_none :
          (closed can_write : Bool)
          → closed ≡ false
          → can_write ≡ true
          → (if not (all_fit ps)
              then some value_error
              else if closed
              then some (stream_closed w.self.name)
              else if not can_write
              then some (stream_locked w.self.name)
              else none)
            ≡ some e
          → ⊥
      guard_none closed can_write c o k = ground arith

      guard_locked :
          (closed can_write : Bool)
          → closed ≡ false
          → can_write ≡ false
          → (if not (all_fit ps)
              then some value_error
              else if closed
              then some (stream_closed w.self.name)
              else if not can_write
              then some (stream_locked w.self.name)
              else none)
            ≡ some e
          → stream_locked w.self.name ≡ e
      guard_locked closed can_write c o k = ground arith

  append_locked-refused :
      (ps : List Bytes) (w : Machine) {e : Error}
      → guard_error ps w ≡ some e
      → append_locked ps w ≡ (err e, w)
  unfolding append_locked
  append_locked-refused ps w {e} h = elim (Bool-cases (all_fit ps)) [
    | inr a ↦ rw (pack_frames-big ps a) (ap (λ x. (err x, w)) (too_large (all_fit ps) a h))
    | inl a ↦
        rw (pack_frames-ok ps (all_fit→AllFit ps a)) (append_frames-refused ps (map frame ps) w a h)
  ]
    where
      too_large :
          (fit : Bool)
          → fit ≡ false
          → (if not fit
              then some value_error
              else if w.self.closed
              then some (stream_closed w.self.name)
              else if not (writable w)
              then some (stream_locked w.self.name)
              else none)
            ≡ some e
          → value_error ≡ e
      too_large fit a k = ground arith

  -- An append that a guard refuses raises the error of the first such guard (a payload too large, the
  -- stream closed, the stream not this process's to write to) and changes nothing but the calls of the
  -- listeners, with the end of the stream and no records.
  pub append_many-refused :
      (ps : List Bytes) (w : Machine) {e : Error}
      → guard_error ps w ≡ some e
      → append_many ps w ≡ (err e, notify (next_offset w.self) [] w)
  unfolding append_many
  append_many-refused ps w h = ap (announce ps) (append_locked-refused ps w h)
