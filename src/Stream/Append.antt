-- ===== src/Stream/Append.antt =====
-- `append_many`, on every path: what it returns, what it leaves on disk, whom it tells.
use durastream.Common.{
  ℕ, ◌+◌, ◌-◌, ◌≡◌, ◌≢◌, refl, sym, ap, ◌∙◌, subst, true, false, Option, none, some, List, [], ◌∷◌,
  ◌++◌, map, append-nil, Bytes, length, arith, Bool-cases, inl, inr,
}
use native.Mathlib.Nat.{add-zero}
use durastream.Errors.{Result, ok, err, Result-cases}
use durastream.Codec.{Zlib, pack_frames}
use durastream.Codec.Decode.{AllFit, frame, encode}
use durastream.Codec.Frames.{pack_frames-ok, pack_frames-fits}
use durastream.Stream.Defs.{Listener, Stream, Call, Machine, next_offset, writable}
use durastream.Stream.Write.{
  notify, commit, append_open, announce, append_frames, append_locked, append_many,
}
use durastream.Stream.Holds.{Holds, next_offset-Holds}
use durastream.Stream.Commit.{Committed, commit-Committed}

-- The calls that a change makes: one for each listener, in the order of registration.
abbrev pub told : Stream → ℕ → List Bytes → List Call
told s start records =
    map (λ (l : Listener). record { callback = l.callback; start = start; records = records })
      s.listeners

module _ ⦃z : Zlib⦄ where
  notify-Holds :
      (start : ℕ) (records rs : List Bytes) (w : Machine)
      → Holds rs w
      → Holds rs (notify start records w)
  unfolding notify
  notify-Holds start records rs w h = record {
    fit = h.fit;
    index = h.index;
    tail = h.tail;
    bytes = h.bytes;
    clean = h.clean;
  }

  -- What an append of `ps` leaves of a stream that held `rs`, by its result.
  abbrev pub Appended : List Bytes → List Bytes → Result ℕ × Machine → Type 0
  Appended rs ps (ok n, w) =
      (n ≡ length rs + length ps)
      × Holds (rs ++ ps) w
      × (ps ≢ [] → w.log.durable ≡ encode (rs ++ ps))
  Appended rs ps (err e, w) = Holds rs w

  Committed-Appended :
      (rs ps : List Bytes) (r : Result ℕ × Machine) → Committed rs ps r → Appended rs ps r
  Committed-Appended rs ps (ok n, w) h = (h.0, h.1, λ _. h.2)
  Committed-Appended rs ps (err e, w) h = h

  -- an open stream that this process may write to has nothing behind its records
  clean_bytes :
      (rs : List Bytes) (w : Machine)
      → Holds rs w
      → w.self.closed ≡ false
      → writable w ≡ true
      → w.log.bytes ≡ encode rs
  unfolding writable
  clean_bytes rs w h c o =
      h.bytes ∙ ap (λ t. encode rs ++ t) (h.clean c (ground arith)) ∙ append-nil (encode rs)

  append_open-Appended :
      (rs ps : List Bytes) (w : Machine) (file : Option ℕ)
      → Holds rs w
      → AllFit ps
      → w.log.bytes ≡ encode rs
      → Appended rs ps (append_open (map frame ps) file w)
  append_open-Appended rs [] w file h fits b = (
    next_offset-Holds rs w h ∙ sym (add-zero (length rs)),
    subst (λ l. Holds l w) (sym (append-nil rs)) h,
    λ ne. absurd (ne refl),
  )
  append_open-Appended rs (p ∷ ps) w none h fits b = h
  append_open-Appended rs (p ∷ ps) w (some fd) h fits b =
      Committed-Appended rs (p ∷ ps) (commit (map frame (p ∷ ps)) w)
        (commit-Committed rs (p ∷ ps) w h fits b)

  append_frames-Appended :
      (rs ps : List Bytes) (w : Machine)
      → Holds rs w
      → AllFit ps
      → Appended rs ps (append_frames (map frame ps) w)
  unfolding append_frames
  append_frames-Appended rs ps w h fits = elim (Bool-cases w.self.closed) [
    | inl c ↦ simp c h
    | inr c ↦ elim (Bool-cases (writable w)) [
      | inr o ↦ simp (c, o) h
      | inl o ↦
          simp (c, o) (append_open-Appended rs ps w w.self.file h fits (clean_bytes rs w h c o))
    ]
  ]

  pub append_locked-Appended :
      (rs ps : List Bytes) (w : Machine) → Holds rs w → Appended rs ps (append_locked ps w)
  unfolding append_locked
  append_locked-Appended rs ps w h = elim (Result-cases (pack_frames ps)) [
    | inr (e, q) ↦ rw q h
    | inl (frames, q) ↦
        let fits = pack_frames-fits ps q in
        rw (pack_frames-ok ps fits) (append_frames-Appended rs ps w h fits)
  ]

  announce-Appended :
      (rs ps : List Bytes) (r : Result ℕ × Machine)
      → Appended rs ps r
      → Appended rs ps (announce ps r)
  announce-Appended rs ps (err e, w) h = notify-Holds (next_offset w.self) [] rs w h
  announce-Appended rs [] (ok n, w) h = h
  announce-Appended rs (p ∷ ps) (ok n, w) h =
      (h.0, notify-Holds (n - length (p ∷ ps)) (p ∷ ps) (rs ++ p ∷ ps) w h.1, unfold notify in h.2)

  -- An append of a batch to a stream that holds the records rs either returns the number of all
  -- records, and then the stream holds rs followed by the batch, with every frame durable if the batch
  -- is not empty; or it raises, and then the stream holds rs as before. This is for every sequence of
  -- answers of the system: short writes, failed writes, failed syncs and failed rollbacks.
  pub append_many-Appended :
      (rs ps : List Bytes) (w : Machine) → Holds rs w → Appended rs ps (append_many ps w)
  unfolding append_many
  append_many-Appended rs ps w h =
      announce-Appended rs ps (append_locked ps w) (append_locked-Appended rs ps w h)
