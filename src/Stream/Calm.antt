-- ===== src/Stream/Calm.antt =====
-- A stream that may be written to, on a system that has no failures to give.
use durastream.Common.{
  ℕ, ◌≡◌, refl, sym, ap, ◌∙◌, subst, true, false, not, Option, none, some, List, [], ◌∷◌, map,
  Bytes, if-false,
}
use durastream.Errors.{Result, ok, err}
use durastream.Disk.{write_all, write_rounds, fsync}
use durastream.Codec.{Zlib}
use durastream.Codec.Decode.{AllFit, frame}
use durastream.Codec.Frames.{pack_frames-ok}
use durastream.Stream.Defs.{Machine, writable}
use durastream.Stream.Write.{
  append_frames, append_open, append_locked, append_many, announce, commit, notify,
}

-- An open stream of this process, where the system has no failures to give.
abbrev pub Calm : Machine → Type 0
Calm w =
    (w.os ≡ [])
    × (w.self.closed ≡ false)
    × (writable w ≡ true)
    × ((fd : ℕ) × (w.self.file ≡ some fd))

abbrev pub IsCalm : {A : Type 0} → Result A × Machine → Type 0
IsCalm (ok a, w) = Calm w
IsCalm (err e, w) = ⊥

commit-Calm : (frames : List Bytes) (w : Machine) → Calm w → IsCalm (commit frames w)
unfolding commit write_all write_rounds fsync writable
commit-Calm frames w (os, c, o, f) =
    subst (λ o. IsCalm (commit frames (record w { os = o }))) (sym os) (refl, c, o, f)

append_open-Calm :
    (frames : List Bytes) (file : Option ℕ) (w : Machine)
    → w.self.file ≡ file
    → Calm w
    → IsCalm (append_open frames file w)
append_open-Calm [] file w e h = h
append_open-Calm (f ∷ frames) none w e (os, c, o, (fd, q)) = absurd (cc (e, q))
append_open-Calm (f ∷ frames) (some fd) w e h = commit-Calm (f ∷ frames) w h

append_frames-Calm : (frames : List Bytes) (w : Machine) → Calm w → IsCalm (append_frames frames w)
unfolding append_frames
append_frames-Calm frames w h =
    subst IsCalm (sym (if-false _ _ h.1 ∙ if-false _ _ (ap not h.2)))
      (append_open-Calm frames w.self.file w refl h)

announce-Calm : (ps : List Bytes) (r : Result ℕ × Machine) → IsCalm r → IsCalm (announce ps r)
unfolding notify writable
announce-Calm ps (err e, w) h = absurd h
announce-Calm [] (ok n, w) h = h
announce-Calm (p ∷ ps) (ok n, w) h = h

module _ ⦃z : Zlib⦄ where
  pub append_many-Calm :
      (ps : List Bytes) (w : Machine) → AllFit ps → Calm w → IsCalm (append_many ps w)
  unfolding append_many append_locked
  append_many-Calm ps w fits h =
      announce-Calm ps (append_locked ps w)
        (rw (pack_frames-ok ps fits) (append_frames-Calm (map frame ps) w h))
