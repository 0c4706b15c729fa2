-- ===== src/Stream/Shut.antt =====
-- The methods that write, on a stream whose flag `closed` is set.
use durastream.Common.{ℕ, ◌≡◌, sym, ap, ◌∙◌, subst, true, List, Bytes, if-true}
use durastream.Errors.{Result, ok, err}
use durastream.Exec.{lift, ◌>>=◌}
use durastream.Codec.{Zlib, pack_frames}
use durastream.Stream.Defs.{Machine}
use durastream.Stream.Write.{append_frames, append_locked, append_many, announce, notify}
use durastream.Stream.Close.{Closed}

module _ ⦃z : Zlib⦄ where
  -- An append to a closed stream is refused, and the stream stays closed.
  abbrev pub Refused : Result ℕ × Machine → Type 0
  Refused (ok n, w) = ⊥
  Refused (err e, w) = w.self.closed ≡ true

  pub append_many-Refused :
      (payloads : List Bytes) (w : Machine)
      → w.self.closed ≡ true
      → Refused (append_many payloads w)
  unfolding append_many append_locked append_frames notify
  append_many-Refused payloads w c = by (pack_frames payloads)
    where
      by : (r : Result (List Bytes)) → Refused (announce payloads ((lift r >>= append_frames) w))
      by (err e) = c
      by (ok frames) = subst (λ r. Refused (announce payloads r)) (sym (if-true _ _ c)) c

pub close-stays :
    (w : Machine) (r : Result (Unit {0}) × Machine)
    → Closed w r
    → w.self.closed ≡ true
    → r.1.self.closed ≡ true
close-stays w (ok u, v) (o, self, db, log, calls) c = ap (λ s. s.closed) self
close-stays w (err e, v) (self, db, log, calls) c = ap (λ s. s.closed) self ∙ c
