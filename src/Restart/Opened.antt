-- ===== src/Restart/Opened.antt =====
-- The plan of the sessions, and what a session finds when it has opened the log.
use durastream.Common.{
  ℕ, ◌+◌, ◌*◌, ◌≤◌, ◌≡◌, refl, ap, ◌∙◌, true, ◌&&◌, some, List, [], ◌∷◌, Bytes, length, ◌==◌, arith,
}
use native.Mathlib.Nat.{mul-suc}
use durastream.Codec.{Zlib}
use durastream.Codec.Decode.{AllFit, encode}
use durastream.Stream.Defs.{Machine}
use durastream.Stream.Role.{recover-Role}
use durastream.Stream.Whole.{Opens, recover-Opens}
use durastream.Common.{Bool, false}
use durastream.Stream.Defs.{writable, new_stream}
use durastream.Stream.Calm.{Calm}
use durastream.Restart.{Opening, open_log, session_end}

pub equal : (m n : ℕ) → m ≡ n → (m == n) ≡ true
equal m n e = ground (arith, e)

pub both : (m n k : ℕ) → m ≡ n → n ≡ k → (m == n && (n == k)) ≡ true
both m n k e d = ground (arith, e, d)

-- What is left to do for the sessions to come.
abbrev pub Planned : ℕ → ℕ → ℕ → List Opening → Type 0
Planned n per_session produced [] = produced ≡ n
Planned n per_session produced (o ∷ openings) = produced + per_session * length (o ∷ openings) ≤ n

pub Planned-next :
    (n per_session produced : ℕ) (o : Opening) (openings : List Opening)
    → Planned n per_session produced (o ∷ openings)
    → (produced ≤ session_end n per_session produced openings)
      × Planned n per_session (session_end n per_session produced openings) openings
Planned-next n per_session produced o [] h = (omega (arith, h), refl)
Planned-next n per_session produced o (p ∷ openings) h =
    (omega arith, omega (arith, h, mul-suc per_session (length (p ∷ openings))))

abbrev pub before_open : Opening → Machine → Machine
before_open o w = record w {
  self = new_stream w.self.name w.self.path w.self.content_type false o.file o.owner o.pid;
  getpid = o.pid;
}

pub open_log-Opens :
    ⦃z : Zlib⦄
    → (rs : List Bytes) (o : Opening) (w : Machine) → AllFit rs
    → w.log.bytes ≡ encode rs
    → Opens rs (before_open o w) (open_log o w) × ((open_log o w).1.self.file ≡ some o.file)
unfolding open_log
open_log-Opens rs o w fits b = (recover-Opens rs _ fits b, (recover-Role _).0)

writable-pid :
    (owner : Bool) (pid now : ℕ) → owner ≡ true → now ≡ pid → owner && (pid == now) ≡ true
writable-pid owner pid now e d = ground (arith, e, d)

pub opened-Calm :
    (o : Opening) (w v : Machine) (index : List ℕ)
    → v.os ≡ []
    → o.owner ≡ true
    → v.self ≡ record (before_open o w).self { index = index }
    → v.getpid ≡ o.pid
    → Calm v
unfolding writable new_stream
opened-Calm o w v index os own self pid = (
  os,
  ap (λ s. s.closed) self,
  ap (λ s. s.owner && (s.pid == v.getpid)) self ∙ writable-pid o.owner o.pid v.getpid own pid,
  (o.file, ap (λ s. s.file) self),
)
