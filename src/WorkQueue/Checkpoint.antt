-- ===== src/WorkQueue/Checkpoint.antt =====
-- What a worker may rely on when it starts again, and that the checkpoint is written whole or not at all.
use durastream.Common.{
  ℕ, ◌≤◌, ◌≡◌, refl, sym, ap, ◌∙◌, none, some, List, [], ◌∷◌, Bytes, length, take,
}
use durastream.Common.Int.{pos}
use durastream.Errors.{Result, ok, err}
use durastream.Exec.{Exec, continue}
use durastream.Disk.{Answer, done, fail, short}
use durastream.Token.{digits_of}
use durastream.Token.RoundTrip.{number_of-digits_of}
use durastream.Codec.{Zlib}
use durastream.Stream.Holds.{Holds}
use durastream.WorkQueue.{Worker, with_os, answered, parsed, write_checkpoint}
use durastream.WorkQueue.Seen.{AllSeen}

module _ ⦃z : Zlib⦄ (job_id : Bytes → Result ℕ) (rs : List Bytes) where
  -- `c` is what the checkpoint says, and every job before it is seen.
  pub record Ready (c : ℕ) (w : Worker) : Type 0 where
    pub holds : Holds rs w.q
    pub open_file : (fd : ℕ) × (w.q.self.file ≡ some fd)
    pub at : parsed w.checkpoint ≡ ok (pos c)
    pub le : c ≤ length rs
    pub seen : AllSeen job_id (take c rs) w.seen

  -- What a run leaves, from `w`: it fails only if the system did, and then the worker is ready still.
  abbrev pub Left : {A : Type 0} → (A → Worker → Type 0) → Worker → Result A × Worker → Type 0
  Left Q w (ok a, v) = Q a v × (w.q.os ≡ [] → v.q.os ≡ [])
  Left Q w (err e, v) = ((c : ℕ) × Ready c v) × ¬ (w.q.os ≡ [])

  pub Left-from :
      {A : Type 0} (Q : A → Worker → Type 0) (w v : Worker) (r : Result A × Worker)
      → (w.q.os ≡ [] → v.q.os ≡ [])
      → Left Q v r
      → Left Q w r
  Left-from Q w v (ok a, u) h (q, k) = (q, λ e. k (h e))
  Left-from Q w v (err x, u) h (c, k) = (c, λ e. k (h e))

  pub continue-Left :
      {A B : Type 0} (Q : A → Worker → Type 0) (P : B → Worker → Type 0) (f : A → Exec Worker B)
      (w : Worker) (r : Result A × Worker)
      → Left Q w r
      → ((a : A) (v : Worker) → Q a v → Left P v (f a v))
      → Left P w (continue f r)
  continue-Left Q P f w (ok a, v) h k = Left-from P w v (f a v) h.1 (k a v h.0)
  continue-Left Q P f w (err e, v) h k = h

  -- A call of the system: `P` before it, `Q` after it.
  pub answered-Left :
      (P : Worker → Type 0) (Q : Unit {0} → Worker → Type 0) (f : Worker → Worker)
      → ((u : Worker) (os : List Answer) → P u → P (with_os os u))
      → ((u : Worker) → P u → (c : ℕ) × Ready c u)
      → ((u : Worker) → P u → Q tt (f u) × ((f u).q.os ≡ u.q.os))
      → (w : Worker) → P w
      → Left Q w (answered w.q.os f w)
  answered-Left P Q f move ready does w h = by w.q.os refl
    where
      by : (os : List Answer) → w.q.os ≡ os → Left Q w (answered os f w)
      by [] e = ((does w h).0, λ q. (does w h).1 ∙ q)
      by (fail ∷ os) e = (ready (with_os os w) (move w os h), λ q. absurd (cc (sym e ∙ q)))
      by (done ∷ os) e = ((does (with_os os w) (move w os h)).0, λ q. absurd (cc (sym e ∙ q)))
      by (short k ∷ os) e = ((does (with_os os w) (move w os h)).0, λ q. absurd (cc (sym e ∙ q)))

  pub Ready-os : (c : ℕ) (os : List Answer) (w : Worker) → Ready c w → Ready c (with_os os w)
  Ready-os c os w h = record {
    holds = record {
      fit = h.holds.fit;
      index = h.holds.index;
      tail = h.holds.tail;
      bytes = h.holds.bytes;
      clean = h.holds.clean;
    };
    open_file = h.open_file;
    at = h.at;
    le = h.le;
    seen = h.seen;
  }

  -- the jobs up to `n` are seen, and the checkpoint is behind
  abbrev pub Ahead : ℕ → ℕ → Worker → Type 0
  Ahead c n w = Ready c w × (n ≤ length rs) × AllSeen job_id (take n rs) w.seen

  pub write_checkpoint-Left :
      (c n : ℕ) (w : Worker) → Ahead c n w → Left (λ _. Ready n) w (write_checkpoint (pos n) w)
  unfolding write_checkpoint
  write_checkpoint-Left c n w h =
      continue-Left (λ _. Synced) (λ _. Ready n) _ w _
        (continue-Left (λ _. Synced) (λ _. Synced) _ w _
          (answered-Left (Ahead c n) (λ _. Synced)
            (λ u. record u { tmp = some (digits_of (pos n)) })
            (λ u os p. (Ready-os c os u p.0, p.1, p.2)) (λ u p. (c, p.0))
            (λ u p. (((tmp_Ready u p.0, p.1, p.2), refl), refl)) w h)
          (λ _ v q.
            answered-Left Synced (λ _. Synced) (λ u. u) Synced-os (λ u p. (c, p.0.0))
              (λ u p. (p, refl)) v q))
        (λ _ v q.
          answered-Left Synced (λ _. Ready n) (λ u. record u { checkpoint = u.tmp; tmp = none })
            Synced-os (λ u p. (c, p.0.0))
            (λ u p. (
              record {
                holds = p.0.0.holds;
                open_file = p.0.0.open_file;
                at = ap parsed p.1 ∙ number_of-digits_of n;
                le = p.0.1;
                seen = p.0.2;
              },
              refl,
            ))
            v q)
    where
      Synced : Worker → Type 0
      Synced u = Ahead c n u × (u.tmp ≡ some (digits_of (pos n)))

      Synced-os : (u : Worker) (os : List Answer) → Synced u → Synced (with_os os u)
      Synced-os u os p = ((Ready-os c os u p.0.0, p.0.1, p.0.2), p.1)

      tmp_Ready : (u : Worker) → Ready c u → Ready c (record u { tmp = some (digits_of (pos n)) })
      tmp_Ready u p = record {
        holds = p.holds;
        open_file = p.open_file;
        at = p.at;
        le = p.le;
        seen = p.seen;
      }
