-- ===== src/WorkQueue/AtLeastOnce.antt =====
-- No job is lost: what the checkpoint says, and what is seen, after a run of the worker that may stop or
-- fail anywhere.
use durastream.Common.{ℕ, ◌≡◌, refl, sym, subst, Option, none, List, [], Bytes, arith}
use durastream.Common.Int.{ℤ, pos}
use durastream.Errors.{Result, ok, err}
use durastream.Codec.{Zlib}
use durastream.Stream.Defs.{next_offset}
use durastream.Stream.Holds.{next_offset-Holds}
use durastream.WorkQueue.{Worker, with_os, parsed, read_checkpoint, drain, run_worker}
use durastream.WorkQueue.Seen.{AllJobs, AllSeen}
use durastream.WorkQueue.Checkpoint.{Ready, Left, continue-Left, answered-Left, Ready-os}
use durastream.WorkQueue.Drain.{Done, drain-Left}

module _ ⦃z : Zlib⦄ (job_id : Bytes → Result ℕ) (rs : List Bytes) (jobs : AllJobs job_id rs) where
  module _ (stop : Option ℕ) where
    read_checkpoint-Left :
        (c : ℕ) (w : Worker)
        → Ready job_id rs c w
        → Left job_id rs (λ offset v. (offset ≡ pos c) × Ready job_id rs c v) w (read_checkpoint w)
    unfolding read_checkpoint
    read_checkpoint-Left c w h =
        continue-Left job_id rs (λ _. Ready job_id rs c)
          (λ offset v. (offset ≡ pos c) × Ready job_id rs c v) _ w _
          (answered-Left job_id rs (Ready job_id rs c) (λ _. Ready job_id rs c) (λ v. v)
            (λ u os p. Ready-os job_id rs c os u p) (λ u p. (c, p)) (λ u p. (p, refl)) w h)
          (λ _ v r. by v r (parsed v.checkpoint) r.at)
      where
        by :
            (v : Worker)
            → Ready job_id rs c v
            → (x : Result ℤ) → x ≡ ok (pos c)
            → Left job_id rs (λ offset u. (offset ≡ pos c) × Ready job_id rs c u) v (x, v)
        by v r (ok offset) e = ((cc e, r), λ q. q)
        by v r (err x) e = absurd (cc e)

    run_worker-Left :
        (c : ℕ) (w : Worker)
        → Ready job_id rs c w
        → Left job_id rs (λ n. Done job_id rs jobs stop tt) w (run_worker job_id stop w)
    unfolding run_worker
    run_worker-Left c w h =
        continue-Left job_id rs (λ offset v. (offset ≡ pos c) × Ready job_id rs c v)
          (λ n. Done job_id rs jobs stop tt) _ (record w { processed = 0 }) _
          (read_checkpoint-Left c (record w { processed = 0 }) started)
          (λ offset v got.
            continue-Left job_id rs (Done job_id rs jobs stop) (λ n. Done job_id rs jobs stop tt)
              (λ _ u. (ok u.processed, u)) v _
              (subst
                (λ o.
                  Left job_id rs (Done job_id rs jobs stop) v
                    (drain job_id (next_offset w.q.self) stop o v))
                (sym got.0)
                (drain-Left job_id rs jobs stop (next_offset w.q.self) c v got.1
                  (omega (arith, next_offset-Holds rs w.q h.holds))))
              (λ _ u r. (r, λ q. q)))
      where
        started : Ready job_id rs c (record w { processed = 0 })
        started = record {
          holds = h.holds;
          open_file = h.open_file;
          at = h.at;
          le = h.le;
          seen = h.seen;
        }

  Left-Ready :
      (stop : Option ℕ) (w : Worker) (r : Result ℕ × Worker)
      → Left job_id rs (λ n. Done job_id rs jobs stop tt) w r
      → (c : ℕ) × Ready job_id rs c r.1
  Left-Ready stop w (ok n, v) h = h.0.0
  Left-Ready stop w (err e, v) h = h.0

  -- A run where the system has no failure to give.
  all_done :
      (w : Worker) (r : Result ℕ × Worker)
      → w.q.os ≡ []
      → Left job_id rs (λ n. Done job_id rs jobs none tt) w r
      → ((n : ℕ) × (r.0 ≡ ok n)) × AllSeen job_id rs r.1.seen
  all_done w (ok n, v) q h = ((n, refl), h.0.1 refl)
  all_done w (err e, v) q h = absurd (h.1 q)

  -- Let a stream hold records that are all jobs, and let every job before the checkpoint have been seen.
  -- Then however a run of the worker ends, told to stop after some number of jobs or failed by the system at
  -- any call, a run that follows, with no limit and no failure, returns, and every job has been seen.
  pub at_least_once :
      (c : ℕ) (w : Worker)
      → Ready job_id rs c w
      → (stop_after : Option ℕ)
      → ((n : ℕ) × ((run_worker job_id none (with_os [] (run_worker job_id stop_after w).1)).0
            ≡ ok n))
        × AllSeen job_id rs
            (run_worker job_id none (with_os [] (run_worker job_id stop_after w).1)).1.seen
  at_least_once c w h stop_after =
      let (c', again) = Left-Ready stop_after w _ (run_worker-Left stop_after c w h) in
      all_done (with_os [] (run_worker job_id stop_after w).1) _ refl
        (run_worker-Left none c' _ (Ready-os job_id rs c' [] _ again))
