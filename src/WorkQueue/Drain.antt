-- ===== src/WorkQueue/Drain.antt =====
-- The loop of the worker, a chunk at a time.
use durastream.Common.{
  ℕ, zero, suc, ◌+◌, ◌-◌, ◌≤◌, ◌<◌, ◌≡◌, refl, sym, ap, ◌∙◌, subst, Bool, true, false, Option, none,
  some, List, [], Bytes, length, take, drop, min, leb, leb→le, leb→gt, if-true, if-false,
  Bool-cases, inl, inr, arith, length-take, length-drop, take-of_le,
}
use durastream.Common.Int.{ℤ, pos}
use durastream.Errors.{Result, ok, err}
use durastream.Exec.{Exec, continue}
use durastream.Codec.{Zlib}
use durastream.Stream.Defs.{Machine, next_offset}
use durastream.Stream.Read.{read}
use durastream.Stream.Holds.{Holds, next_offset-Holds}
use durastream.Stream.Fetch.{Fetched}
use durastream.Stream.Range.{read-requested}
use durastream.WorkQueue.{chunk_size, Worker, parsed, on_queue, commit_chunk, work, drain}
use durastream.Disk.Laws.{NoFail}
use durastream.Stream.Silent.{read-silent}
use durastream.WorkQueue.Seen.{
  Grows, AllJobs, AllSeen, AllSeen-Grows, AllSeen-further, AllJobs-take, AllJobs-drop, Worked,
  work-Worked,
}
use durastream.WorkQueue.Checkpoint.{
  Ready, Left, continue-Left, Ready-os, Ahead, write_checkpoint-Left,
}

module _ ⦃z : Zlib⦄ (job_id : Bytes → Result ℕ) (rs : List Bytes) (jobs : AllJobs job_id rs) where
  -- what is asked for from `c` on
  abbrev next_chunk : ℕ → List Bytes
  next_chunk c = take (min (c + chunk_size) (length rs) - c) (drop c rs)

  abbrev Got : ℕ → List Bytes → Worker → Type 0
  Got c chunk v = (chunk ≡ next_chunk c) × Ready job_id rs c v

  read-Left :
      (c : ℕ) (w : Worker)
      → Ready job_id rs c w
      → Left job_id rs (Got c) w (on_queue (read (pos c) (some (pos (c + chunk_size)))) w)
  read-Left c w h =
      by (read (pos c) (some (pos (c + chunk_size))) w.q)
        (read-requested rs w.q h.holds h.open_file.1 (pos c) (some (pos (c + chunk_size))))
        (read-silent (pos c) (some (pos (c + chunk_size))) w.q)
    where
      same : (q : Machine) → q ≡ record w.q { os = q.os } → Ready job_id rs c (record w { q = q })
      same q e =
          subst (λ m. Ready job_id rs c (record w { q = m })) (sym e)
            (Ready-os job_id rs c q.os w h)

      by :
          (r : Result (List Bytes) × Machine)
          → Fetched w.q (next_chunk c) r
          → (w.q.os ≡ [] → r.1.os ≡ [])
          → Left job_id rs (Got c) w (r.0, record w { q = r.1 })
      by (ok chunk, q) (e, k) silent = ((e, same q k), silent)
      by (err x, q) (e, failed, k) silent =
          ((c, same q k), λ none_left. failed (subst NoFail (sym none_left) tt))

  next_chunk-le : (c : ℕ) → c ≤ length rs → c + length (next_chunk c) ≤ length rs
  next_chunk-le c le =
      omega (
        arith,
        le,
        length-take (min (c + chunk_size) (length rs) - c) (drop c rs),
        length-drop c rs,
      )

  -- each round moves on
  next_chunk-gt :
      (c fuel : ℕ)
      → c < length rs
      → length rs ≤ suc fuel + c
      → length rs ≤ fuel + (c + length (next_chunk c))
  next_chunk-gt c fuel lt le = omega (
    arith,
    lt,
    le,
    length-take (min (c + chunk_size) (length rs) - c) (drop c rs),
    length-drop c rs,
  )

  module _ (stop : Option ℕ) where
    abbrev Passed : ℕ → ℕ → Bool → Worker → Type 0
    Passed c n b v =
        Ready job_id rs c v × (b ≡ false → Ahead job_id rs c n v) × (b ≡ true → ¬ (stop ≡ none))

    work-Left :
        (c : ℕ) (v : Worker)
        → Ready job_id rs c v
        → Left job_id rs
            (Passed c (c + length (next_chunk c)))
            v
            (work job_id stop (next_chunk c) v)
    work-Left c v h = by (work job_id stop (next_chunk c) v) (
        work-Worked job_id stop (next_chunk c) v
          (AllJobs-take job_id _ (drop c rs) (AllJobs-drop job_id c rs jobs)))
      where
        kept :
            (u : Worker)
            → u.q ≡ v.q
            → u.checkpoint ≡ v.checkpoint
            → Grows v.seen u.seen
            → Ready job_id rs c u
        kept u q k g = record {
          holds = subst (Holds rs) (sym q) h.holds;
          open_file = (h.open_file.0, ap (λ m. m.self.file) q ∙ h.open_file.1);
          at = ap parsed k ∙ h.at;
          le = h.le;
          seen = AllSeen-Grows job_id (take c rs) v.seen u.seen g h.seen;
        }

        by :
            (r : Result Bool × Worker)
            → Worked job_id stop (next_chunk c) v r
            → Left job_id rs (Passed c (c + length (next_chunk c))) v r
        by (err e, u) f = absurd f
        by (ok b, u) (q, k, g, all, stopped) = (
          (
            kept u q k g,
            (λ f. (
              kept u q k g,
              next_chunk-le c h.le,
              AllSeen-further job_id c _ rs u.seen (kept u q k g).seen (all f),
            )),
            stopped,
          ),
          λ e. ap (λ m. m.os) q ∙ e,
        )

    -- the end of the loop: all is seen, unless the worker was told to stop
    abbrev pub Done : Unit {0} → Worker → Type 0
    Done a v = ((c : ℕ) × Ready job_id rs c v) × (stop ≡ none → AllSeen job_id rs v.seen)

    at_end : (c : ℕ) (w : Worker) → Ready job_id rs c w → length rs ≤ c → Done tt w
    at_end c w h le =
        ((c, h), λ e. subst (λ l. AllSeen job_id l w.seen) (take-of_le c rs le) h.seen)

    commit-Left :
        (c n : ℕ) (others : ℤ → Exec Worker (Unit {0})) (b : Bool) (u : Worker)
        → Passed c n b u
        → ((v : Worker) → Ready job_id rs n v → Left job_id rs Done v (others (pos n) v))
        → Left job_id rs Done u (commit_chunk (pos n) others b u)
    commit-Left c n others true u (h, ahead, stopped) k =
        (((c, h), λ e. absurd (stopped refl e)), λ e. e)
    commit-Left c n others false u (h, ahead, stopped) k =
        continue-Left job_id rs (λ _. Ready job_id rs n) Done _ u _
          (write_checkpoint-Left job_id rs c n u (ahead refl)) (λ _ v r. k v r)

    pub drain-Left :
        (fuel c : ℕ) (w : Worker)
        → Ready job_id rs c w
        → length rs ≤ fuel + c
        → Left job_id rs Done w (drain job_id fuel stop (pos c) w)
    unfolding drain
    drain-Left zero c w h le = (at_end c w h (omega (arith, le)), λ e. e)
    drain-Left (suc fuel) c w h le = elim (Bool-cases (leb (next_offset w.q.self) c)) [
      | inl a ↦
          subst (Left job_id rs Done w) (sym (if-true _ _ a))
            (at_end c w h (omega (arith, leb→le _ _ a, next_offset-Holds rs w.q h.holds)), λ e. e)
      | inr a ↦ subst (Left job_id rs Done w) (sym (if-false _ _ a)) (
          let lt : c < length rs = omega (arith, leb→gt _ _ a, next_offset-Holds rs w.q h.holds) in
          continue-Left job_id rs (Got c) Done _ w _ (read-Left c w h) (λ chunk v got.
            subst
              (λ (l : List Bytes). Left job_id rs Done v (
                continue (commit_chunk (pos (c + length l)) (drain job_id fuel stop))
                  (work job_id stop l v)))
              (sym got.0)
              (continue-Left job_id rs (Passed c (c + length (next_chunk c))) Done _ v _
                (work-Left c v got.1)
                (λ b u passed.
                  commit-Left c (c + length (next_chunk c)) (drain job_id fuel stop) b u passed
                    (λ x r.
                      drain-Left fuel (c + length (next_chunk c)) x r
                        (next_chunk-gt c fuel lt le))))))
    ]
