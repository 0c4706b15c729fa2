-- ===== src/WorkQueue.antt =====
-- The worker of demos/work_queue.py, which drains a stream of jobs from a checkpoint that it keeps in
-- a file of its own.
pub mod AtLeastOnce
pub mod Checkpoint
pub mod Drain
pub mod Seen
mod Tests
use durastream.Common.{
  ℕ, zero, suc, ◌+◌, ◌<◌, Bool, true, false, Option, none, some, List, [], ◌∷◌, ◌++◌, Bytes, Text,
  length, leb, if◌then◌else◌,
}
use durastream.Common.Int.{ℤ, pos, lebℤ, add_ℕ}
use durastream.Errors.{Result, ok, err, os_error}
use durastream.Exec.{Exec, pure, lift, ◌>>=◌, ◌>>◌}
use durastream.Disk.{Answer, done, fail, short}
use durastream.Token.{digits_of, number_of}
use durastream.Codec.{Zlib}
use durastream.Stream.Defs.{Machine, next_offset}
use durastream.Stream.Read.{read}

-- `CHUNK`
abbrev pub chunk_size : ℕ
chunk_size = 1000

-- The stream of jobs, the checkpoint's file and its temporary one, the jobs seen so far, in any run (a set:
-- the order and the number of times do not count), and the number of jobs processed in this one.
pub record Worker : Type 0 where
  pub q : Machine
  pub checkpoint : Option Text
  pub tmp : Option Text
  pub seen : List ℕ
  pub processed : ℕ

abbrev pub with_os : List Answer → Worker → Worker
with_os os w = record w { q = record w.q { os = os } }

-- A call of the system, and what it does if it succeeds.
abbrev pub answered : List Answer → (Worker → Worker) → Exec Worker (Unit {0})
answered [] f w = (ok tt, f w)
answered (fail ∷ os) f w = (err os_error, with_os os w)
answered (done ∷ os) f w = (ok tt, f (with_os os w))
answered (short k ∷ os) f w = (ok tt, f (with_os os w))

abbrev pub parsed : Option Text → Result ℤ
parsed none = ok (pos 0)
parsed (some t) = number_of t

unfoldable pub read_checkpoint : Exec Worker ℤ
read_checkpoint w = (answered w.q.os (λ v. v) >>= λ _. λ v. (parsed v.checkpoint, v)) w

-- A temporary file is written, synced, and put in the place of the checkpoint. What a write that fails
-- leaves in the temporary file is not kept: nothing reads it.
unfoldable pub write_checkpoint : ℤ → Exec Worker (Unit {0})
unfolding digits_of
write_checkpoint offset w =
    ((λ v. answered v.q.os (λ u. record u { tmp = some (digits_of offset) }) v)
        >> (λ v. answered v.q.os (λ u. u) v)
        >> (λ v. answered v.q.os (λ u. record u { checkpoint = u.tmp; tmp = none }) v))
      w

abbrev pub on_queue : {A : Type 0} → Exec Machine A → Exec Worker A
on_queue m w = let (r, q) = m w.q in (r, record w { q = q })

abbrev pub stops : Option ℕ → ℕ → Bool
stops none processed = false
stops (some n) processed = leb n processed

abbrev pub see : ℕ → Worker → Worker
see id w = record w { seen = w.seen ++ id ∷ []; processed = w.processed + 1 }

-- One job, whose number is `id`, and then the others; true if the worker stops here.
abbrev pub work_on : Option ℕ → Result ℕ → Exec Worker Bool → Exec Worker Bool
work_on stop_after (err e) others w = (err e, w)
work_on stop_after (ok id) others w =
    let w' = see id w in if stops stop_after w'.processed then (ok true, w') else others w'

-- The worker stops before it has written the checkpoint, or writes it and goes on.
abbrev pub commit_chunk : ℤ → (ℤ → Exec Worker (Unit {0})) → Bool → Exec Worker (Unit {0})
commit_chunk offset others true w = (ok tt, w)
commit_chunk offset others false w = (write_checkpoint offset >> others offset) w

-- `job_id` is what a record's JSON has as its "id".
module _ ⦃z : Zlib⦄ (job_id : Bytes → Result ℕ) where
  unfoldable pub work : Option ℕ → List Bytes → Exec Worker Bool
  work stop_after [] w = (ok false, w)
  work stop_after (raw ∷ chunk) w = work_on stop_after (job_id raw) (work stop_after chunk) w

  -- The loop over chunks, on fuel.
  unfoldable pub drain : ℕ → Option ℕ → ℤ → Exec Worker (Unit {0})
  unfolding next_offset
  drain zero stop_after offset w = (ok tt, w)
  drain (suc fuel) stop_after offset w =
      if lebℤ (pos (next_offset w.q.self)) offset
      then (ok tt, w)
      else (on_queue (read offset (some (add_ℕ offset chunk_size))) >>= λ chunk.
            work stop_after chunk
            >>= commit_chunk (add_ℕ offset (length chunk)) (drain fuel stop_after))
          w

  -- The number of processed jobs is returned.
  unfoldable pub run_worker : Option ℕ → Exec Worker ℕ
  unfolding next_offset
  run_worker stop_after w =
      (read_checkpoint >>= λ offset.
      drain (next_offset w.q.self) stop_after offset >>= λ _. λ v. (ok v.processed, v))
        (record w { processed = 0 })
