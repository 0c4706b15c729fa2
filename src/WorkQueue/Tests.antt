-- ===== src/WorkQueue/Tests.antt =====
-- A worker with two jobs, which is told to stop after the first.
use durastream.Common.{
  ℕ, ◌≡◌, refl, sym, append-nil, false, true, none, some, List, [], ◌∷◌, Bytes, codes, arith,
}
use durastream.Common.Int.{pos}
use durastream.Errors.{Result, ok, err, value_error}
use durastream.Disk.{fail}
use durastream.Codec.Crc32.{zlib}
use durastream.Codec.Decode.{encode}
use durastream.Stream.Defs.{Stream}
use durastream.WorkQueue.{Worker, with_os, write_checkpoint, run_worker}
use durastream.WorkQueue.Seen.{AllSeen}
use durastream.WorkQueue.Checkpoint.{Ready}
use durastream.WorkQueue.AtLeastOnce.{at_least_once}

-- a job is its number
abbrev job_id : Bytes → Result ℕ
job_id [] = err value_error
job_id (b ∷ r) = ok b

abbrev jobs : List Bytes
jobs = codes "a" ∷ codes "b" ∷ []

abbrev queue : Stream
queue = record {
  name = codes "jobs";
  path = codes "d/jobs.log";
  content_type = codes "t";
  closed = false;
  listeners = [];
  next_lid = 1;
  file = some 3;
  owner = true;
  pid = 1;
  index = 0 ∷ 9 ∷ 18 ∷ [];
}

abbrev worker : Worker
worker = record {
  q = record {
    self = queue;
    log = record { bytes = encode jobs; durable = encode jobs };
    db = some [];
    os = [];
    getpid = 1;
    calls = [];
  };
  checkpoint = none;
  tmp = none;
  seen = [];
  processed = 0;
}

worker-Ready : Ready job_id jobs 0 worker
worker-Ready = record {
  holds = record {
    fit = (omega arith, (omega arith, tt));
    index = refl;
    tail = [];
    bytes = sym (append-nil (encode jobs));
    clean = λ c o. refl;
  };
  open_file = (3, refl);
  at = refl;
  le = omega arith;
  seen = tt;
}

at_least_once_example :
    ((n : ℕ) × ((run_worker job_id none (with_os [] (run_worker job_id (some 1) worker).1)).0
        ≡ ok n))
    × AllSeen job_id jobs
        (run_worker job_id none (with_os [] (run_worker job_id (some 1) worker).1)).1.seen
at_least_once_example =
    at_least_once job_id jobs ((b'a', refl), ((b'b', refl), tt)) 0 worker worker-Ready (some 1)

-- the checkpoint is not touched where the rename fails
write_checkpoint_test : (write_checkpoint (pos 2) (with_os (fail ∷ []) worker)).1.checkpoint ≡ none
unfolding write_checkpoint
write_checkpoint_test = refl
