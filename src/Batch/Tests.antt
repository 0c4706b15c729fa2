-- ===== src/Batch/Tests.antt =====
-- A batch writer whose first append fails.
use durastream.Common.{◌≡◌, refl, [], ◌∷◌, Bytes}
use durastream.Errors.{ok, err, os_error}
use durastream.Batch.{
  Batcher, new_writer, write_returned, locked, append_returned, Reached, created, then_step, write,
  raise_pending, take_batch, append_done, give_up, write_in, writes_in,
}
use durastream.Batch.Kept.{Kept, batcher-Kept, flush-appends}

abbrev a : Bytes
a = b'a' ∷ []

abbrev b : Bytes
b = b'b' ∷ []

abbrev at_start : Batcher
at_start = record { self = new_writer; batch = []; appended = []; written = []; given_up = [] }

abbrev after_write : Batcher
after_write = write_in a at_start

abbrev after_failure : Batcher
after_failure = append_done (err os_error) (write_in b (take_batch after_write))

after_failure-Reached : Reached after_failure
unfolding write raise_pending take_batch append_done
after_failure-Reached =
    then_step _ _
      (then_step _ _
        (then_step _ _ (then_step _ _ created (write_returned a at_start))
          (locked after_write refl))
        (write_returned b (take_batch after_write)))
      (append_returned (err os_error) (write_in b (take_batch after_write)))

after_failure_test : after_failure.self.buf ≡ a ∷ b ∷ []
unfolding write raise_pending take_batch append_done
after_failure_test = refl

none_given_up : after_failure.given_up ≡ []
unfolding write raise_pending take_batch append_done
none_given_up = refl

-- A batch whose caller was cancelled twice, and whose append fails, is nowhere.
lost_test : (give_up (take_batch after_write)).self.buf ≡ []
unfolding write raise_pending take_batch give_up
lost_test = refl

batcher-Kept_example : Kept after_failure
batcher-Kept_example = batcher-Kept after_failure after_failure-Reached none_given_up

flush-appends_example :
    (append_done (ok 2) (writes_in (a ∷ []) (take_batch after_failure))).appended
    ≡ after_failure.written
unfolding write raise_pending take_batch append_done
flush-appends_example =
    flush-appends after_failure after_failure-Reached none_given_up refl (a ∷ []) 2
