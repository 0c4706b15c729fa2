-- ===== src/Batch/Kept.antt =====
-- What a batch writer keeps.
use durastream.Common.{
  ℕ, ◌≡◌, ◌≢◌, refl, sym, ap, ◌∙◌, subst, Option, none, some, List, [], ◌∷◌, ◌++◌, Bytes,
  append_assoc, append-nil, Bool-cases, if-true, if-false, inl, inr,
}
use durastream.Errors.{Error, Result, ok, err}
use durastream.Exec.{continue}
use durastream.Batch.{
  Writer, Batcher, Step, write_returned, flush_entered, locked, append_returned,
  append_later_returned, cancelled_again, appended_late, give_up, append_given_up, timer_fired,
  closing, stopped, Reached, created, then_step, raise_error, raise_pending, put, write, take_batch,
  append_done, keep_error, flush_later, close_begin, close_end, add_written, write_in, writes_in,
  with_self,
}

abbrev pub Kept : Batcher → Type 0
Kept b = b.written ≡ b.appended ++ (b.batch ++ b.self.buf)

put-Kept :
    (payload : Bytes) (b : Batcher) (w : Writer)
    → w.buf ≡ b.self.buf
    → Kept b
    → Kept (add_written payload b (put payload w))
put-Kept payload b w e kept = elim (Bool-cases w.closed) [
  | inl a ↦
      subst (λ r. Kept (add_written payload b r)) (sym (if-true _ _ a))
        (subst (λ buf. b.written ≡ b.appended ++ (b.batch ++ buf)) (sym e) kept)
  | inr a ↦
      subst (λ r. Kept (add_written payload b r)) (sym (if-false _ _ a))
        (subst (λ buf. b.written ++ payload ∷ [] ≡ b.appended ++ (b.batch ++ (buf ++ payload ∷ [])))
          (sym e)
          (ap (λ t. t ++ payload ∷ []) kept
            ∙ append_assoc b.appended (b.batch ++ b.self.buf) (payload ∷ [])
            ∙ ap (λ t. b.appended ++ t) (append_assoc b.batch b.self.buf (payload ∷ []))))
]

pending-Kept :
    (payload : Bytes) (b : Batcher) (o : Option Error)
    → Kept b
    → Kept (add_written payload b (continue (λ _. put payload) (raise_error o b.self)))
pending-Kept payload b none kept = put-Kept payload b b.self refl kept
pending-Kept payload b (some e) kept = kept

write_in-Kept : (payload : Bytes) (b : Batcher) → Kept b → Kept (write_in payload b)
unfolding write raise_pending
write_in-Kept payload b kept = pending-Kept payload b b.self.error kept

entered-Kept :
    (b : Batcher) (o : Option Error) → Kept b → Kept (with_self (λ w. (raise_error o w).1) b)
entered-Kept b none kept = kept
entered-Kept b (some e) kept = kept

take_batch-Kept : (b : Batcher) → b.batch ≡ [] → Kept b → Kept (take_batch b)
unfolding take_batch
take_batch-Kept b e kept =
    kept
    ∙ ap (λ t. b.appended ++ (t ++ b.self.buf)) e
    ∙ ap (λ t. b.appended ++ t) (sym (append-nil b.self.buf))

append_done-Kept : (r : Result ℕ) (b : Batcher) → Kept b → Kept (append_done r b)
unfolding append_done
append_done-Kept (ok end) b kept = kept ∙ sym (append_assoc b.appended b.batch b.self.buf)
append_done-Kept (err e) b kept = kept

keep_error-Kept : (r : Result ℕ) (b : Batcher) → Kept b → Kept (with_self (keep_error r) b)
keep_error-Kept (ok end) b kept = kept
keep_error-Kept (err e) b kept = kept

-- What the writer keeps while no batch was given up.
abbrev Keeps : Batcher → Type 0
Keeps b = b.given_up ≡ [] → Kept b

snoc-ne : {A : Type 0} (xs : List A) (x : A) (ys : List A) → xs ++ x ∷ ys ≢ []
snoc-ne [] x ys e = cc e
snoc-ne (y ∷ xs) x ys e = cc e

-- a write leaves the rest of the batcher alone
put-given_up :
    (payload : Bytes) (b : Batcher) (w : Writer)
    → (add_written payload b (put payload w)).given_up ≡ b.given_up
put-given_up payload b w = elim (Bool-cases w.closed) [
  | inl a ↦ ap (λ r. (add_written payload b r).given_up) (if-true _ _ a)
  | inr a ↦ ap (λ r. (add_written payload b r).given_up) (if-false _ _ a)
]

write_in-given_up : (payload : Bytes) (b : Batcher) → (write_in payload b).given_up ≡ b.given_up
unfolding write raise_pending
write_in-given_up payload b = by b.self.error
  where
    by :
        (o : Option Error)
        → (add_written payload b (continue (λ _. put payload) (raise_error o b.self))).given_up
          ≡ b.given_up
    by none = put-given_up payload b b.self
    by (some e) = refl

append_done-given_up : (r : Result ℕ) (b : Batcher) → (append_done r b).given_up ≡ b.given_up
unfolding append_done
append_done-given_up (ok end) b = refl
append_done-given_up (err e) b = refl

step-Keeps : {b c : Batcher} → Step b c → Keeps b → Keeps c
unfolding raise_pending flush_later close_begin close_end give_up append_given_up take_batch
step-Keeps (write_returned payload b) h e =
    write_in-Kept payload b (h (sym (write_in-given_up payload b) ∙ e))
step-Keeps (flush_entered b) h e = entered-Kept b b.self.error (h e)
step-Keeps (locked b q) h e = take_batch-Kept b q (h e)
step-Keeps (append_returned r b) h e = append_done-Kept r b (h (sym (append_done-given_up r b) ∙ e))
step-Keeps (append_later_returned r b) h e =
    keep_error-Kept r (append_done r b)
      (append_done-Kept r b (h (sym (append_done-given_up r b) ∙ e)))
step-Keeps (cancelled_again b) h e = absurd (snoc-ne b.given_up b.batch [] e)
step-Keeps (appended_late before after batch b q) h e =
    absurd (snoc-ne before batch after (sym q ∙ e))
step-Keeps (timer_fired b) h e = h e
step-Keeps (closing b) h e = h e
step-Keeps (stopped b) h e = h e

-- After any steps of its tasks, failed appends, background flushes and callers that are cancelled once
-- included, as long as no batch was given up (by a caller that is cancelled a second time, or by the task
-- of an append that is cancelled itself), the payloads of the writes that returned are, in their order and
-- each once, what the stream has appended, then the batch under way, then the buffer.
pub batcher-Kept : (b : Batcher) → Reached b → b.given_up ≡ [] → Kept b
batcher-Kept b created e = refl
batcher-Kept b (then_step c _ reached step) e = step-Keeps step (batcher-Kept c reached) e

-- A write while an append is under way.
put-batch :
    (payload : Bytes) (b : Batcher) (w : Writer)
    → ((add_written payload b (put payload w)).appended ≡ b.appended)
      × ((add_written payload b (put payload w)).batch ≡ b.batch)
put-batch payload b w = elim (Bool-cases w.closed) [
  | inl a ↦
      subst
        (λ r.
          ((add_written payload b r).appended ≡ b.appended)
          × ((add_written payload b r).batch ≡ b.batch))
        (sym (if-true _ _ a)) (refl, refl)
  | inr a ↦
      subst
        (λ r.
          ((add_written payload b r).appended ≡ b.appended)
          × ((add_written payload b r).batch ≡ b.batch))
        (sym (if-false _ _ a)) (refl, refl)
]

pending-batch :
    (payload : Bytes) (b : Batcher) (o : Option Error)
    → ((add_written payload b (continue (λ _. put payload) (raise_error o b.self))).appended
        ≡ b.appended)
      × ((add_written payload b (continue (λ _. put payload) (raise_error o b.self))).batch
          ≡ b.batch)
pending-batch payload b none = put-batch payload b b.self
pending-batch payload b (some e) = (refl, refl)

writes_in-batch :
    (payloads : List Bytes) (b : Batcher)
    → ((writes_in payloads b).appended ≡ b.appended) × ((writes_in payloads b).batch ≡ b.batch)
unfolding write raise_pending
writes_in-batch [] b = (refl, refl)
writes_in-batch (p ∷ payloads) b =
    let rest = writes_in-batch payloads (write_in p b) in
    let first = pending-batch p b b.self.error in (rest.0 ∙ first.0, rest.1 ∙ first.1)

-- If no batch was given up before, the lock is free when a flush takes the buffer, and its append
-- succeeds, then whatever is written in between, all that was written before the flush is appended, in
-- its order and each once, and no more.
pub flush-appends :
    (b : Batcher)
    → Reached b
    → b.given_up ≡ []
    → b.batch ≡ []
    → (payloads : List Bytes) (end : ℕ)
    → (append_done (ok end) (writes_in payloads (take_batch b))).appended ≡ b.written
unfolding append_done take_batch
flush-appends b reached none_lost e payloads end =
    let h = writes_in-batch payloads (take_batch b) in
    ap (λ t. t ++ (writes_in payloads (take_batch b)).batch) h.0
    ∙ ap (λ t. b.appended ++ t) h.1
    ∙ sym (batcher-Kept b reached none_lost ∙ ap (λ t. b.appended ++ (t ++ b.self.buf)) e)
