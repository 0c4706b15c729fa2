-- ===== src/Stream/Follow/Drained.antt =====
-- The generator `subscribe`, over its steps and those of the other methods.
use durastream.Common.{
  ℕ, ◌+◌, ◌<◌, ◌≡◌, refl, sym, ap, ◌∙◌, subst, true, false, none, List, [], ◌++◌, Bytes, length,
  drop, length-append, leb, leb→le, gt→leb, if◌then◌else◌, if-true, if-false, Bool-cases, inl, inr,
  arith,
}
use durastream.Common.Int.{pos, pos_part, lebℤ, maxℤ, add_ℕ}
use durastream.Errors.{Result, ok, err, stream_closed}
use durastream.Codec.{Zlib}
use durastream.Stream.Defs.{Machine, next_offset}
use durastream.Stream.Write.{append_many, close, close_fds}
use durastream.Stream.Read.{read, read_open, again, wait, stop, subscribe_next}
use durastream.Stream.Holds.{Holds, Holds-as, next_offset-Holds}
use durastream.Stream.Append.{Appended, append_many-Appended}
use durastream.Stream.Close.{close-Closed}
use durastream.Stream.Range.{maxℤ-zero}
use durastream.Common.{leb→gt}
use durastream.Stream.Shut.{Refused, append_many-Refused, close-stays}
use durastream.Stream.Follow.{
  Place, reading, look, checking, waiting, returned, raised, woken, place_of, Follower, yield_batch,
  Step, appended, closed, released, answers, reads, looks, Reached, called, then_step,
}
use durastream.Stream.Follow.FirstOf.{
  FirstOf, FirstOf-grow, FirstOf-all, FirstOf-end, Took, read-Took, close-Holds,
}

module _ ⦃z : Zlib⦄ where
  -- What the generator has yielded is the first of the records from its offset on, and it goes on behind it.
  record Follows (offset : ℕ) (f : Follower) : Type 0 where
    rs : List Bytes
    holds : Holds rs f.w
    at : f.offset ≡ pos (offset + length f.yielded)
    first : FirstOf rs offset f.yielded
    over : f.place ≡ returned → (f.w.self.closed ≡ true) × (f.yielded ≡ drop offset rs)

  moved :
      {offset : ℕ} (f : Follower) (h : Follows offset f) (w : Machine)
      → Holds h.rs w
      → (f.w.self.closed ≡ true → w.self.closed ≡ true)
      → Follows offset (record f { w = w })
  moved f h w k s = record {
    rs = h.rs;
    holds = k;
    at = h.at;
    first = h.first;
    over = λ e. let (shut, all) = h.over e in (s shut, all);
  }

  append_many-Follows :
      {offset : ℕ} (f : Follower) (h : Follows offset f) (ps : List Bytes) (r : Result ℕ × Machine)
      → Appended h.rs ps r
      → (f.w.self.closed ≡ true → Refused r)
      → Follows offset (record f { w = r.1 })
  append_many-Follows f h ps (err e, w) k refused = moved f h w k (λ x. refused x)
  append_many-Follows {offset} f h ps (ok n, w) (count, k, durable) refused = record {
    rs = h.rs ++ ps;
    holds = k;
    at = h.at;
    first = FirstOf-grow h.rs ps offset f.yielded h.first;
    over = λ e. absurd (refused (h.over e).0);
  }

  read-Follows :
      {offset : ℕ} (f : Follower) (h : Follows offset f) (r : Result (List Bytes) × Machine)
      → Took (drop (offset + length f.yielded) h.rs) f.w r
      → Follows offset (yield_batch f r)
  read-Follows {offset} f h (ok batch, w) (e, same) = record {
    rs = h.rs;
    holds =
        subst (Holds h.rs) (sym same)
          (Holds-as h.rs f.w (record f.w { os = w.os }) h.holds refl refl (λ c o. (c, o)));
    at =
        ap (λ o. add_ℕ o (length batch)) h.at
        ∙ ap pos (omega (arith, length-append f.yielded batch));
    first =
        subst (λ b. FirstOf h.rs offset (f.yielded ++ b)) (sym e)
          (FirstOf-all h.rs offset f.yielded h.first);
    over = λ q. absurd (cc q);
  }
  read-Follows f h (err e, w) same = record {
    rs = h.rs;
    holds =
        subst (Holds h.rs) (sym same)
          (Holds-as h.rs f.w (record f.w { os = w.os }) h.holds refl refl (λ c o. (c, o)));
    at = h.at;
    first = h.first;
    over = λ q. absurd (cc q);
  }

  -- What the test does: it goes on only if there is more, and waits or ends only if all is yielded.
  abbrev pub Decided : List Bytes → ℕ → Follower → Place → Type 0
  Decided rs offset f reading = offset + length f.yielded < length rs
  Decided rs offset f waiting = (f.w.self.closed ≡ false) × (f.yielded ≡ drop offset rs)
  Decided rs offset f returned = (f.w.self.closed ≡ true) × (f.yielded ≡ drop offset rs)
  Decided rs offset f checking = ⊥
  Decided rs offset f (raised e) = ⊥

  look-Decided :
      {offset : ℕ} (f : Follower) (h : Follows offset f) → Decided h.rs offset f (look f).place
  unfolding subscribe_next
  look-Decided {offset} f h =
      subst
        (λ o. Decided h.rs offset f (
          place_of (
            if lebℤ (pos (next_offset f.w.self)) o
            then (if f.w.self.closed then stop else wait)
            else again)))
        (sym h.at)
        (elim (Bool-cases (leb (next_offset f.w.self) (offset + length f.yielded))) [
          | inr a ↦
              subst (λ n. Decided h.rs offset f (place_of n)) (sym (if-false _ _ a))
                (omega (arith, leb→gt _ _ a, next_offset-Holds h.rs f.w h.holds))
          | inl a ↦
              subst (λ n. Decided h.rs offset f (place_of n)) (sym (if-true _ _ a))
                (let all : f.yielded ≡ drop offset h.rs =
                    FirstOf-end h.rs offset f.yielded h.first
                      (omega (arith, leb→le _ _ a, next_offset-Holds h.rs f.w h.holds)) in
                  elim (Bool-cases f.w.self.closed) [
                    | inl c ↦
                        subst (λ n. Decided h.rs offset f (place_of n)) (sym (if-true _ _ c))
                          (c, all)
                    | inr c ↦
                        subst (λ n. Decided h.rs offset f (place_of n)) (sym (if-false _ _ c))
                          (c, all)
                  ])
        ])

  step-Follows : {offset : ℕ} {f g : Follower} → Step f g → Follows offset f → Follows offset g
  unfolding close_fds
  step-Follows (appended ps f) h =
      append_many-Follows f h ps (append_many ps f.w) (append_many-Appended h.rs ps f.w h.holds)
        (append_many-Refused ps f.w)
  step-Follows (closed f) h =
      moved f h (close f.w).1 (close-Holds h.rs f.w h.holds (close f.w) (close-Closed f.w))
        (close-stays f.w (close f.w) (close-Closed f.w))
  step-Follows (released f) h =
      moved f h (record f.w { self = close_fds f.w.self })
        (Holds-as h.rs f.w _ h.holds refl refl (λ c. absurd (cc c))) (λ _. refl)
  step-Follows (answers os f) h =
      moved f h (record f.w { os = os }) (Holds-as h.rs f.w _ h.holds refl refl (λ c o. (c, o)))
        (λ c. c)
  step-Follows {offset} (reads f p) h = read-Follows f h (read f.offset none f.w) (
      subst (λ o. Took (drop (offset + length f.yielded) h.rs) f.w (read o none f.w)) (sym h.at)
        (read-Took h.rs f.w (offset + length f.yielded) h.holds))
  step-Follows {offset} (looks f p) h = record {
    rs = h.rs;
    holds = h.holds;
    at = h.at;
    first = h.first;
    over = λ e. subst (Decided h.rs offset f) e (look-Decided f h);
  }
  step-Follows (woken f p) h = record {
    rs = h.rs;
    holds = h.holds;
    at = h.at;
    first = h.first;
    over = λ e. absurd (cc e);
  }

  Reached-Follows : {offset : ℕ} {f : Follower} → Reached (pos offset) f → Follows offset f
  Reached-Follows {offset} (called w rs h) = record {
    rs = rs;
    holds = h;
    at = ap pos (omega arith);
    first = refl;
    over = λ e. absurd (cc e);
  }
  Reached-Follows (then_step f g reached step) = step-Follows step (Reached-Follows reached)

  -- In one thread, from an offset that is not negative, while others append, close, and let the file go,
  -- whatever the system answers: what `subscribe` has yielded is the first of the records from its offset on,
  -- each once and in order. Where it has ended, the stream is closed and all of them are yielded. Whenever it
  -- tests the stream, it goes on to a read only if there are more, waits only if the stream is open and all
  -- are yielded, and ends only if it is closed and all are yielded. Where the file was let go before all are
  -- yielded, its next read raises `StreamClosed`.
  pub follow-drained :
      (offset : ℕ) (f : Follower)
      → Reached (pos offset) f
      → (rs : List Bytes) × Holds rs f.w
        × FirstOf rs offset f.yielded
        × (f.place ≡ returned → (f.w.self.closed ≡ true) × (f.yielded ≡ drop offset rs))
        × Decided rs offset f (look f).place
        × (f.w.self.file ≡ none
            → offset + length f.yielded < length rs
            → read f.offset none f.w ≡ (err (stream_closed f.w.self.name), f.w))
  unfolding read
  follow-drained offset f reached =
      let h = Reached-Follows reached in
      (h.rs, h.holds, h.first, h.over, look-Decided f h, (λ gone more. cut_off h gone more))
    where
      cut_off :
          (h : Follows offset f)
          → f.w.self.file ≡ none
          → offset + length f.yielded < length h.rs
          → read f.offset none f.w ≡ (err (stream_closed f.w.self.name), f.w)
      cut_off h gone more =
          subst
            (λ s.
              (if lebℤ (pos (next_offset f.w.self)) s
                then (ok [], f.w)
                else read_open f.w.self.file (pos_part s) (next_offset f.w.self) f.w)
              ≡ (err (stream_closed f.w.self.name), f.w))
            (sym (ap (λ o. maxℤ o (pos 0)) h.at ∙ maxℤ-zero (pos (offset + length f.yielded))))
            (if-false _ _ (
                gt→leb (next_offset f.w.self) (offset + length f.yielded)
                  (omega (arith, more, next_offset-Holds h.rs f.w h.holds)))
              ∙ ap (λ file. read_open file (offset + length f.yielded) (next_offset f.w.self) f.w)
                  gone)
