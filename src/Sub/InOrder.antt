-- ===== src/Sub/InOrder.antt =====
-- `AsyncDurableStream.subscribe` of src/durastream/aio.py between the tasks and threads that append to
-- its stream, close it, and deliver to its subscriber.
use durastream.Common.{
  ℕ, ◌+◌, ◌≤◌, ◌≡◌, refl, sym, ap, ◌∙◌, subst, Bool, true, false, List, [], ◌∷◌, ◌++◌, Bytes,
  length, drop, append-nil, length-append, length-drop, leb, ltb, ltb→ge, leb→le, arith, if-true,
  if-false, Bool-cases, ◌⊎◌, inl, inr,
}
use durastream.Common.Int
use durastream.Common.Int.{ℤ, pos_part, maxℤ}
use durastream.Sub.{
  Sub, new_sub, Turn, fetch, again, finish, deliver_one, sleep, deliver, skip, turn, live,
  take_or_wait, pop_from, hold_at, popleft,
}
use durastream.Sub.View.{
  Slice, Slice-append, Slice-grow, IsFed, deliver-IsFed, cleared-IsFed, popped-IsFed, skip-IsFed,
  hold_at-IsFed, grown-IsFed,
}

-- The durable records, and the generator: its subscriber, its `pos`, whether it waits for a read of the
-- disk, and what it has yielded.
pub record Tail : Type 0 where
  pub recs : List Bytes
  pub closed : Bool
  pub sub : Sub
  pub pos : ℕ
  pub fetching : Bool
  pub yielded : List Bytes

unfoldable pub advance : Tail → Turn × Sub → Tail
advance t (fetch, s) = record t { sub = s; fetching = true }
advance t (again, s) = record t { sub = s }
advance t (finish, s) = record t { sub = s }
advance t (sleep, s) = record t { sub = s }
advance t (deliver_one r, s) = record t { sub = s; pos = t.pos + 1; yielded = t.yielded ++ r ∷ [] }

abbrev pub next_turn : Tail → Turn × Sub
next_turn t = turn t.pos (length t.recs) t.closed t.sub

-- The read returns, and what it read is yielded.
unfoldable pub fetched : Tail → Tail
fetched t = record t {
  yielded = t.yielded ++ drop t.pos t.recs;
  pos = t.pos + length (drop t.pos t.recs);
  fetching = false;
}

-- A delivery may come at any time, out of order or twice, but carries what the stream has there.
pub data Step : Tail → Tail → Type 0 where
  append : (t : Tail) (new : List Bytes) → Step t (record t { recs = t.recs ++ new })
  close : (t : Tail) → Step t (record t { closed = true })
  call :
      (t : Tail) (start : ℕ) (records : List Bytes)
      → Slice start records t.recs
      → Step t (record t { sub = deliver start records t.sub })
  go_around : (t : Tail) → t.fetching ≡ false → Step t (advance t (next_turn t))
  read_done : (t : Tail) → t.fetching ≡ true → Step t (fetched t)

abbrev pub start_of : ℤ → ℕ
start_of offset = pos_part (maxℤ offset (Int.pos 0))

pub data Reached (offset : ℤ) : Tail → Type 0 where
  joined :
      (recs : List Bytes) (closed : Bool)
      → Reached offset (record {
        recs = recs;
        closed = closed;
        sub = new_sub;
        pos = start_of offset;
        fetching = false;
        yielded = [];
      })
  then_step : (t u : Tail) → Reached offset t → Step t u → Reached offset u

abbrev pub InOrder : ℕ → Tail → Type 0
InOrder offset t =
    (t.pos ≡ offset + length t.yielded) × Slice offset t.yielded t.recs × IsFed t.recs t.sub

-- What is known of the end of a round.
abbrev Right : List Bytes → ℕ → Bool → Turn × Sub → Type 0
Right recs pos closed (fetch, s) = IsFed recs s
Right recs pos closed (again, s) = IsFed recs s
Right recs pos closed (finish, s) = IsFed recs s × (closed ≡ true) × (length recs ≤ pos)
Right recs pos closed (sleep, s) = IsFed recs s
Right recs pos closed (deliver_one r, s) = IsFed recs s × Slice pos (r ∷ []) recs

hold_at-reaches :
    (pos : ℕ) (s : Sub) → (s.buf ≡ []) ⊎ (pos ≤ s.start) → pos ≤ (hold_at pos s.buf s).start
hold_at-reaches pos s (inl e) = subst (λ b. pos ≤ (hold_at pos b s).start) (sym e) (omega arith)
hold_at-reaches pos s (inr le) = reaches s.buf
  where
    reaches : (buf : List Bytes) → pos ≤ (hold_at pos buf s).start
    reaches [] = omega arith
    reaches (r ∷ buf) = le

skip-reaches :
    (buf : List Bytes) (pos : ℕ) (s : Sub)
    → s.buf ≡ buf
    → ((skip pos buf s).buf ≡ []) ⊎ (pos ≤ (skip pos buf s).start)
unfolding skip
skip-reaches [] pos s e = inl e
skip-reaches (r ∷ buf) pos s e = elim (Bool-cases (ltb s.start pos)) [
  | inl a ↦
      subst (λ q. (q.buf ≡ []) ⊎ (pos ≤ q.start)) (sym (if-true _ s a))
        (skip-reaches buf pos _ refl)
  | inr a ↦
      subst (λ q. (q.buf ≡ []) ⊎ (pos ≤ q.start)) (sym (if-false _ s a))
        (inr (ltb→ge s.start pos a))
]

taken-Right :
    (recs buf : List Bytes) (pos : ℕ) (closed : Bool) (s : Sub)
    → s.buf ≡ buf
    → s.start ≡ pos
    → IsFed recs s
    → Right recs pos closed (take_or_wait pos (length recs) closed s (pop_from buf s))
taken-Right recs (r ∷ buf) pos closed s e at fed = (
  popped-IsFed recs buf r s e fed,
  (buf ++ fed.1.0, ap (λ b. b ++ fed.1.0) (sym e) ∙ fed.1.1 ∙ ap (λ k. drop k recs) at),
)
taken-Right recs [] pos false s e at fed = fed
taken-Right recs [] pos true s e at fed = elim (Bool-cases (leb (length recs) pos)) [
  | inl a ↦
      subst (Right recs pos true) (sym (if-true _ _ a)) (fed, refl, leb→le (length recs) pos a)
  | inr a ↦ subst (Right recs pos true) (sym (if-false _ _ a)) fed
]

-- A round that goes on to the live records.
live-Right :
    (recs : List Bytes) (pos : ℕ) (closed : Bool) (s : Sub)
    → pos ≤ s.start
    → IsFed recs s
    → Right recs pos closed (live pos (length recs) closed s)
unfolding popleft
live-Right recs pos closed s le fed = elim (Bool-cases (ltb pos s.start)) [
  | inl a ↦ subst (Right recs pos closed) (sym (if-true _ _ a)) fed
  | inr a ↦
      subst (Right recs pos closed) (sym (if-false _ _ a))
        (taken-Right recs s.buf pos closed s refl (omega (arith, ltb→ge pos s.start a)) fed)
]

turn-Right :
    (recs : List Bytes) (pos : ℕ) (closed : Bool) (s : Sub)
    → IsFed recs s
    → Right recs pos closed (turn pos (length recs) closed s)
unfolding turn
turn-Right recs pos closed s fed = elim (Bool-cases s.stale) [
  | inl a ↦
      subst (Right recs pos closed) (sym (if-true _ _ a)) (cleared-IsFed recs s (length recs) false)
  | inr a ↦ subst (Right recs pos closed) (sym (if-false _ _ a)) (
      live-Right recs pos closed _
        (hold_at-reaches pos (skip pos s.buf s) (skip-reaches s.buf pos s refl))
        (hold_at-IsFed recs (skip pos s.buf s).buf pos (skip pos s.buf s) refl
          (skip-IsFed recs s.buf pos s refl fed)))
]

advance-InOrder :
    (offset : ℕ) (t : Tail) (r : Turn × Sub)
    → InOrder offset t
    → Right t.recs t.pos t.closed r
    → InOrder offset (advance t r)
unfolding advance
advance-InOrder offset t (fetch, s) h right = (h.0, h.1, right)
advance-InOrder offset t (again, s) h right = (h.0, h.1, right)
advance-InOrder offset t (finish, s) h right = (h.0, h.1, right.0)
advance-InOrder offset t (sleep, s) h right = (h.0, h.1, right)
advance-InOrder offset t (deliver_one r, s) h right = (
  omega (arith, h.0, length-append t.yielded (r ∷ [])),
  Slice-append offset t.yielded (r ∷ []) t.recs h.1
      (subst (λ k. Slice k (r ∷ []) t.recs) h.0 right.1),
  right.0,
)

fetched-InOrder : (offset : ℕ) (t : Tail) → InOrder offset t → InOrder offset (fetched t)
unfolding fetched
fetched-InOrder offset t h = (
  omega (arith, h.0, length-append t.yielded (drop t.pos t.recs)),
  Slice-append offset t.yielded (drop t.pos t.recs) t.recs h.1
      ([], append-nil _ ∙ ap (λ k. drop k t.recs) h.0),
  h.2,
)

step-InOrder : (offset : ℕ) {t u : Tail} → Step t u → InOrder offset t → InOrder offset u
step-InOrder offset (append t new) h =
    (h.0, Slice-grow offset t.yielded t.recs new h.1, grown-IsFed t.recs new t.sub h.2)
step-InOrder offset (close t) h = h
step-InOrder offset (call t start records sl) h =
    (h.0, h.1, deliver-IsFed t.recs start records t.sub sl h.2)
step-InOrder offset (go_around t f) h =
    advance-InOrder offset t (next_turn t) h (turn-Right t.recs t.pos t.closed t.sub h.2)
step-InOrder offset (read_done t f) h = fetched-InOrder offset t h

pub all_yielded :
    (offset : ℕ) (xs recs : List Bytes)
    → Slice offset xs recs
    → length recs ≤ offset + length xs
    → xs ≡ drop offset recs
all_yielded offset xs recs ([], e) le = sym (append-nil xs) ∙ e
all_yielded offset xs recs (p ∷ post, e) le =
    absurd (omega (arith, ap length e, length-append xs (p ∷ post), length-drop offset recs))

finish-Right :
    (recs : List Bytes) (pos : ℕ) (closed : Bool) (r : Turn × Sub)
    → Right recs pos closed r
    → r.0 ≡ finish
    → (closed ≡ true) × (length recs ≤ pos)
finish-Right recs pos closed (finish, s) h e = (h.1, h.2)
finish-Right recs pos closed (fetch, s) h e = absurd (cc e)
finish-Right recs pos closed (again, s) h e = absurd (cc e)
finish-Right recs pos closed (sleep, s) h e = absurd (cc e)
finish-Right recs pos closed (deliver_one r, s) h e = absurd (cc e)

-- After any sequence of appends, deliveries (late, out of order, or repeated), closes, and rounds of the
-- generator, what the asynchronous generator has yielded is the records of the stream from its offset
-- (from 0, if that is negative) up to `pos`, each once and in order, and the subscriber's buffer is a
-- part of the stream within its two limits.
pub subscribe-InOrder : (offset : ℤ) (t : Tail) → Reached offset t → InOrder (start_of offset) t
subscribe-InOrder offset t (joined recs closed) = (
  omega arith,
  (drop (start_of offset) recs, refl),
  (refl, (recs, refl), omega arith, omega arith),
)
subscribe-InOrder offset t (then_step t' _ reached step) =
    step-InOrder (start_of offset) step (subscribe-InOrder offset t' reached)

-- A generator that is about to return has yielded every record of its closed stream from its offset on.
pub subscribe-finish :
    (offset : ℤ) (t : Tail)
    → Reached offset t
    → (next_turn t).0 ≡ finish
    → (t.closed ≡ true) × (t.yielded ≡ drop (start_of offset) t.recs)
subscribe-finish offset t reached e =
    let h = subscribe-InOrder offset t reached in
    let end =
      finish-Right t.recs t.pos t.closed (next_turn t) (turn-Right t.recs t.pos t.closed t.sub h.2)
        e in
    (end.0, all_yielded (start_of offset) t.yielded t.recs h.1 (omega (arith, h.0, end.1)))
