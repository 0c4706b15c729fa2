-- ===== src/Sub/Asleep.antt =====
-- A subscriber with its deliveries: each append and each close sends one (`_Hub._on_change`), the event loop
-- takes them up in some order (`_Hub._deliver`), and the generator sleeps until its event is set.
use durastream.Common.{
  ℕ, ◌≤◌, ◌≡◌, refl, sym, ◌∙◌, subst, Bool, true, false, List, [], ◌∷◌, ◌++◌, Bytes, length, drop,
  append-nil, drop-append, dec_lt, length-append, arith,
}
use durastream.Common.Int.{ℤ}
use durastream.Sub.{Sub, new_sub, Turn, fetch, again, finish, deliver_one, sleep, deliver}
use durastream.Sub.View.{Slice, Slice-grow}
use durastream.Sub.Wake.{
  Flight, Covered, Seen, end_of, Rests, deliver-Seen, turn-Turned, Covered-append, Covered-last,
}
use durastream.Sub.InOrder
use durastream.Sub.InOrder.{
  Tail, next_turn, advance, fetched, start_of, subscribe-InOrder, all_yielded,
}

pub record Live : Type 0 where
  pub tail : Tail
  pub flights : List Flight
  pub asleep : Bool

abbrev pub goes_to_sleep : Turn → Bool
goes_to_sleep sleep = true
goes_to_sleep _ = false

abbrev pub with_tail : Tail → Live → Live
with_tail t l = record l { tail = t }

unfoldable pub round : Live → Live
round l = record l {
  tail = advance l.tail (next_turn l.tail);
  asleep = goes_to_sleep (next_turn l.tail).0;
}

pub data Step : Live → Live → Type 0 where
  append :
      (l : Live) (new : List Bytes)
      → Step l (record l {
        tail = record l.tail { recs = l.tail.recs ++ new };
        flights = l.flights ++ (length l.tail.recs, new) ∷ [];
      })
  close :
      (l : Live)
      → Step l (record l {
        tail = record l.tail { closed = true };
        flights = l.flights ++ (length l.tail.recs, []) ∷ [];
      })
  arrive :
      (l : Live) (start : ℕ) (records : List Bytes) (before after : List Flight)
      → l.flights ≡ before ++ (start, records) ∷ after
      → Step l (record l {
        tail = record l.tail { sub = deliver start records l.tail.sub };
        flights = before ++ after;
      })
  go_around : (l : Live) → l.tail.fetching ≡ false → l.asleep ≡ false → Step l (round l)
  read_done : (l : Live) → l.tail.fetching ≡ true → Step l (with_tail (fetched l.tail) l)
  wake : (l : Live) → l.tail.sub.event ≡ true → Step l (record l { asleep = false })

pub data Reached (offset : ℤ) : Live → Type 0 where
  joined :
      (recs : List Bytes) (closed : Bool)
      → Reached offset (record {
        tail = record {
          recs = recs;
          closed = closed;
          sub = new_sub;
          pos = start_of offset;
          fetching = false;
          yielded = [];
        };
        flights = [];
        asleep = false;
      })
  then_step : (l m : Live) → Reached offset l → Step l m → Reached offset m

-- What is under way is a part of the stream.
abbrev AreSlices : List Bytes → List Flight → Type 0
AreSlices recs [] = Unit {0}
AreSlices recs ((k, rs) ∷ fl) = Slice k rs recs × AreSlices recs fl

-- A generator that sleeps and whose event is not set has nothing that it could yield, unless it is
-- under way; nor is its stream closed, unless that is.
abbrev Quiet : Live → Type 0
Quiet l =
    l.asleep ≡ true
    → l.tail.sub.event ≡ false
    → (l.tail.sub.stale ≡ false)
      × (end_of l.tail.sub ≤ l.tail.pos)
      × (l.flights ≡ [] → l.tail.closed ≡ false)

record Inv (l : Live) : Type 0 where
  slices : AreSlices l.tail.recs l.flights
  seen : Seen (length l.tail.recs) l.flights l.tail.sub
  quiet : Quiet l

AreSlices-grow :
    (recs new : List Bytes) (fl : List Flight) → AreSlices recs fl → AreSlices (recs ++ new) fl
AreSlices-grow recs new [] a = tt
AreSlices-grow recs new ((k, rs) ∷ fl) a =
    (Slice-grow k rs recs new a.0, AreSlices-grow recs new fl a.1)

AreSlices-last :
    (recs rs : List Bytes) (k : ℕ) (fl : List Flight)
    → AreSlices recs fl
    → Slice k rs recs
    → AreSlices recs (fl ++ (k, rs) ∷ [])
AreSlices-last recs rs k [] a s = (s, tt)
AreSlices-last recs rs k (x ∷ fl) a s = (a.0, AreSlices-last recs rs k fl a.1 s)

AreSlices-split :
    (recs rs : List Bytes) (k : ℕ) (before after : List Flight)
    → AreSlices recs (before ++ (k, rs) ∷ after)
    → Slice k rs recs × AreSlices recs (before ++ after)
AreSlices-split recs rs k [] after a = (a.0, a.1)
AreSlices-split recs rs k (x ∷ before) after a =
    let h = AreSlices-split recs rs k before after a.1 in (h.0, (a.0, h.1))

Slice-end : (recs new : List Bytes) → Slice (length recs) new (recs ++ new)
Slice-end recs new = ([], append-nil new ∙ sym (drop-append (length recs) recs new refl))

not_empty : {A : Type 0} (xs ys : List A) (x : A) → ¬ (xs ++ x ∷ ys ≡ [])
not_empty [] ys x e = cc e
not_empty (y ∷ xs) ys x e = cc e

moved :
    (l : Live) (r : Turn × Sub)
    → AreSlices l.tail.recs l.flights
    → Seen (length l.tail.recs) l.flights r.1 × Rests l.tail.pos l.tail.closed r
    → Inv (record l { tail = advance l.tail r; asleep = goes_to_sleep r.0 })
unfolding advance
moved l (fetch, s) a h = record { slices = a; seen = h.0; quiet = λ q. absurd (cc q) }
moved l (again, s) a h = record { slices = a; seen = h.0; quiet = λ q. absurd (cc q) }
moved l (finish, s) a h = record { slices = a; seen = h.0; quiet = λ q. absurd (cc q) }
moved l (deliver_one r, s) a h = record { slices = a; seen = h.0; quiet = λ q. absurd (cc q) }
moved l (sleep, s) a h = record {
  slices = a;
  seen = h.0;
  quiet = λ q e. (h.1.0, h.1.1, λ n. h.1.2);
}

step-Inv : {l m : Live} → Step l m → Inv l → Inv m
unfolding round deliver advance fetched
step-Inv (append l new) h = record {
  slices =
      AreSlices-last _ new (length l.tail.recs) l.flights
        (AreSlices-grow l.tail.recs new l.flights h.slices) (Slice-end l.tail.recs new);
  seen = λ f i ge lt. elim (dec_lt i (length l.tail.recs)) [
    | yes old ↦ Covered-append i l.flights _ (h.seen f i ge old)
    | no fresh ↦
        Covered-last i (length l.tail.recs) new l.flights (omega (arith, fresh))
          (omega (arith, lt, length-append l.tail.recs new))
  ];
  quiet = λ a e. let q = h.quiet a e in (q.0, q.1, λ n. absurd (not_empty l.flights [] _ n));
}
step-Inv (close l) h = record {
  slices =
      AreSlices-last _ [] (length l.tail.recs) l.flights h.slices
        (drop (length l.tail.recs) l.tail.recs, refl);
  seen = λ f i ge lt. Covered-append i l.flights _ (h.seen f i ge lt);
  quiet = λ a e. let q = h.quiet a e in (q.0, q.1, λ n. absurd (not_empty l.flights [] _ n));
}
step-Inv (arrive l start records before after eq) h = record {
  slices =
      (AreSlices-split l.tail.recs records start before after
        (subst (AreSlices l.tail.recs) eq h.slices)).1;
  seen =
      deliver-Seen _ start records before after l.tail.sub
        (subst (λ fl. Seen (length l.tail.recs) fl l.tail.sub) eq h.seen);
  quiet = λ a e. absurd (cc e);
}
step-Inv (go_around l f awake) h =
    moved l (next_turn l.tail) h.slices
      (turn-Turned (length l.tail.recs) l.flights l.tail.pos l.tail.closed l.tail.sub h.seen)
step-Inv (read_done l f) h = record {
  slices = h.slices;
  seen = h.seen;
  quiet = λ a e. let q = h.quiet a e in (q.0, omega (arith, q.1), q.2);
}
step-Inv (wake l e) h = record { slices = h.slices; seen = h.seen; quiet = λ a. absurd (cc a) }

Reached-Inv : {offset : ℤ} {l : Live} → Reached offset l → Inv l
Reached-Inv (joined recs closed) = record {
  slices = tt;
  seen = λ f. absurd (cc f);
  quiet = λ a. absurd (cc a);
}
Reached-Inv (then_step l m reached step) = step-Inv step (Reached-Inv reached)

-- The generator and the stream do not see the deliveries under way.
step-tail :
    {offset : ℤ} {l m : Live}
    → Step l m
    → Inv l
    → InOrder.Reached offset l.tail
    → InOrder.Reached offset m.tail
unfolding round
step-tail (append l new) h r = InOrder.then_step _ _ r (InOrder.append l.tail new)
step-tail (close l) h r = InOrder.then_step _ _ r (InOrder.close l.tail)
step-tail (arrive l start records before after eq) h r = InOrder.then_step _ _ r (
    InOrder.call l.tail start records
      (AreSlices-split l.tail.recs records start before after
        (subst (AreSlices l.tail.recs) eq h.slices)).0)
step-tail (go_around l f awake) h r = InOrder.then_step _ _ r (InOrder.go_around l.tail f)
step-tail (read_done l f) h r = InOrder.then_step _ _ r (InOrder.read_done l.tail f)
step-tail (wake l e) h r = r

tail-Reached : {offset : ℤ} {l : Live} → Reached offset l → InOrder.Reached offset l.tail
tail-Reached (joined recs closed) = InOrder.joined recs closed
tail-Reached (then_step l m reached step) =
    step-tail step (Reached-Inv reached) (tail-Reached reached)

-- No record and no close is slept through: a generator that sleeps, with its event not set and no
-- delivery under way to it, has yielded every record of its stream from its offset on (from 0, if that
-- is negative), each once and in order, and the stream is not closed.
pub subscribe-drained :
    (offset : ℤ) (l : Live)
    → Reached offset l
    → l.asleep ≡ true
    → l.tail.sub.event ≡ false
    → l.flights ≡ []
    → (l.tail.closed ≡ false) × (l.tail.yielded ≡ drop (start_of offset) l.tail.recs)
subscribe-drained offset l reached a e none_left =
    let h = Reached-Inv reached in
    let q = h.quiet a e in
    let o = subscribe-InOrder offset l.tail (tail-Reached reached) in
    (
      q.2 none_left,
      all_yielded (start_of offset) l.tail.yielded l.tail.recs o.1
          (elim (dec_lt l.tail.pos (length l.tail.recs)) [
            | yes more ↦
                absurd (subst (Covered l.tail.pos) none_left (h.seen q.0 l.tail.pos q.1 more))
            | no end ↦ omega (arith, end, o.0)
          ]),
    )
