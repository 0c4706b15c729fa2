-- ===== src/Stream/History/Acked.antt =====
-- The batches whose appends have returned, over the steps of a log's life.
use durastream.Common.{
  ℕ, ◌+◌, ◌-◌, ◌≤◌, ◌≡◌, refl, sym, ap, ◌∙◌, subst, true, false, List, [], ◌∷◌, ◌++◌, append_assoc,
  append-nil, Bytes, length, length-append, take, drop-append, take-append, arith, some, min,
}
use durastream.Common.Int.{pos}
use durastream.Errors.{Result, ok, err}
use durastream.Codec.{Zlib}
use durastream.Codec.Decode.{AllFit, encode, decode, decode-encode}
use durastream.Codec.Sound.{AreBytes}
use durastream.Stream.Defs.{Machine, recover}
use durastream.Stream.Write.{append_many, close, close_fds}
use durastream.Stream.Read.{read}
use durastream.Stream.Holds.{Holds-as, log_end-Holds}
use durastream.Stream.Append.{Appended, append_many-Appended}
use durastream.Stream.Recover.{Recovered, recover-Recovered}
use durastream.Stream.Close.{Closed, close-Closed}
use durastream.Stream.Firm.{Starts-append, Firm, FirmIn, append_many-Firm}
use durastream.Stream.Fetch.{Fetched}
use durastream.Stream.Range.{requested, read-requested}
use durastream.Stream.History.{
  Acks, acknowledge, Life, is_ok, fresh, reopen, Step, appended, closed, released, ended, crashed,
  opened, answers, Reached, found, then_step,
}
use durastream.Stream.History.Safe.{
  Part, Parts, Part-grow, Parts-grow, Parts-snoc, Parts-at, HasFirst, Safe, encode-le, recover-Firm,
}

module _ ⦃z : Zlib⦄ where
  HasFirst-as :
      (p : List Bytes) (w v : Machine)
      → HasFirst p w
      → v.self.index ≡ w.self.index
      → v.log ≡ w.log
      → (v.self.closed ≡ false
          → v.self.owner ≡ true
          → (w.self.closed ≡ false) × (w.self.owner ≡ true))
      → HasFirst p v
  HasFirst-as p w v (rs, h, t) i l k = (rs, Holds-as rs w v h i l k, t)

  -- an append, by its result
  append_many-Safe :
      (p : List Bytes) (l : Life)
      → Safe p l
      → (rs t : List Bytes) → rs ≡ p ++ t
      → (payloads : List Bytes) (r : Result ℕ × Machine) → Appended rs payloads r
      → FirmIn (encode p) r
      → (q : List Bytes) × Safe q
          (record { w = r.1; up = l.up; acked = acknowledge payloads r.0 l.acked })
  append_many-Safe p l s rs t e payloads (err x, v) h f =
      (p, record { fit = s.fit; firm = f; parts = s.parts; has = λ u. (rs, h, (t, e)) })
  append_many-Safe p l s rs t e [] (ok n, v) h f = (
    p,
    record {
      fit = s.fit;
      firm = f;
      parts = s.parts;
      has = λ u. (rs ++ [], h.1, (t ++ [], ap (λ r. r ++ []) e ∙ append_assoc p t []));
    },
  )
  append_many-Safe p l s rs t e (q ∷ payloads) (ok n, v) (count, h, durable) f = (
    rs ++ q ∷ payloads,
    record {
      fit = h.fit;
      firm = ((h.tail, h.bytes), ([], durable (λ c. cc) ∙ sym (append-nil _)));
      parts =
          Parts-snoc (rs ++ q ∷ payloads) l.acked (n - length (q ∷ payloads), q ∷ payloads)
            (Parts-grow rs (q ∷ payloads) l.acked
              (subst (λ r. Parts r l.acked) (sym e) (Parts-grow p t l.acked s.parts)))
            (rs, [], ap (λ r. rs ++ r) (sym (append-nil (q ∷ payloads))), omega (arith, count));
      has = λ u. (rs ++ q ∷ payloads, h, ([], sym (append-nil _)));
    },
  )

  close-Safe :
      (p : List Bytes) (l : Life)
      → Safe p l
      → (r : Result (Unit {0}) × Machine) → Closed l.w r
      → Safe p (record l { w = r.1 })
  close-Safe p l s (ok u, v) (o, self, db, log, calls) = record {
    fit = s.fit;
    firm = subst (Firm (encode p)) (sym log) s.firm;
    parts = s.parts;
    has = λ up.
        HasFirst-as p l.w v (s.has up) (ap (λ x. x.index) self) log
          (λ c. absurd (cc (ap (λ x. x.closed) self, c)));
  }
  close-Safe p l s (err e, v) (self, db, log, calls) = record {
    fit = s.fit;
    firm = subst (Firm (encode p)) (sym log) s.firm;
    parts = s.parts;
    has = λ up.
        HasFirst-as p l.w v (s.has up) (ap (λ x. x.index) self) log
          (λ c o. (sym (ap (λ x. x.closed) self) ∙ c, sym (ap (λ x. x.owner) self) ∙ o));
  }

  recover-Safe :
      (p : List Bytes) (v : Machine) (acked : Acks)
      → AllFit p
      → Firm (encode p) v.log
      → Parts p acked
      → AreBytes v.log.bytes
      → Safe p (reopen v acked)
  recover-Safe p v acked fit firm parts b = record {
    fit = fit;
    firm = recover-Firm p v fit firm;
    parts = parts;
    has = by (recover v) (recover-Recovered v b);
  }
    where
      by : (r : Result (Unit {0}) × Machine) → Recovered v r → is_ok r.0 ≡ true → HasFirst p r.1
      by (ok u, x) h e = (
        decode v.log.bytes,
        h.0,
        (decode (firm.0).0, ap decode (firm.0).1 ∙ decode-encode p (firm.0).0 fit),
      )
      by (err y, x) h e = absurd (cc e)

  step-Safe : {l m : Life} → Step l m → (p : List Bytes) → Safe p l → (q : List Bytes) × Safe q m
  unfolding close_fds
  step-Safe (appended payloads l up) p s =
      let (rs, h, (t, e)) = s.has up in
      append_many-Safe p l s rs t e payloads (append_many payloads l.w)
        (append_many-Appended rs payloads l.w h)
        (append_many-Firm (encode p) payloads l.w
          (omega (
            arith,
            log_end-Holds rs l.w h,
            subst (λ r. length (encode p) ≤ length (encode r)) (sym e) (encode-le p t),
          ))
          s.firm)
  step-Safe (closed l) p s = (p, close-Safe p l s (close l.w) (close-Closed l.w))
  step-Safe (released l) p s = (
    p,
    record {
      fit = s.fit;
      firm = s.firm;
      parts = s.parts;
      has = λ up.
          HasFirst-as p l.w (record l.w { self = close_fds l.w.self }) (s.has up) refl refl
            (λ c. absurd (cc c));
    },
  )
  step-Safe (ended l) p s =
      (p, record { fit = s.fit; firm = s.firm; parts = s.parts; has = λ up. absurd (cc up) })
  step-Safe (crashed junk l) p s = (
    p,
    record {
      fit = s.fit;
      firm = (Starts-append (encode p) l.w.log.durable junk s.firm.1, s.firm.1);
      parts = s.parts;
      has = λ up. absurd (cc up);
    },
  )
  step-Safe (opened name path content_type was_closed fd owner pid os l b) p s = (
    p,
    recover-Safe p (fresh name path content_type was_closed fd owner pid os l.w) l.acked s.fit
        s.firm s.parts b,
  )
  step-Safe (answers os l) p s = (
    p,
    record {
      fit = s.fit;
      firm = s.firm;
      parts = s.parts;
      has = λ up. HasFirst-as p l.w (record l.w { os = os }) (s.has up) refl refl (λ c o. (c, o));
    },
  )

  Reached-Safe : {l : Life} → Reached l → (p : List Bytes) × Safe p l
  Reached-Safe (found w) = (
    [],
    record {
      fit = tt;
      firm = ((w.log.bytes, refl), (w.log.durable, refl));
      parts = tt;
      has = λ up. absurd (cc up);
    },
  )
  Reached-Safe (then_step l m reached step) =
      let (p, s) = Reached-Safe reached in step-Safe step p s

  Part-requested :
      (rs : List Bytes) (k : ℕ) (ps : List Bytes)
      → Part rs (k, ps)
      → requested rs (pos k) (some (pos (k + length ps))) ≡ ps
  Part-requested rs k ps (a, b, e, l) =
      subst (λ r. requested r (pos k) (some (pos (k + length ps))) ≡ ps) (sym e)
        (ap (take (min (k + length ps) (length (a ++ (ps ++ b))) - k)) (drop-append k a (ps ++ b) l)
          ∙ take-append (min (k + length ps) (length (a ++ (ps ++ b))) - k) ps b
              (omega (arith, l, length-append a (ps ++ b), length-append ps b)))

  -- Let a log be opened, appended to, closed, left by its processes, and crashed with anything behind
  -- what was durable, any number of times in any order, with whatever the system answers. If an append
  -- of a batch that is not empty ever returned, and the object that has opened the log last has its file
  -- too, then it reads that batch back, at the offsets that the append gave it; or a system call of the
  -- read failed.
  pub acked-kept :
      (l : Life)
      → Reached l
      → l.up ≡ true
      → (before after : Acks) (k : ℕ) (ps : List Bytes) → l.acked ≡ before ++ (k, ps) ∷ after
      → {fd : ℕ} → l.w.self.file ≡ some fd
      → Fetched l.w ps (read (pos k) (some (pos (k + length ps))) l.w)
  acked-kept l reached up before after k ps e file =
      let (p, s) = Reached-Safe reached in
      let (rs, h, (t, g)) = s.has up in
      let part : Part rs (k, ps) =
        subst (λ r. Part r (k, ps)) (sym g)
          (Part-grow p t (k, ps) (Parts-at p before (k, ps) after (subst (Parts p) e s.parts))) in
      subst (λ q. Fetched l.w q (read (pos k) (some (pos (k + length ps))) l.w))
        (Part-requested rs k ps part)
        (read-requested rs l.w h file (pos k) (some (pos (k + length ps))))
