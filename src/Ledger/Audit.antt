-- ===== src/Ledger/Audit.antt =====
-- What the log of the account holds once all events are appended, and what is rebuilt from it.
use durastream.Common.{
  ℕ, zero, suc, ◌+◌, ◌-◌, ◌/◌, ◌≤◌, ◌<◌, ◌≡◌, refl, sym, ap, ◌∙◌, subst, false, Option, none, some,
  List, [], ◌∷◌, ◌++◌, Bytes, length, take, min, ◌==◌, ==_iff, if-true, if-false, Bool-cases, inl,
  inr, arith, append_assoc, append-nil, take-of_le,
}
use durastream.Common.Int.{ℤ, pos}
use durastream.Errors.{Result, ok, err}
use durastream.Exec.{Exec, continue, pure}
use durastream.Disk.Laws.{NoFail}
use durastream.Codec.{Zlib}
use durastream.Stream.Defs.{Machine}
use durastream.Stream.Write.{append_many}
use durastream.Stream.Read.{read}
use durastream.Stream.Holds.{Holds}
use durastream.Stream.Append.{Appended, append_many-Appended}
use durastream.Stream.Fetch.{Fetched}
use durastream.Stream.Range.{requested, read-requested}
use durastream.Ledger.{
  Event, event, apply, replay, Ledger, append_batch, if_full, enter_event, append_events,
  append_rest, ingest, batch_size, rebuild,
}
use durastream.Ledger.Balance.{
  balance, entries, Within, balance-Within, replay-entries, length-entries, take-entries,
}

module _ ⦃z : Zlib⦄ (jdump : Event → Bytes) where
  -- After `i` events: the records of all of them are in the stream or in the batch, and the balances are
  -- those of that many events.
  pub record Kept (mid i : ℕ) (l : Ledger) : Type 0 where
    pub recs : List Bytes
    pub holds : Holds recs l.acct
    pub all : recs ++ l.batch ≡ entries jdump i
    pub live : l.live ≡ balance i
    pub middle : 0 < mid → mid ≤ i → l.mid_balance ≡ balance mid

  -- The stream holds the first records of the first `n` events.
  abbrev pub Part : ℕ → Machine → Type 0
  Part n w =
      (recs : List Bytes) × (rest : List Bytes) × Holds recs w
      × ((i : ℕ) × (i ≤ n) × (recs ++ rest ≡ entries jdump i))

  -- What is left by the events up to number `i`, of `n`: `Q`, or the first of the records.
  abbrev pub After : (Ledger → Type 0) → ℕ → Result (Unit {0}) × Ledger → Type 0
  After Q n (ok a, l) = Q l
  After Q n (err e, l) = Part n l.acct

  continue-After :
      (Q P : Ledger → Type 0) (n : ℕ) (f : Exec Ledger (Unit {0})) (r : Result (Unit {0}) × Ledger)
      → After Q n r
      → ((l : Ledger) → Q l → After P n (f l))
      → After P n (continue (λ _. f) r)
  continue-After Q P n f (ok a, l) h k = k l h
  continue-After Q P n f (err e, l) h k = h

  abbrev Emptied : ℕ → ℕ → Ledger → Type 0
  Emptied mid i l = Kept mid i l × (l.batch ≡ [])

  append_batch-After :
      (mid n i : ℕ) (l : Ledger) → i ≤ n → Kept mid i l → After (Emptied mid i) n (append_batch l)
  append_batch-After mid n i l le h =
      by (append_many l.batch l.acct) (append_many-Appended h.recs l.batch l.acct h.holds)
    where
      by :
          (r : Result ℕ × Machine)
          → Appended h.recs l.batch r
          → After
              (Emptied mid i)
              n
              (continue (λ _. λ k. (ok tt, record k { batch = [] })) (r.0, record l { acct = r.1 }))
      by (ok m, w) (q, holds, d) = (
        record {
          recs = h.recs ++ l.batch;
          holds = holds;
          all = append-nil (h.recs ++ l.batch) ∙ h.all;
          live = h.live;
          middle = h.middle;
        },
        refl,
      )
      by (err e, w) holds = (h.recs, l.batch, holds, (i, le, h.all))

  if_full-After :
      (mid n i : ℕ) (l : Ledger) → i ≤ n → Kept mid i l → After (Kept mid i) n (if_full l)
  if_full-After mid n i l le h = elim (Bool-cases (length l.batch == batch_size)) [
    | inl a ↦
        subst (After (Kept mid i) n) (sym (if-true _ _ a))
          (weaker (append_batch l) (append_batch-After mid n i l le h))
    | inr a ↦ subst (After (Kept mid i) n) (sym (if-false _ _ a)) h
  ]
    where
      weaker : (r : Result (Unit {0}) × Ledger) → After (Emptied mid i) n r → After (Kept mid i) n r
      weaker (ok a, k) q = q.0
      weaker (err e, k) q = q

  enter_event-Kept :
      (mid i : ℕ) (l : Ledger) → Kept mid i l → Kept mid (suc i) (enter_event jdump mid i l)
  unfolding entries balance
  enter_event-Kept mid i l h = record {
    recs = h.recs;
    holds = h.holds;
    all =
        sym (append_assoc h.recs l.batch (jdump (event i l.live) ∷ []))
        ∙ ap (λ t. t ++ jdump (event i l.live) ∷ []) h.all
        ∙ ap (λ b. entries jdump i ++ jdump (event i b) ∷ []) h.live;
    live = ap (λ b. apply b (event i b)) h.live;
    middle = λ some_events le. elim (Bool-cases (suc i == mid)) [
      | inl a ↦
          if-true _ _ a
          ∙ ap (λ b. apply b (event i b)) h.live
          ∙ ap balance ((==_iff (suc i) mid).0 a)
      | inr a ↦ if-false _ _ a ∙ h.middle some_events (before a le)
    ];
  }
    where
      before : (suc i == mid) ≡ false → mid ≤ suc i → mid ≤ i
      before a le = ground (arith, a, le)

  append_events-After :
      (mid n i k : ℕ) (l : Ledger)
      → i + k ≡ n
      → Kept mid i l
      → After (Kept mid n) n (append_events jdump mid k i l)
  unfolding append_events
  append_events-After mid n i zero l e h = subst (λ m. Kept mid m l) (omega (arith, e)) h
  append_events-After mid n i (suc k) l e h =
      continue-After (Kept mid (suc i)) (Kept mid n) n (append_events jdump mid k (suc i)) _
        (if_full-After mid n (suc i) (enter_event jdump mid i l) (omega (arith, e))
          (enter_event-Kept mid i l h))
        (λ x q. append_events-After mid n (suc i) k x (omega (arith, e)) q)

  append_rest-After :
      (mid n : ℕ) (batch : List Bytes) (l : Ledger)
      → l.batch ≡ batch
      → Kept mid n l
      → After (Emptied mid n) n (append_rest batch l)
  append_rest-After mid n [] l e h = (h, e)
  append_rest-After mid n (r ∷ batch) l e h = append_batch-After mid n n l (omega arith) h

  -- All events are appended, and their records are the stream's.
  abbrev pub Ingested : ℕ → Ledger → Type 0
  Ingested n l =
      Holds (entries jdump n) l.acct
      × (l.live ≡ balance n)
      × (0 < n / 2 → l.mid_balance ≡ balance (n / 2))

  ingest-After :
      (n : ℕ) (l : Ledger)
      → Holds [] l.acct
      → l.live ≡ pos 0
      → l.batch ≡ []
      → After (Ingested n) n (ingest jdump n l)
  unfolding ingest
  ingest-After n l holds live empty =
      continue-After (Kept (n / 2) n) (Ingested n) n (λ k. append_rest k.batch k) _
        (append_events-After (n / 2) n 0 n l (omega arith) started)
        (λ k h. ended (append_rest k.batch k) (append_rest-After (n / 2) n k.batch k refl h))
    where
      started : Kept (n / 2) 0 l
      started =
          unfold entries balance in
          record {
            recs = [];
            holds = holds;
            all = empty;
            live = live;
            middle = λ some_events le. absurd (omega (arith, some_events, le));
          }

      ended :
          (r : Result (Unit {0}) × Ledger) → After (Emptied (n / 2) n) n r → After (Ingested n) n r
      ended (ok a, k) (h, none_left) = (
        subst (λ m. Holds m k.acct)
            (sym (append-nil h.recs) ∙ ap (λ b. h.recs ++ b) (sym none_left) ∙ h.all) h.holds,
        h.live,
        λ some_events. h.middle some_events (omega arith),
      )
      ended (err e, k) h = h

  -- A balance that is rebuilt, or a system call that failed.
  abbrev pub Rebuilt : ℤ → Machine → Result ℤ × Machine → Type 0
  Rebuilt expected w (ok b, v) = b ≡ expected
  Rebuilt expected w (err e, v) = ¬ NoFail w.os

  Fetched-Rebuilt :
      (loads : Bytes → Event)
      → ((ev : Event) → loads (jdump ev) ≡ ev)
      → (m : ℕ) (v : Machine) (r : Result (List Bytes) × Machine) → Fetched v (entries jdump m) r
      → Rebuilt (balance m) v (continue (λ records. pure (replay loads (pos 0) records)) r)
  Fetched-Rebuilt loads law m v (ok records, w) (e, k) =
      ap (replay loads (pos 0)) e ∙ replay-entries loads jdump law m
  Fetched-Rebuilt loads law m v (err x, w) (e, failed, k) = failed

  module _ (loads : Bytes → Event) where
    -- the balance of all events, and of the first half, against what `v` reads
    abbrev pub Audited : ℕ → Machine → Result (Unit {0}) × Ledger → Type 0
    Audited n v (ok a, l) =
        Within n l.live
        × Holds (entries jdump n) l.acct
        × Rebuilt l.live v (rebuild loads none v)
        × Rebuilt l.mid_balance v (rebuild loads (some (pos (n / 2))) v)
    Audited n v (err e, l) = Part n l.acct

    -- Let what is dumped be loaded again, let `v` be a handle that has its file open and holds the records of
    -- the first `n` events, two or more, and let the account start empty, at balance 0. If all `n` events are
    -- appended, then the balance is not negative and at most 99 an event, the stream holds the records, and
    -- what `v` rebuilds from all records, and from the first half of them, are the balance and the middle
    -- balance, or a system call of the read failed; if an append fails, the stream holds the first of the
    -- records.
    pub ingest-Audited :
        ((ev : Event) → loads (jdump ev) ≡ ev)
        → (n : ℕ) (l : Ledger) (v : Machine) {fd : ℕ} → 1 < n
        → Holds [] l.acct
        → l.live ≡ pos 0
        → l.batch ≡ []
        → Holds (entries jdump n) v
        → v.self.file ≡ some fd
        → Audited n v (ingest jdump n l)
    unfolding rebuild
    ingest-Audited law n l v {fd} two holds live empty reopened file =
        by (ingest jdump n l) (ingest-After n l holds live empty)
      where
        reads :
            (end : Option ℤ) (m : ℕ)
            → requested (entries jdump n) (pos 0) end ≡ entries jdump m
            → Rebuilt
                (balance m)
                v
                (continue (λ records. pure (replay loads (pos 0) records)) (read (pos 0) end v))
        reads end m e = Fetched-Rebuilt loads law m v (read (pos 0) end v) (
            subst (λ rs. Fetched v rs (read (pos 0) end v)) e
              (read-requested (entries jdump n) v reopened file (pos 0) end))

        half : requested (entries jdump n) (pos 0) (some (pos (n / 2))) ≡ entries jdump (n / 2)
        half =
            let k : min (n / 2) (length (entries jdump n)) - 0 ≡ n / 2 =
              omega (arith, length-entries jdump n) in
            ap (λ m. take m (entries jdump n)) k ∙ take-entries jdump (n / 2) n (omega arith)

        by : (r : Result (Unit {0}) × Ledger) → After (Ingested n) n r → Audited n v r
        by (ok a, k) (kept, at, mid) = (
          subst (Within n) (sym at) (balance-Within n),
          kept,
          subst (λ b. Rebuilt b v (rebuild loads none v)) (sym at)
              (reads none n
                (take-of_le (length (entries jdump n) - 0) (entries jdump n) (omega arith))),
          subst (λ b. Rebuilt b v (rebuild loads (some (pos (n / 2))) v))
              (sym (mid (omega (arith, two)))) (reads (some (pos (n / 2))) (n / 2) half),
        )
        by (err e, k) h = h
