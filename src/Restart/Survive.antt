-- ===== src/Restart/Survive.antt =====
-- The sessions of main in demos/restart_stream.py, one behind the other.
use durastream.Common.{
  ℕ, ◌/◌, ◌≤◌, ◌≡◌, refl, sym, ap, ◌∙◌, subst, true, ◌&&◌, Option, none, some, List, [], ◌∷◌, Bytes,
  length, ◌==◌, arith,
}
use native.Mathlib.Nat.{div-mul-le_self}
use durastream.Common.Int.{pos}
use durastream.Errors.{Result, ok, err}
use durastream.Exec.{Exec, continue, ◌>>=◌}
use durastream.Codec.{Zlib}
use durastream.Codec.Decode.{AllFit, encode}
use durastream.Stream.Defs.{Machine, next_offset}
use durastream.Stream.Write.{close_fds}
use durastream.Stream.Read.{read}
use durastream.Stream.Holds.{Holds-as, next_offset-Holds}
use durastream.Stream.Fetch.{Fetched}
use durastream.Stream.Range.{read-requested}
use durastream.Common.{zero, suc}
use durastream.Stream.Whole.{Whole, Opens}
use durastream.Disk.Laws.{NoFail}
use durastream.Codec.Decode.{Fits}
use durastream.Restart.{
  batch_size, records_from, append_range, Opening, asserting, open_log, close_store, session_end,
  first_of, sub_one, verify_all, run_sessions, main,
}
use durastream.Restart.Records.{length-records, Ends, append_range-Ends, sample_of, requested-last}
use durastream.Restart.Opened.{
  equal, both, Planned, Planned-next, before_open, open_log-Opens, opened-Calm,
}

-- the session's handle is the log's writer
abbrev pub Owned : List Opening → Type 0
Owned [] = Unit
Owned (o ∷ openings) = (o.owner ≡ true) × Owned openings

-- Nothing is in the way: there is a record to append, no call of the system fails, every session is the log's writer, and every record
-- fits into a frame.
abbrev pub Undisturbed : (ℕ → Bytes) → ℕ → List Opening → Machine → Type 0
Undisturbed record_of n openings w =
    (1 ≤ n) × (w.os ≡ []) × Owned openings × ((i : ℕ) → Fits (record_of i))

module _ ⦃z : Zlib⦄ (record_of : ℕ → Bytes) (q : Type 0) where
  -- What a run may come to.
  abbrev pub Survives : ℕ → Result (Option Bytes) × Machine → Type 0
  Survives n (ok (some r), w) =
      (p : ℕ) × (n ≡ suc p) × (r ≡ record_of p) × Whole (records_from record_of 0 n) w
  Survives n (ok none, w) = ⊥
  Survives n (err e, w) = ¬ q

module _ ⦃z : Zlib⦄ (record_of : ℕ → Bytes) (q : Type 0)
    (fits_all : q → (i : ℕ) → Fits (record_of i)) where
  -- the first of the sample
  printed :
      (n : ℕ) (sample : List Bytes) {w : Machine}
      → sample ≡ sample_of record_of n
      → (q → 1 ≤ n)
      → Whole (records_from record_of 0 n) w
      → Survives record_of q n (first_of sample w)
  printed zero [] e asked h = λ x. absurd (omega (arith, asked x))
  printed zero (r ∷ sample) e asked h = absurd (cc e)
  printed (suc p) [] e asked h = absurd (cc e)
  printed (suc p) (r ∷ sample) e asked h = (p, refl, cc e, h)

  verify_all-Survives :
      (n : ℕ) (o : Opening) (w : Machine)
      → AllFit (records_from record_of 0 n)
      → w.log.bytes ≡ encode (records_from record_of 0 n)
      → (q → w.os ≡ [])
      → (q → 1 ≤ n)
      → Survives record_of q n (verify_all n o n w)
  unfolding verify_all
  verify_all-Survives n o w fits b quiet asked =
      let (h, file) = open_log-Opens (records_from record_of 0 n) o w fits b in
      by (open_log o w) h file
    where
      by :
          (r : Result (Unit {0}) × Machine)
          → Opens (records_from record_of 0 n) (before_open o w) r
          → r.1.self.file ≡ some o.file
          → Survives record_of q n (
              continue
                (λ _. λ v.
                  asserting
                    (next_offset v.self == n && (n == n))
                    (read (sub_one n) (some (pos n)) >>= first_of)
                    v)
                r)
      by (err e, v) h file = λ x. h (quiet x)
      by (ok u, v) ((h, b), left, self, pid) file =
          subst
            (λ c.
              Survives record_of q n (asserting c (read (sub_one n) (some (pos n)) >>= first_of) v))
            (sym (
              both (next_offset v.self) n n (next_offset-Holds _ v h ∙ length-records record_of 0 n)
                refl))
            (sampled (read (sub_one n) (some (pos n)) v) (
              subst (λ l. Fetched v l (read (sub_one n) (some (pos n)) v))
                (requested-last record_of n)
                (read-requested _ v h file (sub_one n) (some (pos n)))))
        where
          sampled :
              (r : Result (List Bytes) × Machine)
              → Fetched v (sample_of record_of n) r
              → Survives record_of q n (continue first_of r)
          sampled (ok sample, x) (e, same) = printed n sample e asked (
              subst (Whole (records_from record_of 0 n)) (sym same)
                (Holds-as _ v (record v { os = x.os }) h refl refl (λ c o. (c, o)), b))
          sampled (err e, x) f = λ y. f.1 (subst NoFail (sym (left (quiet y))) tt)

  -- A session, and what follows it.
  session-Survives :
      (n produced end : ℕ) (o : Opening) (go_on : Exec Machine (Option Bytes)) (w : Machine)
      → produced ≤ end
      → AllFit (records_from record_of 0 produced)
      → w.log.bytes ≡ encode (records_from record_of 0 produced)
      → (q → (w.os ≡ []) × (o.owner ≡ true))
      → ((v : Machine)
          → AllFit (records_from record_of 0 end)
          → v.log.bytes ≡ encode (records_from record_of 0 end)
          → (q → v.os ≡ [])
          → Survives record_of q n (go_on v))
      → Survives record_of q n (
          (open_log o >>= λ _. λ v.
              asserting
                (next_offset v.self == produced)
                (append_range produced end record_of batch_size >>= λ _. close_store >>= λ _. go_on)
                v)
            w)
  session-Survives n produced end o go_on w le fits b quiet others =
      opened (open_log o w) (open_log-Opens (records_from record_of 0 produced) o w fits b).0
    where
      added :
          (r : Result (Unit {0}) × Machine)
          → Ends record_of q fits_all (records_from record_of 0 end) r
          → Survives record_of q n (continue (λ _. close_store >>= λ _. go_on) r)
      added (ok u, v) ((h, d), c) =
          others (record v { self = close_fds v.self }) h.fit d (λ x. (c x).0)
      added (err e, v) h = h

      opened :
          (r : Result (Unit {0}) × Machine)
          → Opens (records_from record_of 0 produced) (before_open o w) r
          → Survives record_of q n (
              continue
                (λ _. λ v.
                  asserting
                    (next_offset v.self == produced)
                    (append_range produced end record_of batch_size >>= λ _.
                      close_store >>= λ _. go_on)
                    v)
                r)
      opened (err e, v) h = λ x. h (quiet x).0
      opened (ok u, v) (h, left, self, pid) =
          subst
            (λ c. Survives record_of q n (
              asserting c
                (append_range produced end record_of batch_size >>= λ _. close_store >>= λ _. go_on)
                v))
            (sym (
              equal (next_offset v.self) produced
                (next_offset-Holds _ v h.0 ∙ length-records record_of 0 produced)))
            (added (append_range produced end record_of batch_size v) (
              append_range-Ends record_of q fits_all produced end v le h
                (λ x. opened-Calm o w v _ (left (quiet x).0) (quiet x).1 self pid)))

  run_sessions-Survives :
      (n per_session : ℕ) (last : Opening) (openings : List Opening) (produced : ℕ) (w : Machine)
      → Planned n per_session produced openings
      → AllFit (records_from record_of 0 produced)
      → w.log.bytes ≡ encode (records_from record_of 0 produced)
      → (q → (w.os ≡ []) × Owned openings)
      → (q → 1 ≤ n)
      → Survives record_of q n (run_sessions record_of n per_session last openings produced w)
  unfolding run_sessions
  run_sessions-Survives n per_session last [] produced w plan fits b quiet asked =
      subst (λ k. Survives record_of q n (verify_all n last k w)) (sym plan)
        (verify_all-Survives n last w (subst (λ k. AllFit (records_from record_of 0 k)) plan fits)
          (b ∙ ap (λ k. encode (records_from record_of 0 k)) plan) (λ x. (quiet x).0) asked)
  run_sessions-Survives n per_session last (o ∷ openings) produced w plan fits b quiet asked =
      let (le, next) = Planned-next n per_session produced o openings plan in
      session-Survives n produced (session_end n per_session produced openings) o
        (run_sessions record_of n per_session last openings
          (session_end n per_session produced openings))
        w le fits b (λ x. ((quiet x).0, ((quiet x).1).0))
        (λ v f d calm.
          run_sessions-Survives n per_session last openings _ v next f d
            (λ x. (calm x, ((quiet x).1).1)) asked)

-- Let main append `n` records to a log that is empty, in one session or more, whoever the log's writer is
-- in each, and whatever the system answers. Then no assertion fails: each session finds as many records as
-- have been appended before it. Where main returns, the log is the `n` records and nothing behind them, `n`
-- is not 0, and what was read at the end is the last of them. It returns where `n` is not 0, no call of the
-- system fails, every session is the log's writer, and every record fits into a frame.
pub main-Survives :
    ⦃z : Zlib⦄
    → (record_of : ℕ → Bytes) (n : ℕ) (o : Opening) (openings : List Opening) (last : Opening)
      (w : Machine)
    → w.log.bytes ≡ []
    → Survives record_of
        (Undisturbed record_of n (o ∷ openings) w)
        n
        (main record_of n (o ∷ openings) last w)
unfolding main
main-Survives record_of n o openings last w e =
    run_sessions-Survives record_of (Undisturbed record_of n (o ∷ openings) w) (λ u. u.3) n
      (n / length (o ∷ openings)) last (o ∷ openings) 0 w
      (omega (arith, div-mul-le_self n (length (o ∷ openings)))) tt e (λ u. (u.1, u.2)) (λ u. u.0)
