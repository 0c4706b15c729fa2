-- ===== src/Stream/Recover.antt =====
-- `_recover`: what a stream holds once its log has been opened, and what a crash leaves of it.
use durastream.Common.{
  ℕ, ◌≡◌, refl, sym, ap, ◌∙◌, subst, true, false, not, ◌&&◌, List, [], ◌∷◌, ◌++◌, append-nil, Bytes,
  length, last_or, arith, Bool-cases, inl, inr, if-true, if-false, length-append, take-of_le, ◌==◌,
  ==_iff,
}
use native.Mathlib.Nat.{zero-add}
use durastream.Errors.{Result, ok, err}
use durastream.Exec.{continue, ◌>>◌}
use durastream.Disk.{Answer, done, fail, short, Disk, fsync, ftruncate, cut}
use durastream.Disk.Laws.{
  NoFail, RolledBack, rolled_back, not_cut, not_synced, ftruncate-fsync-RolledBack,
  ftruncate-fsync-NoFail, cut-append,
}
use durastream.Codec.{Zlib}
use durastream.Codec.Decode.{ends, encode, decode}
use durastream.Codec.Sound.{AreBytes, encode-decode, decode-AllFit}
use durastream.Scan.{scan, scan-eq}
use durastream.Stream.Defs.{
  Machine, on_disk, answer_open, open_for_scan, repair, set_index, recover,
}
use durastream.Stream.Holds.{Holds, last-ends}
use durastream.Stream.Commit.{with_disk, on_disk-then}

length-zero : (bytes : Bytes) → length bytes ≡ 0 → bytes ≡ []
length-zero [] e = refl
length-zero (b ∷ bytes) e = absurd (omega arith)

module _ ⦃z : Zlib⦄ where
  pub scan-decode : (bytes : Bytes) → scan bytes (length bytes) ≡ 0 ∷ ends 0 (decode bytes)
  scan-decode bytes =
      scan-eq bytes (length bytes)
      ∙ ap (λ b. 0 ∷ ends 0 (decode b)) (take-of_le (length bytes) bytes (omega arith))

  -- What opening a log leaves: a stream that holds what the log decodes to. A reader's log is left
  -- alone, and the flag `closed` is never changed.
  abbrev pub Recovered : Machine → Result (Unit {0}) × Machine → Type 0
  Recovered before (ok _, w) =
      Holds (decode before.log.bytes) w
      × (before.self.owner ≡ false → w.log ≡ before.log)
      × (w.self.closed ≡ before.self.closed)
  Recovered before (err e, w) = before.self.owner ≡ false → w.log ≡ before.log

  module _ (before : Machine) (b : AreBytes before.log.bytes) where
    abbrev rs : List Bytes
    rs = decode before.log.bytes

    tail : Bytes
    tail = (encode-decode before.log.bytes b).0

    tail-eq : encode rs ++ tail ≡ before.log.bytes
    unfolding tail
    tail-eq = (encode-decode before.log.bytes b).1

    cut-encode : (cut (length (encode rs)) before.log).bytes ≡ encode rs ++ []
    cut-encode =
        ap (λ t. (cut (length (encode rs)) (record before.log { bytes = t })).bytes) (sym tail-eq)
        ∙ cut-append (encode rs) tail before.log.durable
        ∙ sym (append-nil (encode rs))

    -- the torn tail was cut off, or a call failed
    repaired :
        {r : Result (Unit {0}) × Disk} (os : List Answer)
        → before.self.owner ≡ true
        → RolledBack (length (encode rs)) before.log r
        → Recovered before
            (continue (λ _. set_index (0 ∷ ends 0 rs)) (with_disk (record before { os = os }) r))
    repaired os o (rolled_back os') = (
      record {
        fit = decode-AllFit before.log.bytes b;
        index = refl;
        tail = [];
        bytes = cut-encode;
        clean = λ _ _. refl;
      },
      λ not_owner. cc,
      refl,
    )
    repaired os o (not_cut e os') = λ not_owner. cc
    repaired os o (not_synced e os') = λ not_owner. cc

    -- the log needed no repair, or was not this handle's to repair
    kept :
        (os : List Answer)
        → (before.self.owner ≡ true → length (encode rs) ≡ length before.log.bytes)
        → Recovered before (set_index (0 ∷ ends 0 rs) (record before { os = os }))
    kept os whole_log = (
      record {
        fit = decode-AllFit before.log.bytes b;
        index = refl;
        tail = tail;
        bytes = sym tail-eq;
        clean = λ _ o. length-zero tail (
            omega (arith, whole_log o, ap (λ t. length t) tail-eq, length-append (encode rs) tail));
      },
      λ _. refl,
      refl,
    )

    repair-Recovered :
        (os : List Answer)
        → Recovered before (
            continue
              (λ _. set_index (0 ∷ ends 0 rs))
              (repair (0 ∷ ends 0 rs) (record before { os = os })))
    unfolding repair
    repair-Recovered os =
        elim (Bool-cases (before.self.owner && not (last == length before.log.bytes))) [
          | inr keep ↦
              rw (if-false ((on_disk (ftruncate last) >> on_disk fsync) w) (ok tt, w) keep) (
                kept os
                  (λ o. sym last-eq ∙ (==_iff last (length before.log.bytes)).0 (ground arith)))
          | inl torn ↦
              rw
                (
                  if-true ((on_disk (ftruncate last) >> on_disk fsync) w) (ok tt, w) torn,
                  on_disk-then (ftruncate last) fsync w,
                )
                (repaired os (ground arith) (
                  subst
                    (λ n.
                      RolledBack n before.log
                        ((ftruncate last >> fsync) (record { log = before.log; os = os })))
                    last-eq
                    (ftruncate-fsync-RolledBack last (record { log = before.log; os = os }))))
        ]
      where
        last : ℕ
        last = last_or (0 ∷ ends 0 rs) 0

        w : Machine
        w = record before { os = os }

        last-eq : last ≡ length (encode rs)
        last-eq = last-ends 0 rs ∙ zero-add (length (encode rs))

    opened :
        (os : List Answer)
        → Recovered before (
            continue
              (λ _. set_index (0 ∷ ends 0 rs))
              (continue
                (λ _. repair (0 ∷ ends 0 rs))
                (with_disk before (answer_open before.log os))))
    opened [] = repair-Recovered []
    opened (done ∷ os) = repair-Recovered os
    opened (fail ∷ os) = λ _. refl
    opened (short k ∷ os) = repair-Recovered os

    repair-NoFail :
        (os : List Answer)
        → NoFail os
        → (continue
            (λ _. set_index (0 ∷ ends 0 rs))
            (repair (0 ∷ ends 0 rs) (record before { os = os }))).0
          ≡ ok tt
    unfolding repair
    repair-NoFail os h =
        elim (Bool-cases (before.self.owner && not (last == length before.log.bytes))) [
          | inr keep ↦ rw (if-false ((on_disk (ftruncate last) >> on_disk fsync) w) (ok tt, w) keep)
          | inl torn ↦
              rw
                (
                  if-true ((on_disk (ftruncate last) >> on_disk fsync) w) (ok tt, w) torn,
                  on_disk-then (ftruncate last) fsync w,
                )
                (indexed ((ftruncate last >> fsync) (record { log = before.log; os = os }))
                  (ftruncate-fsync-NoFail last before.log os h))
        ]
      where
        last : ℕ
        last = last_or (0 ∷ ends 0 rs) 0

        w : Machine
        w = record before { os = os }

        indexed :
            (r : Result (Unit {0}) × Disk)
            → r.0 ≡ ok tt
            → (continue (λ _. set_index (0 ∷ ends 0 rs)) (with_disk w r)).0 ≡ ok tt
        indexed (ok u, d) e = refl
        indexed (err x, d) e = cc

    opened-NoFail :
        (os : List Answer)
        → NoFail os
        → (continue
            (λ _. set_index (0 ∷ ends 0 rs))
            (continue
              (λ _. repair (0 ∷ ends 0 rs))
              (with_disk before (answer_open before.log os)))).0
          ≡ ok tt
    opened-NoFail [] h = repair-NoFail [] h
    opened-NoFail (done ∷ os) h = repair-NoFail os h
    opened-NoFail (fail ∷ os) h = absurd h
    opened-NoFail (short k ∷ os) h = repair-NoFail os h

    -- Opening a log of bytes, whatever the system answers: if it succeeds, the stream holds what the
    -- log decodes to, and its flag closed is as before; a handle that does not own the log leaves the
    -- log alone on success and on failure.
    pub recover-Recovered : Recovered before (recover before)
    unfolding recover open_for_scan
    recover-Recovered = rw (scan-decode before.log.bytes) (opened before.os)

    pub recover-ok : NoFail before.os → (recover before).0 ≡ ok tt
    unfolding recover open_for_scan
    recover-ok h = rw (scan-decode before.log.bytes) (opened-NoFail before.os h)

  Recovered-ok :
      (before : Machine) (r : Result (Unit {0}) × Machine)
      → r.0 ≡ ok tt
      → Recovered before r
      → Holds (decode before.log.bytes) r.1
  Recovered-ok before (ok u, w) e h = h.0
  Recovered-ok before (err x, w) e h = cc

  -- Where no system call fails, a log opens as a stream that holds what the log decodes to.
  pub recover-Holds :
      (w : Machine)
      → AreBytes w.log.bytes
      → NoFail w.os
      → ((recover w).0 ≡ ok tt) × Holds (decode w.log.bytes) (recover w).1
  recover-Holds w b h =
      (recover-ok w b h, Recovered-ok w (recover w) (recover-ok w b h) (recover-Recovered w b))
