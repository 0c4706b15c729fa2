-- ===== src/Stream/Whole.antt =====
-- A stream whose log is its records, with nothing behind them.
use durastream.Common.{
  ℕ, ◌-◌, ◌≡◌, refl, sym, ap, ◌∙◌, subst, Bool, false, not, ◌&&◌, Option, none, some, List, [], ◌∷◌,
  ◌++◌, map, append-nil, Bytes, length, last_or, ◌==◌, if-true, if-false, Bool-cases, inl, inr,
  arith,
}
use durastream.Errors.{Result, ok, err, Result-cases}
use durastream.Exec.{continue}
use durastream.Disk.{Answer, done, fail, short}
use durastream.Codec.{Zlib, pack_frames}
use durastream.Codec.Decode.{AllFit, frame, encode, decode, decode_fuel, decode-encode, ends}
use durastream.Codec.Frames.{pack_frames-ok, pack_frames-fits}
use durastream.Stream.Defs.{Machine, writable, recover, repair, set_index, on_disk, open_for_scan}
use durastream.Stream.Write.{
  append_frames, append_open, append_locked, append_many, announce, commit, notify,
}
use durastream.Stream.Holds.{Holds, Holds-as, last-ends}
use durastream.Stream.Commit.{Committed, commit-Committed}
use durastream.Stream.Recover.{scan-decode}

module _ ⦃z : Zlib⦄ where
  abbrev pub Whole : List Bytes → Machine → Type 0
  Whole rs w = Holds rs w × (w.log.bytes ≡ encode rs)

  -- The records are appended, where the append returns.
  abbrev pub Adds : List Bytes → Result ℕ × Machine → Type 0
  Adds rs (ok n, w) = Whole rs w
  Adds rs (err e, w) = Unit

  append_open-Adds :
      (rs ps : List Bytes) (w : Machine) (file : Option ℕ)
      → Whole rs w
      → AllFit ps
      → Adds (rs ++ ps) (append_open (map frame ps) file w)
  append_open-Adds rs [] w file h fits = subst (λ l. Whole l w) (sym (append-nil rs)) h
  append_open-Adds rs (p ∷ ps) w none h fits = tt
  append_open-Adds rs (p ∷ ps) w (some fd) (h, b) fits =
      by (commit (map frame (p ∷ ps)) w) (commit-Committed rs (p ∷ ps) w h fits b)
    where
      by : (r : Result ℕ × Machine) → Committed rs (p ∷ ps) r → Adds (rs ++ p ∷ ps) r
      by (ok n, v) (count, k, durable, bytes) = (k, bytes)
      by (err e, v) k = tt

  append_frames-Adds :
      (rs ps : List Bytes) (w : Machine)
      → Whole rs w
      → AllFit ps
      → Adds (rs ++ ps) (append_frames (map frame ps) w)
  unfolding append_frames
  append_frames-Adds rs ps w h fits = elim (Bool-cases w.self.closed) [
    | inl c ↦ subst (Adds (rs ++ ps)) (sym (if-true _ _ c)) tt
    | inr c ↦ subst (Adds (rs ++ ps)) (sym (if-false _ _ c)) (elim (Bool-cases (not (writable w))) [
      | inl o ↦ subst (Adds (rs ++ ps)) (sym (if-true _ _ o)) tt
      | inr o ↦
          subst (Adds (rs ++ ps)) (sym (if-false _ _ o))
            (append_open-Adds rs ps w w.self.file h fits)
    ])
  ]

  announce-Adds :
      (rs ps : List Bytes) (r : Result ℕ × Machine) → Adds rs r → Adds rs (announce ps r)
  unfolding notify
  announce-Adds rs ps (err e, w) h = tt
  announce-Adds rs [] (ok n, w) h = h
  announce-Adds rs (p ∷ ps) (ok n, w) (h, b) =
      (Holds-as rs w (notify (n - length (p ∷ ps)) (p ∷ ps) w) h refl refl (λ x y. (x, y)), b)

  pub append_many-Adds :
      (rs ps : List Bytes) (w : Machine) → Whole rs w → Adds (rs ++ ps) (append_many ps w)
  unfolding append_many append_locked
  append_many-Adds rs ps w h =
      announce-Adds (rs ++ ps) ps (append_locked ps w) (elim (Result-cases (pack_frames ps)) [
        | inr (e, q) ↦ rw q tt
        | inl (frames, q) ↦
            let fits = pack_frames-fits ps q in
            rw (pack_frames-ok ps fits) (append_frames-Adds rs ps w h fits)
      ])

  decode_none : decode [] ≡ []
  unfolding decode decode_fuel
  decode_none = refl

  -- What an opening of such a log leaves.
  abbrev pub Opens : List Bytes → Machine → Result (Unit {0}) × Machine → Type 0
  Opens rs before (ok u, w) =
      Whole rs w
      × (before.os ≡ [] → w.os ≡ [])
      × (w.self ≡ record before.self { index = 0 ∷ ends 0 rs })
      × (w.getpid ≡ before.getpid)
  Opens rs before (err e, w) = ¬ (before.os ≡ [])

  pub recover-Opens :
      (rs : List Bytes) (w : Machine) → AllFit rs → w.log.bytes ≡ encode rs → Opens rs w (recover w)
  unfolding recover open_for_scan repair
  recover-Opens rs w fits b =
      subst
        (λ index. Opens rs w (
          continue (λ u. set_index index) (continue (λ u. repair index) (on_disk open_for_scan w))))
        (sym (scan-decode w.log.bytes ∙ ap (λ l. 0 ∷ ends 0 l) decoded)) (by w.os)
    where
      decoded : decode w.log.bytes ≡ rs
      decoded =
          ap decode (b ∙ sym (append-nil (encode rs)))
          ∙ decode-encode rs [] fits
          ∙ ap (λ l. rs ++ l) decode_none
          ∙ append-nil rs

      nothing_behind : last_or (0 ∷ ends 0 rs) 0 ≡ length w.log.bytes
      nothing_behind = omega (arith, last-ends 0 rs, ap (λ l. length l) b)

      opened :
          (before os : List Answer)
          → (before ≡ [] → os ≡ [])
          → Opens rs
              (record w { os = before })
              (continue
                (λ u. set_index (0 ∷ ends 0 rs))
                (repair (0 ∷ ends 0 rs) (record w { os = os })))
      opened before os left =
          subst
            (λ (r : Result (Unit {0}) × Machine).
              Opens rs (record w { os = before }) (continue (λ u. set_index (0 ∷ ends 0 rs)) r))
            (sym (
              if-false _ _ (
                in_place w.self.owner (last_or (0 ∷ ends 0 rs) 0) (length w.log.bytes)
                  nothing_behind)))
            (indexed os, left, refl, refl)
        where
          indexed :
              (os : List Answer)
              → Whole rs (record w { os = os; self = record w.self { index = 0 ∷ ends 0 rs } })
          indexed os = (
            record {
              fit = fits;
              index = refl;
              tail = [];
              bytes = b ∙ sym (append-nil (encode rs));
              clean = λ _ _. refl;
            },
            b,
          )

          in_place : (owner : Bool) (m n : ℕ) → m ≡ n → owner && not (m == n) ≡ false
          in_place owner m n e = ground (arith, e)

      by :
          (os : List Answer)
          → Opens rs
              (record w { os = os })
              (continue
                (λ u. set_index (0 ∷ ends 0 rs))
                (continue
                  (λ u. repair (0 ∷ ends 0 rs))
                  (on_disk open_for_scan (record w { os = os }))))
      by [] = opened [] [] (λ _. refl)
      by (done ∷ os) = opened (done ∷ os) os (λ e. absurd (cc e))
      by (fail ∷ os) = λ e. cc e
      by (short k ∷ os) = opened (short k ∷ os) os (λ e. absurd (cc e))
