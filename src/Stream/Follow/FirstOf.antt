-- ===== src/Stream/Follow/FirstOf.antt =====
-- The first records of a stream from an offset on, and what a read of all that is left takes.
use durastream.Common.{
  ℕ, suc, ◌+◌, ◌≤◌, ◌≡◌, refl, sym, ap, ◌∙◌, subst, Option, none, some, List, [], ◌∷◌, ◌++◌, Bytes,
  length, take, drop, drop-drop, drop-append_le, length-take, take-of_le, take-append_le,
  take-append-drop, length-drop, leb, leb→le, if◌then◌else◌, if-true, if-false, Bool-cases, inl,
  inr, arith,
}
use durastream.Common.Int.{pos, pos_part, lebℤ}
use durastream.Errors.{Result, ok, err}
use durastream.Codec.{Zlib}
use durastream.Stream.Defs.{Machine, next_offset}
use durastream.Stream.Read.{read, read_open}
use durastream.Stream.Holds.{Holds, Holds-as, next_offset-Holds}
use durastream.Stream.Close.{Closed}
use durastream.Stream.Fetch.{Fetched}
use durastream.Stream.Range.{maxℤ-zero, read-requested}
use durastream.Stream.Tail.{requested_all}

-- The first records of `rs` from `offset` on.
abbrev pub FirstOf : List Bytes → ℕ → List Bytes → Type 0
FirstOf rs offset yielded = yielded ≡ take (length yielded) (drop offset rs)

pub FirstOf-grow :
    (rs t : List Bytes) (offset : ℕ) (yielded : List Bytes)
    → FirstOf rs offset yielded
    → FirstOf (rs ++ t) offset yielded
FirstOf-grow rs t offset [] h = refl
FirstOf-grow rs t offset (y ∷ yielded) h =
    h
    ∙ sym (
        ap (take n) (drop-append_le offset rs t (omega (arith, len, length-drop offset rs)))
        ∙ take-append_le n (drop offset rs) t (omega (arith, len)))
  where
    n : ℕ
    n = suc (length yielded)

    len : suc (length yielded) ≤ length (drop offset rs)
    len = omega (arith, ap (λ l. length l) h, length-take (suc (length yielded)) (drop offset rs))

-- A batch of all that is left.
pub FirstOf-all :
    (rs : List Bytes) (offset : ℕ) (yielded : List Bytes)
    → FirstOf rs offset yielded
    → FirstOf rs offset (yielded ++ drop (offset + length yielded) rs)
FirstOf-all rs offset yielded h =
    whole
    ∙ sym (
        ap (λ l. take (length l) (drop offset rs)) whole
        ∙ take-of_le (length (drop offset rs)) (drop offset rs) (omega arith))
  where
    whole : yielded ++ drop (offset + length yielded) rs ≡ drop offset rs
    whole =
        ap (λ t. yielded ++ t) (sym (drop-drop (length yielded) offset rs))
        ∙ ap (λ t. t ++ drop (length yielded) (drop offset rs)) h
        ∙ take-append-drop (length yielded) (drop offset rs)

-- All is yielded where nothing stands behind.
pub FirstOf-end :
    (rs : List Bytes) (offset : ℕ) (yielded : List Bytes)
    → FirstOf rs offset yielded
    → length rs ≤ offset + length yielded
    → yielded ≡ drop offset rs
FirstOf-end rs offset yielded h le =
    h ∙ take-of_le (length yielded) (drop offset rs) (omega (arith, le, length-drop offset rs))

module _ ⦃z : Zlib⦄ where
  -- A read of all that stands from `k` on changes only the answers that are left.
  abbrev pub Took : List Bytes → Machine → Result (List Bytes) × Machine → Type 0
  Took expected before (ok batch, w) = (batch ≡ expected) × (w ≡ record before { os = w.os })
  Took expected before (err e, w) = w ≡ record before { os = w.os }

  pub read-Took :
      (rs : List Bytes) (w : Machine) (k : ℕ)
      → Holds rs w
      → Took (drop k rs) w (read (pos k) none w)
  unfolding read
  read-Took rs w k h = by w.self.file refl
    where
      same : (r : Result (List Bytes) × Machine) → Fetched w (drop k rs) r → Took (drop k rs) w r
      same (ok batch, v) f = f
      same (err e, v) f = f.2

      none_left : length rs ≤ k → [] ≡ drop k rs
      none_left le = FirstOf-end rs k [] refl (omega (arith, le))

      by : (file : Option ℕ) → w.self.file ≡ file → Took (drop k rs) w (read (pos k) none w)
      by (some fd) e = same (read (pos k) none w) (
          subst (λ l. Fetched w l (read (pos k) none w)) (requested_all rs (pos k))
            (read-requested rs w h e (pos k) none))
      by none e =
          subst
            (λ s. Took (drop k rs) w (
              if lebℤ (pos (next_offset w.self)) s
              then (ok [], w)
              else read_open w.self.file (pos_part s) (next_offset w.self) w))
            (sym (maxℤ-zero (pos k)))
            (elim (Bool-cases (leb (next_offset w.self) k)) [
              | inl a ↦
                  subst (Took (drop k rs) w) (sym (if-true _ _ a))
                    (none_left (omega (arith, leb→le _ _ a, next_offset-Holds rs w h)), refl)
              | inr a ↦ subst (Took (drop k rs) w) (sym (if-false _ _ a)) (
                  subst (λ f. Took (drop k rs) w (read_open f k (next_offset w.self) w)) (sym e)
                    refl)
            ])

  pub close-Holds :
      (rs : List Bytes) (w : Machine)
      → Holds rs w
      → (r : Result (Unit {0}) × Machine) → Closed w r
      → Holds rs r.1
  close-Holds rs w h (ok u, v) (o, self, db, log, calls) =
      Holds-as rs w v h (ap (λ s. s.index) self) log (λ c. absurd (cc (ap (λ s. s.closed) self, c)))
  close-Holds rs w h (err e, v) (self, db, log, calls) =
      Holds-as rs w v h (ap (λ s. s.index) self) log
        (λ c o. (sym (ap (λ s. s.closed) self) ∙ c, sym (ap (λ s. s.owner) self) ∙ o))
