-- ===== src/Restart/Records.antt =====
-- The records of a range of numbers, and what append_range leaves.
use durastream.Common.{
  ℕ, zero, suc, ◌+◌, ◌-◌, ◌≤◌, ◌<◌, ◌≡◌, refl, sym, ap, ◌∙◌, subst, some, List, [], ◌∷◌, ◌++◌,
  Bytes, length, take, drop, drop-append, leb, leb→le, leb→gt, min, if-true, if-false, Bool-cases,
  inl, inr, arith,
}
use durastream.Common.Int.{pos}
use durastream.Errors.{Result, ok, err}
use durastream.Exec.{continue}
use durastream.Codec.{Zlib}
use durastream.Stream.Defs.{Machine}
use durastream.Stream.Write.{append_many}
use durastream.Stream.Range.{requested}
use durastream.Stream.Whole.{Whole, Adds, append_many-Adds}
use durastream.Codec.Decode.{Fits, AllFit}
use durastream.Stream.Calm.{Calm, IsCalm, append_many-Calm}
use durastream.Restart.{batch_size, records_from, append_batches, append_range, sub_one}

pub length-records : (make : ℕ → Bytes) (base n : ℕ) → length (records_from make base n) ≡ n
length-records make base zero = refl
length-records make base (suc n) = ap suc (length-records make (suc base) n)

records_from-append :
    (make : ℕ → Bytes) (base m n : ℕ)
    → records_from make base m ++ records_from make (base + m) n ≡ records_from make base (m + n)
records_from-append make base zero n =
    ap (λ b. records_from make b n) {y = base} (omega arith)
    ∙ ap (records_from make base) {y = 0 + n} (omega arith)
records_from-append make base (suc m) n =
    ap (λ l. make base ∷ l)
      (ap (λ b. records_from make (suc base) m ++ records_from make b n) {y = suc base + m}
          (omega arith)
        ∙ records_from-append make (suc base) m n)
    ∙ ap (records_from make base) {x = suc (m + n)} {y = suc m + n} (omega arith)

records_from-AllFit :
    (make : ℕ → Bytes) (base n : ℕ) → ((i : ℕ) → Fits (make i)) → AllFit (records_from make base n)
records_from-AllFit make base zero fits = tt
records_from-AllFit make base (suc n) fits = (fits base, records_from-AllFit make (suc base) n fits)

module _ ⦃z : Zlib⦄ (make : ℕ → Bytes) (q : Type 0) (fits : q → (i : ℕ) → Fits (make i)) where
  -- What may be left: the stream holds the records; or, unless `q`, an error.
  abbrev pub Ends : List Bytes → Result (Unit {0}) × Machine → Type 0
  Ends rs (ok u, w) = Whole rs w × (q → Calm w)
  Ends rs (err e, w) = ¬ q

  append_batches-Ends :
      (fuel : ℕ) (base end batch : ℕ) (w : Machine)
      → end - base ≤ fuel
      → 1 ≤ batch
      → Whole (records_from make 0 (min base end)) w
      → (q → Calm w)
      → Ends (records_from make 0 end) (append_batches fuel make base end batch w)
  unfolding append_batches
  append_batches-Ends zero base end batch w f b h c =
      (subst (λ n. Whole (records_from make 0 n) w) (omega (arith, f)) h, c)
  append_batches-Ends (suc fuel) base end batch w f b h c = elim (Bool-cases (leb end base)) [
    | inl a ↦
        subst (Ends (records_from make 0 end)) (sym (if-true _ _ a))
          (subst (λ n. Whole (records_from make 0 n) w) (omega (arith, leb→le _ _ a)) h, c)
    | inr a ↦ subst (Ends (records_from make 0 end)) (sym (if-false _ _ a)) (
        by (append_many (records_from make base (min batch (end - base))) w)
          (append_many-Adds _ (records_from make base (min batch (end - base))) w h)
          (λ x.
            append_many-Calm (records_from make base (min batch (end - base))) w
              (records_from-AllFit make base (min batch (end - base)) (fits x)) (c x))
          (leb→gt _ _ a)
          (λ v k d.
            append_batches-Ends fuel (base + batch) end batch v (omega (arith, f, b, leb→gt _ _ a))
              b k d))
  ]
    where
      by :
          (r : Result ℕ × Machine)
          → Adds
              (records_from make 0 (min base end)
                ++ records_from make base (min batch (end - base)))
              r
          → (q → IsCalm r)
          → base < end
          → ((v : Machine)
              → Whole (records_from make 0 (min (base + batch) end)) v
              → (q → Calm v)
              → Ends
                  (records_from make 0 end)
                  (append_batches fuel make (base + batch) end batch v))
          → Ends
              (records_from make 0 end)
              (continue (λ _. append_batches fuel make (base + batch) end batch) r)
      by (ok n, v) k d lt others = others v (subst (λ l. Whole l v) joined k) d
        where
          joined :
              records_from make 0 (min base end) ++ records_from make base (min batch (end - base))
              ≡ records_from make 0 (min (base + batch) end)
          joined =
              ap
                (λ b.
                  records_from make 0 (min base end)
                  ++ records_from make b (min batch (end - base)))
                {y = 0 + min base end} (omega (arith, lt))
              ∙ records_from-append make 0 (min base end) (min batch (end - base))
              ∙ ap (records_from make 0) {y = min (base + batch) end} (omega (arith, lt))
      by (err e, v) k d lt others = d

  pub append_range-Ends :
      (base end : ℕ) (w : Machine)
      → base ≤ end
      → Whole (records_from make 0 base) w
      → (q → Calm w)
      → Ends (records_from make 0 end) (append_range base end make batch_size w)
  unfolding append_range
  append_range-Ends base end w le h c =
      append_batches-Ends (end - base) base end batch_size w (omega arith) (omega arith)
        (subst (λ n. Whole (records_from make 0 n) w) (omega (arith, le)) h) c

-- the sample that is expected of `n` records
abbrev pub sample_of : (ℕ → Bytes) → ℕ → List Bytes
sample_of record_of zero = []
sample_of record_of (suc n) = record_of n ∷ []

-- the last record is what is read at the end
pub requested-last :
    (record_of : ℕ → Bytes) (n : ℕ)
    → requested (records_from record_of 0 n) (sub_one n) (some (pos n)) ≡ sample_of record_of n
requested-last record_of zero = refl
requested-last record_of (suc p) =
    ap (take (min (suc p) (length (records_from record_of 0 (suc p))) - p)) (
      ap (drop p) (
        ap (records_from record_of 0) {x = suc p} {y = p + 1} (omega arith)
        ∙ sym (records_from-append record_of 0 p 1)
        ∙ ap (λ b. records_from record_of 0 p ++ record_of b ∷ []) {y = p} (omega arith))
      ∙ drop-append p (records_from record_of 0 p) (record_of p ∷ [])
          (length-records record_of 0 p))
    ∙ ap (λ k. take k (record_of p ∷ [])) {y = 1}
        (omega (arith, length-records record_of 0 (suc p)))
