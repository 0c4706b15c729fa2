-- ===== src/Stream/History/Safe.antt =====
-- The records of a log that are durable, and where the acknowledged batches stand among them.
use durastream.Common.{
  ℕ, ◌≤◌, ◌≡◌, sym, ap, ◌∙◌, subst, true, not, ◌&&◌, List, [], ◌∷◌, ◌++◌, append_assoc, Bytes,
  length, last_or, length-append, arith, ◌==◌,
}
use native.Mathlib.Nat.{zero-add}
use durastream.Errors.{Result, ok, err}
use durastream.Exec.{continue}
use durastream.Disk.{Answer, done, fail, short}
use durastream.Codec.{Zlib}
use durastream.Codec.Decode.{ends, AllFit, encode, decode, decode-encode}
use durastream.Stream.Defs.{
  Machine, recover, repair, set_index, on_disk, open_for_scan, answer_open,
}
use durastream.Stream.Holds.{Holds, encode-append, last-ends}
use durastream.Stream.Recover.{scan-decode}
use durastream.Stream.Commit.{with_disk}
use durastream.Stream.Firm.{Firm, FirmIn, if-Firm, roll_back-Firm}
use durastream.Stream.History.{Acks, Life}

-- `ps` are the records of `rs` from `k` on.
abbrev pub Part : List Bytes → ℕ × List Bytes → Type 0
Part rs (k, ps) = (a : List Bytes) × (b : List Bytes) × (rs ≡ a ++ (ps ++ b)) × (length a ≡ k)

abbrev pub Parts : List Bytes → Acks → Type 0
Parts rs [] = Unit {0}
Parts rs (x ∷ acked) = Part rs x × Parts rs acked

pub Part-grow : (rs t : List Bytes) (x : ℕ × List Bytes) → Part rs x → Part (rs ++ t) x
Part-grow rs t (k, ps) (a, b, e, l) = (
  a,
  b ++ t,
  ap (λ r. r ++ t) e ∙ append_assoc a (ps ++ b) t ∙ ap (λ r. a ++ r) (append_assoc ps b t),
  l,
)

pub Parts-grow : (rs t : List Bytes) (acked : Acks) → Parts rs acked → Parts (rs ++ t) acked
Parts-grow rs t [] h = tt
Parts-grow rs t (x ∷ acked) h = (Part-grow rs t x h.0, Parts-grow rs t acked h.1)

pub Parts-snoc :
    (rs : List Bytes) (acked : Acks) (x : ℕ × List Bytes)
    → Parts rs acked
    → Part rs x
    → Parts rs (acked ++ x ∷ [])
Parts-snoc rs [] x h p = (p, tt)
Parts-snoc rs (y ∷ acked) x h p = (h.0, Parts-snoc rs acked x h.1 p)

pub Parts-at :
    (rs : List Bytes) (xs : Acks) (x : ℕ × List Bytes) (ys : Acks)
    → Parts rs (xs ++ x ∷ ys)
    → Part rs x
Parts-at rs [] x ys h = h.0
Parts-at rs (y ∷ xs) x ys h = Parts-at rs xs x ys h.1

module _ ⦃z : Zlib⦄ where
  -- the records `p` are safe in the log, and an object that has opened it has them first
  abbrev pub HasFirst : List Bytes → Machine → Type 0
  HasFirst p w = (rs : List Bytes) × Holds rs w × ((t : List Bytes) × (rs ≡ p ++ t))

  pub record Safe (p : List Bytes) (l : Life) : Type 0 where
    pub fit : AllFit p
    pub firm : Firm (encode p) l.w.log
    pub parts : Parts p l.acked
    pub has : l.up ≡ true → HasFirst p l.w

  pub encode-le : (p t : List Bytes) → length (encode p) ≤ length (encode (p ++ t))
  encode-le p t =
      omega (arith, ap (λ b. length b) (encode-append p t), length-append (encode p) (encode t))

  -- The scan of an opening ends behind the records that are safe, so the repair does not cut them.
  pub recover-Firm :
      (p : List Bytes) (w : Machine)
      → AllFit p
      → Firm (encode p) w.log
      → FirmIn (encode p) (recover w)
  unfolding recover open_for_scan repair
  recover-Firm p w fit ((t, e), d) =
      subst
        (λ index. FirmIn (encode p) (
          continue (λ u. set_index index) (continue (λ u. repair index) (on_disk open_for_scan w))))
        (sym (scan-decode w.log.bytes)) (by w.os)
    where
      rs : List Bytes
      rs = decode w.log.bytes

      behind : length (encode p) ≤ last_or (0 ∷ ends 0 rs) 0
      behind = omega (
        arith,
        last-ends 0 rs,
        zero-add (length (encode rs)),
        subst (λ q. length (encode p) ≤ length (encode q))
            (sym (ap decode e ∙ decode-encode p t fit)) (encode-le p (decode t)),
      )

      indexed :
          (r : Result (Unit {0}) × Machine)
          → FirmIn (encode p) r
          → FirmIn (encode p) (continue (λ u. set_index (0 ∷ ends 0 rs)) r)
      indexed (ok u, v) h = h
      indexed (err x, v) h = h

      repaired :
          (os : List Answer)
          → FirmIn (encode p) (
              continue
                (λ u. set_index (0 ∷ ends 0 rs))
                (repair (0 ∷ ends 0 rs) (record w { os = os })))
      repaired os = indexed _ (
          if-Firm (encode p) (w.self.owner && not (last_or (0 ∷ ends 0 rs) 0 == length w.log.bytes))
            _ _
            (roll_back-Firm (encode p) (last_or (0 ∷ ends 0 rs) 0) (record w { os = os }) behind
              ((t, e), d))
            ((t, e), d))

      by :
          (os : List Answer)
          → FirmIn (encode p) (
              continue
                (λ u. set_index (0 ∷ ends 0 rs))
                (continue (λ u. repair (0 ∷ ends 0 rs)) (with_disk w (answer_open w.log os))))
      by [] = repaired []
      by (done ∷ os) = repaired os
      by (fail ∷ os) = ((t, e), d)
      by (short k ∷ os) = repaired os
