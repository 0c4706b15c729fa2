-- ===== src/Stream/Holds.antt =====
-- The invariant of a stream over its log, and the arithmetic of its index.
use durastream.Common.{
  ℕ, suc, ◌+◌, ◌≡◌, refl, sym, ap, ◌∙◌, true, false, List, [], ◌∷◌, ◌++◌, map, append_assoc,
  append-nil, Bytes, length, last_or, length-append, arith,
}
use native.Mathlib.Nat.{add_assoc, add-zero}
use durastream.Codec.{Zlib}
use durastream.Codec.Decode.{AllFit, size, ends, frame, encode, length-frame}
use durastream.Stream.Defs.{Machine, next_offset, log_end}
use durastream.Stream.Write.{extend_index}

pub AllFit-append : (rs ps : List Bytes) → AllFit rs → AllFit ps → AllFit (rs ++ ps)
AllFit-append [] ps h k = k
AllFit-append (r ∷ rs) ps h k = (h.0, AllFit-append rs ps h.1 k)

pub length-ends : (pos : ℕ) (rs : List Bytes) → length (ends pos rs) ≡ length rs
length-ends pos [] = refl
length-ends pos (r ∷ rs) = ap suc (length-ends (pos + size r) rs)

module _ ⦃z : Zlib⦄ where
  -- The log holds the records `rs`: the index is theirs, their frames stand at the start of the
  -- file, and behind them stands nothing while the stream may still be appended to.
  pub record Holds (rs : List Bytes) (w : Machine) : Type 0 where
    pub fit : AllFit rs
    pub index : w.self.index ≡ 0 ∷ ends 0 rs
    pub tail : Bytes
    pub bytes : w.log.bytes ≡ encode rs ++ tail
    pub clean : w.self.closed ≡ false → w.self.owner ≡ true → tail ≡ []

  pub encode-append : (rs ps : List Bytes) → encode (rs ++ ps) ≡ encode rs ++ encode ps
  encode-append [] ps = refl
  encode-append (r ∷ rs) ps =
      ap (λ t. frame r ++ t) (encode-append rs ps)
      ∙ sym (append_assoc (frame r) (encode rs) (encode ps))

  pub length-encode :
      (r : Bytes) (rs : List Bytes) → length (encode (r ∷ rs)) ≡ size r + length (encode rs)
  length-encode r rs =
      length-append (frame r) (encode rs) ∙ ap (λ n. n + length (encode rs)) (length-frame r)

  pub ends-append :
      (pos : ℕ) (rs ps : List Bytes)
      → ends pos (rs ++ ps) ≡ ends pos rs ++ ends (pos + length (encode rs)) ps
  ends-append pos [] ps = ap (λ n. ends n ps) (sym (add-zero pos))
  ends-append pos (r ∷ rs) ps =
      ap (λ t. (pos + size r) ∷ t)
        (ends-append (pos + size r) rs ps
          ∙ ap (λ n. ends (pos + size r) rs ++ ends n ps)
              (add_assoc pos (size r) (length (encode rs))
                ∙ ap (λ n. pos + n) (sym (length-encode r rs))))

  pub last-ends : (pos : ℕ) (rs : List Bytes) → last_or (ends pos rs) pos ≡ pos + length (encode rs)
  last-ends pos [] = sym (add-zero pos)
  last-ends pos (r ∷ rs) = last-ends (pos + size r) rs ∙ omega (arith, length-encode r rs)

  pub extend_index-eq :
      (end : ℕ) (ps : List Bytes) (index : List ℕ)
      → extend_index end (map frame ps) index ≡ index ++ ends end ps
  unfolding extend_index
  extend_index-eq end [] index = sym (append-nil index)
  extend_index-eq end (p ∷ ps) index =
      ap (λ n. extend_index (end + n) (map frame ps) (index ++ (end + n) ∷ [])) (length-frame p)
      ∙ extend_index-eq (end + size p) ps (index ++ (end + size p) ∷ [])
      ∙ append_assoc index ((end + size p) ∷ []) (ends (end + size p) ps)

  module _ (rs : List Bytes) (w : Machine) (h : Holds rs w) where
    pub next_offset-Holds : next_offset w.self ≡ length rs
    unfolding next_offset
    next_offset-Holds = rw (h.index) (omega (arith, length-ends 0 rs))

    pub log_end-Holds : log_end w.self ≡ length (encode rs)
    log_end-Holds = rw (h.index) (last-ends 0 rs ∙ omega arith)

  -- A machine whose index and log are those of another holds the same records.
  pub Holds-as :
      (rs : List Bytes) (w v : Machine)
      → Holds rs w
      → v.self.index ≡ w.self.index
      → v.log ≡ w.log
      → (v.self.closed ≡ false
          → v.self.owner ≡ true
          → (w.self.closed ≡ false) × (w.self.owner ≡ true))
      → Holds rs v
  Holds-as rs w v h i l k = record {
    fit = h.fit;
    index = i ∙ h.index;
    tail = h.tail;
    bytes = ap (λ f. f.bytes) l ∙ h.bytes;
    clean = λ c o. let q = k c o in h.clean q.0 q.1;
  }
