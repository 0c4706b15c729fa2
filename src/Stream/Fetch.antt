-- ===== src/Stream/Fetch.antt =====
-- `read` returns the records of the range that was asked for, or the error of a failed system call.
use durastream.Common.{
  ℕ, zero, suc, ◌+◌, ◌-◌, ◌≤◌, ◌<◌, ◌≡◌, min, refl, sym, ap, ◌∙◌, List, [], ◌∷◌, ◌++◌, map,
  append_assoc, Bytes, Text, length, take, drop, get_or, le→leb, arith, length-append, length-take,
  length-drop, take-of_le, take-append, drop-append, ==_refl,
}
use native.Mathlib.Nat.{zero-add, add-zero}
use durastream.Errors.{Result, ok, err, os_error}
use durastream.Exec.{continue, lift, ◌>>=◌}
use durastream.Disk.{Answer, done, fail, short}
use durastream.Disk.Laws.{NoFail}
use durastream.Codec.{Zlib}
use durastream.Codec.Decode.{AllFit, ends, with_ends, encode, size}
use durastream.Codec.Frames.{iter_frames-eq, decode-encode_all}
use durastream.Stream.Defs.{Machine}
use durastream.Stream.Read.{
  take_chunk, join_chunk, read_rounds, read_bytes, read_range, check_records,
}
use durastream.Stream.Holds.{Holds, encode-append, length-encode}

-- What reading `want` bytes of a file that has them comes to.
abbrev Got : List Answer → ℕ → Bytes → Result Bytes × List Answer → Type 0
Got before want left (ok b, os) = b ≡ take want left
Got before want left (err e, os) = (e ≡ os_error) × (¬ NoFail before)

take-then :
    (a want : ℕ) (xs : Bytes)
    → a ≤ want
    → take a xs ++ take (want - length (take a xs)) (drop a xs) ≡ take want xs
take-then zero want xs h = ap (λ n. take n xs) (sub-zero want)
  where
    sub-zero : (n : ℕ) → n - 0 ≡ n
    sub-zero n = omega arith
take-then (suc a) zero xs h = elim h [ ]
take-then (suc a) (suc want) [] h = take-of_le (suc want - 0) [] (omega arith)
take-then (suc a) (suc want) (x ∷ xs) h =
    ap (λ r. x ∷ r)
      (ap (λ n. take a xs ++ take n (drop a xs)) (sub-suc want (length (take a xs)))
        ∙ take-then a want xs (omega arith))
  where
    sub-suc : (n m : ℕ) → suc n - suc m ≡ n - m
    sub-suc n m = omega arith

join_chunk-Got :
    (before : List Answer) (a want : ℕ) (left : Bytes) (r : Result Bytes × List Answer)
    → a ≤ want
    → Got before (want - length (take a left)) (drop a left) r
    → Got before want left (join_chunk (take a left) r)
join_chunk-Got before a want left (ok b, os) h g =
    ap (λ t. take a left ++ t) g ∙ take-then a want left h
join_chunk-Got before a want left (err e, os) h g = g

take_chunk-Got :
    (name : Text) (before os : List Answer) (a want : ℕ) (left : Bytes)
    (r : Result Bytes × List Answer)
    → 0 < a
    → a ≤ want
    → 0 < length left
    → Got before (want - length (take a left)) (drop a left) r
    → Got before want left (take_chunk name (take a left) os r)
take_chunk-Got name before os a want [] r p h k g = elim k [ ]
take_chunk-Got name before os zero want (b ∷ left) r p h k g = elim p [ ]
take_chunk-Got name before os (suc a) want (b ∷ left) r p h k g =
    join_chunk-Got before (suc a) want (b ∷ left) r h g

read_rounds-Got :
    (name : Text) (os : List Answer) (left : Bytes) (want : ℕ)
    → want ≤ length left
    → Got os want left (read_rounds name os left want)
unfolding read_rounds
read_rounds-Got name [] left want h = simp (le→leb want (length left) h) refl
read_rounds-Got name (a ∷ os) left zero h = refl
read_rounds-Got name (fail ∷ os) left (suc n) h = (refl, λ k. k)
read_rounds-Got name (done ∷ os) left (suc n) h =
    take_chunk-Got name os os (suc n) (suc n) left _ (omega arith) (omega arith) (omega arith) (
      read_rounds-Got name os (drop (suc n) left) (suc n - length (take (suc n) left))
        (omega (arith, length-take (suc n) left, length-drop (suc n) left)))
read_rounds-Got name (short k ∷ os) left (suc n) h =
    let a = min (suc k) (suc n) in
    take_chunk-Got name os os a (suc n) left _ (omega arith) (omega arith) (omega arith) (
      read_rounds-Got name os (drop a left) (suc n - length (take a left))
        (omega (arith, length-take a left, length-drop a left)))

with_ends-payloads :
    (at : ℕ) (rs : List Bytes) → map (λ (f : Bytes × ℕ). f.0) (with_ends at rs) ≡ rs
with_ends-payloads at [] = refl
with_ends-payloads at (r ∷ rs) = ap (λ t. r ∷ t) (with_ends-payloads (at + size r) rs)

module _ ⦃z : Zlib⦄ where
  check_records-encode :
      (name : Text) (rs : List Bytes)
      → AllFit rs
      → check_records name (length rs) (encode rs) ≡ ok rs
  check_records-encode name rs h =
      rw (iter_frames-eq (encode rs), decode-encode_all rs h, with_ends-payloads 0 rs)
        (simp (==_refl (length rs)))

  index_at :
      (start : ℕ) (a b : List Bytes)
      → get_or (start ∷ ends start (a ++ b)) (length a) 0 ≡ start + length (encode a)
  index_at start [] b = sym (add-zero start)
  index_at start (r ∷ a) b = index_at (start + size r) a b ∙ omega (arith, length-encode r a)

  -- the byte offset of record `length a` in the index of `a ++ b`
  get_or-index : (a b : List Bytes) → get_or (0 ∷ ends 0 (a ++ b)) (length a) 0 ≡ length (encode a)
  get_or-index a b = index_at 0 a b ∙ zero-add (length (encode a))

  -- A read of the records `expected`: they are returned, or a system call failed. The machine is as
  -- before, but for the answers that were used up.
  abbrev pub Fetched : Machine → List Bytes → Result (List Bytes) × Machine → Type 0
  Fetched before expected (ok records, w) = (records ≡ expected) × (w ≡ record before { os = w.os })
  Fetched before expected (err e, w) =
      (e ≡ os_error) × (¬ NoFail before.os) × (w ≡ record before { os = w.os })

  -- the frames of `b` were asked for
  checked :
      (w : Machine) (b : List Bytes) (left : Bytes) (r : Result Bytes × List Answer)
      → AllFit b
      → take (length (encode b)) left ≡ encode b
      → Got w.os (length (encode b)) left r
      → Fetched w b (
          continue
            (λ bytes. lift (check_records w.self.name (length b) bytes))
            (r.0, record w { os = r.1 }))
  checked w b left (ok bytes, os) fits e g =
      rw (g ∙ e, check_records-encode w.self.name b fits) (refl, refl)
  checked w b left (err x, os) fits e g = (g.0, g.1, refl)

  module _ (a b c : List Bytes) (w : Machine) (h : Holds (a ++ (b ++ c)) w) (fits : AllFit b) where
    left-eq : drop (length (encode a)) w.log.bytes ≡ encode b ++ (encode c ++ h.tail)
    left-eq =
        ap (λ t. drop (length (encode a)) t)
          (h.bytes
            ∙ ap (λ t. t ++ h.tail) (encode-append a (b ++ c))
            ∙ append_assoc (encode a) (encode (b ++ c)) h.tail)
        ∙ drop-append (length (encode a)) (encode a) (encode (b ++ c) ++ h.tail) refl
        ∙ ap (λ t. t ++ h.tail) (encode-append b c)
        ∙ append_assoc (encode b) (encode c) h.tail

    read_at :
        (start_byte want count : ℕ)
        → start_byte ≡ length (encode a)
        → want ≡ length (encode b)
        → count ≡ length b
        → Fetched w b (
            (read_bytes start_byte want >>= λ bytes. lift (check_records w.self.name count bytes))
              w)
    unfolding read_bytes
    read_at start_byte want count e f g =
        rw (e, f, g)
          (checked w b (drop (length (encode a)) w.log.bytes) _ fits
            (ap (λ t. take (length (encode b)) t) left-eq
              ∙ take-append (length (encode b)) (encode b) (encode c ++ h.tail) refl)
            (read_rounds-Got w.self.name w.os (drop (length (encode a)) w.log.bytes)
              (length (encode b))
              (omega (
                arith,
                ap (λ t. length t) left-eq,
                length-append (encode b) (encode c ++ h.tail),
              ))))

    stop_at : get_or w.self.index (length a + length b) 0 ≡ length (encode (a ++ b))
    stop_at =
        ap (λ l. get_or l (length a + length b) 0)
          (h.index ∙ ap (λ l. 0 ∷ ends 0 l) (sym (append_assoc a b c)))
        ∙ ap (λ n. get_or (0 ∷ ends 0 ((a ++ b) ++ c)) n 0) (sym (length-append a b))
        ∙ get_or-index (a ++ b) c

    start_at : get_or w.self.index (length a) 0 ≡ length (encode a)
    start_at = ap (λ l. get_or l (length a) 0) h.index ∙ get_or-index a (b ++ c)

    pub read_range-Fetched : Fetched w b (read_range (length a) (length a + length b) w)
    unfolding read_range
    read_range-Fetched =
        read_at (get_or w.self.index (length a) 0) _ _ start_at
          (omega (
            arith,
            stop_at,
            start_at,
            ap (λ t. length t) (encode-append a b),
            length-append (encode a) (encode b),
          ))
          (omega arith)
