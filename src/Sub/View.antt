-- ===== src/Sub/View.antt =====
-- The buffer of a subscriber is a part of the stream.
use durastream.Common.{
  ℕ, zero, suc, ◌+◌, ◌-◌, ◌≤◌, ◌<◌, ◌≡◌, refl, sym, ap, ◌∙◌, subst, Bool, true, false, List, [],
  ◌∷◌, ◌++◌, Bytes, length, drop, drop-drop, drop-congr, drop-append, append_assoc, ltb, ltb→lt,
  ltb→ge, arith, if-true, if-false, Bool-cases, ◌||◌, inl, inr, max,
}
use durastream.Sub.{
  Sub, lag_limit, lag_bytes, total_size, clear, too_far, take_in, receive, drop_stale, deliver,
  skip, hold_at,
}

module _ {ℓ} {A : Type ℓ} where
  -- `xs` is what `recs` has from `k` on, up to some place.
  abbrev pub Slice : ℕ → List A → List A → Type ℓ
  Slice k xs recs = (post : List A) × (xs ++ post ≡ drop k recs)

  drop_inside : (j : ℕ) (xs ys : List A) → j ≤ length xs → drop j (xs ++ ys) ≡ drop j xs ++ ys
  drop_inside zero xs ys le = refl
  drop_inside (suc j) [] ys le = absurd (omega arith)
  drop_inside (suc j) (x ∷ xs) ys le = drop_inside j xs ys (omega arith)

  drop_past : (k : ℕ) (xs ys : List A) → drop k (xs ++ ys) ≡ drop k xs ++ drop (k - length xs) ys
  drop_past zero xs ys = ap (λ t. xs ++ t) (drop-congr 0 (0 - length xs) ys (omega arith))
  drop_past (suc k) [] ys = drop-congr (suc k) (suc k - 0) ys (omega arith)
  drop_past (suc k) (x ∷ xs) ys =
      drop_past k xs ys
      ∙ ap (λ t. drop k xs ++ t)
          (drop-congr (k - length xs) (suc k - suc (length xs)) ys (omega arith))

  pub Slice-drop :
      (j k : ℕ) (xs recs : List A)
      → j ≤ length xs
      → Slice k xs recs
      → Slice (k + j) (drop j xs) recs
  Slice-drop j k xs recs le (post, e) =
      (post, sym (drop_inside j xs post le) ∙ ap (drop j) e ∙ drop-drop j k recs)

  pub Slice-append :
      (k : ℕ) (xs ys recs : List A)
      → Slice k xs recs
      → Slice (k + length xs) ys recs
      → Slice k (xs ++ ys) recs
  Slice-append k xs ys recs (post, e) (post', e') = (
    post',
    append_assoc xs ys post'
        ∙ ap (λ t. xs ++ t)
            (e'
              ∙ sym (drop-drop (length xs) k recs)
              ∙ ap (drop (length xs)) (sym e)
              ∙ drop-append (length xs) xs post refl)
        ∙ e,
  )

  pub Slice-grow : (k : ℕ) (xs recs new : List A) → Slice k xs recs → Slice k xs (recs ++ new)
  Slice-grow k xs recs new (post, e) = (
    post ++ drop (k - length recs) new,
    sym (append_assoc xs post (drop (k - length recs) new))
        ∙ ap (λ t. t ++ drop (k - length recs) new) e
        ∙ sym (drop_past k recs new),
  )

pub total_size-append : (xs ys : List Bytes) → total_size (xs ++ ys) ≡ total_size xs + total_size ys
total_size-append [] ys = omega arith
total_size-append (x ∷ xs) ys = omega (arith, total_size-append xs ys)

-- What is known of a subscriber between two steps.
abbrev pub IsFed : List Bytes → Sub → Type 0
IsFed recs s =
    (s.nbytes ≡ total_size s.buf)
    × Slice s.start s.buf recs
    × (length s.buf ≤ lag_limit)
    × (s.nbytes ≤ lag_bytes)

-- The same before the buffer of a subscriber that is too far behind is cleared.
abbrev IsFilled : List Bytes → Sub → Type 0
IsFilled recs s =
    (s.nbytes ≡ total_size s.buf)
    × Slice s.start s.buf recs
    × (s.stale ≡ false → (length s.buf ≤ lag_limit) × (s.nbytes ≤ lag_bytes))

pub cleared-IsFed :
    (recs : List Bytes) (s : Sub) (start : ℕ) (stale : Bool)
    → IsFed recs (record (clear s) { start = start; stale = stale })
cleared-IsFed recs s start stale = (refl, (drop start recs, refl), omega arith, omega arith)

-- What a subscriber's buffer is after `new` is put behind it.
filled :
    (recs : List Bytes) (new : List Bytes) (s : Sub)
    → Slice (s.start + length s.buf) new recs
    → IsFed recs s
    → s.stale ≡ false
    → IsFilled recs (record s {
      buf = s.buf ++ new;
      nbytes = s.nbytes + total_size new;
      stale = s.stale || too_far (s.buf ++ new) (s.nbytes + total_size new);
    })
unfolding too_far
filled recs new s sl fed st = (
  omega (arith, fed.0, total_size-append s.buf new),
  Slice-append s.start s.buf new recs fed.1 sl,
  λ e. ground arith,
)

meets : (start end : ℕ) → start ≤ end → start + (end - start) ≡ end
meets start end le = omega arith

within : (start end n : ℕ) → end < start + n → end - start ≤ n
within start end n lt = omega arith

take_in-IsFilled :
    (recs : List Bytes) (start : ℕ) (records : List Bytes) (s : Sub)
    → Slice start records recs
    → IsFed recs s
    → s.stale ≡ false
    → IsFilled recs (take_in start records s)
unfolding take_in
take_in-IsFilled recs start records s sl fed st =
    elim (Bool-cases (ltb (s.start + length s.buf) start)) [
      | inl a ↦ subst (IsFilled recs) (sym (if-true _ _ a)) (fed.0, fed.1, λ e. (fed.2, fed.3))
      | inr a ↦
          subst (IsFilled recs) (sym (if-false _ _ a))
            (elim (Bool-cases (ltb (s.start + length s.buf) (start + length records))) [
              | inl b ↦ subst (IsFilled recs) (sym (if-true _ _ b)) (
                  filled recs (drop (s.start + length s.buf - start) records) s
                    (subst (λ n. Slice n (drop (s.start + length s.buf - start) records) recs)
                      (meets start (s.start + length s.buf) (ltb→ge _ _ a))
                      (Slice-drop (s.start + length s.buf - start) start records recs
                        (within start (s.start + length s.buf) (length records) (ltb→lt _ _ b)) sl))
                    fed st)
              | inr b ↦
                  subst (IsFilled recs) (sym (if-false _ _ b)) (fed.0, fed.1, λ e. (fed.2, fed.3))
            ])
    ]

dropped-IsFed :
    (recs : List Bytes) (s : Sub) (event : Bool)
    → IsFilled recs s
    → IsFed recs (record (drop_stale s) { event = event })
dropped-IsFed recs s event h = elim (Bool-cases s.stale) [
  | inl a ↦
      subst (λ q. IsFed recs (record q { event = event })) (sym (if-true (clear s) s a))
        (refl, (drop s.start recs, refl), omega arith, omega arith)
  | inr a ↦
      subst (λ q. IsFed recs (record q { event = event })) (sym (if-false (clear s) s a))
        (h.0, h.1, (h.2 a).0, (h.2 a).1)
]

receive-IsFilled :
    (recs : List Bytes) (start : ℕ) (records : List Bytes) (s : Sub)
    → Slice start records recs
    → IsFed recs s
    → IsFilled recs (receive start records s)
unfolding receive
receive-IsFilled recs start [] s sl fed = (fed.0, fed.1, λ e. (fed.2, fed.3))
receive-IsFilled recs start (r ∷ records) s sl fed = elim (Bool-cases s.stale) [
  | inl a ↦ subst (IsFilled recs) (sym (if-true s _ a)) (fed.0, fed.1, λ e. (fed.2, fed.3))
  | inr a ↦
      subst (IsFilled recs) (sym (if-false s _ a))
        (take_in-IsFilled recs start (r ∷ records) s sl fed a)
]

-- If the buffer of a subscriber is a part of the stream, of a known size, and within the two limits,
-- and what is delivered is the part of the stream that it says it is, early, late, or for the second
-- time, then the same holds of the buffer after the delivery.
pub deliver-IsFed :
    (recs : List Bytes) (start : ℕ) (records : List Bytes) (s : Sub)
    → Slice start records recs
    → IsFed recs s
    → IsFed recs (deliver start records s)
unfolding deliver
deliver-IsFed recs start records s sl fed =
    dropped-IsFed recs (receive start records s) true (receive-IsFilled recs start records s sl fed)

pub popped-IsFed :
    (recs buf : List Bytes) (r : Bytes) (s : Sub)
    → s.buf ≡ r ∷ buf
    → IsFed recs s
    → IsFed recs (record s { buf = buf; nbytes = s.nbytes - length r; start = s.start + 1 })
popped-IsFed recs buf r s e fed = (
  omega (arith, fed.0, ap total_size e),
  Slice-drop 1 s.start (r ∷ buf) recs (omega arith) (subst (λ b. Slice s.start b recs) e fed.1),
  omega (arith, fed.2, ap length e),
  omega (arith, fed.3),
)

pub skip-IsFed :
    (recs buf : List Bytes) (pos : ℕ) (s : Sub)
    → s.buf ≡ buf
    → IsFed recs s
    → IsFed recs (skip pos buf s)
unfolding skip
skip-IsFed recs [] pos s e fed = fed
skip-IsFed recs (r ∷ buf) pos s e fed = elim (Bool-cases (ltb s.start pos)) [
  | inl a ↦
      subst (IsFed recs) (sym (if-true _ s a))
        (skip-IsFed recs buf pos _ refl (popped-IsFed recs buf r s e fed))
  | inr a ↦ subst (IsFed recs) (sym (if-false _ s a)) fed
]

pub hold_at-IsFed :
    (recs buf : List Bytes) (pos : ℕ) (s : Sub)
    → s.buf ≡ buf
    → IsFed recs s
    → IsFed recs (hold_at pos buf s)
hold_at-IsFed recs [] pos s e fed = (
  fed.0,
  (drop (max s.start pos) recs, ap (λ b. b ++ drop (max s.start pos) recs) e),
  fed.2,
  fed.3,
)
hold_at-IsFed recs (r ∷ buf) pos s e fed = fed

pub grown-IsFed : (recs new : List Bytes) (s : Sub) → IsFed recs s → IsFed (recs ++ new) s
grown-IsFed recs new s fed = (fed.0, Slice-grow s.start s.buf recs new fed.1, fed.2, fed.3)
