-- ===== src/Sub/Wake.antt =====
-- The deliveries that are under way to a subscriber, from the writer's notification to the event loop, and
-- the sleep of a generator that has nothing to yield.
use durastream.Common.{
  ℕ, ◌+◌, ◌-◌, ◌≤◌, ◌<◌, ◌≡◌, refl, sym, ap, ◌∙◌, subst, Bool, true, false, List, [], ◌∷◌, ◌++◌,
  Bytes, length, drop, length-append, length-drop, ltb, ltb→lt, ltb→ge, leb, arith, if-true,
  if-false, Bool-cases, ◌⊎◌, inl, inr,
}
use durastream.Sub.{
  Sub, Turn, sleep, take_in, receive, drop_stale, deliver, skip, turn, live, take_or_wait, pop_from,
  popleft, hold_at,
}

-- A delivery under way: the offset of its first record, and its records.
abbrev pub Flight : Type 0
Flight = ℕ × List Bytes

abbrev pub Covered : ℕ → List Flight → Type 0
Covered i [] = ⊥
Covered i ((k, rs) ∷ fl) = ((k ≤ i) × (i < k + length rs)) ⊎ Covered i fl

-- the offset behind the buffer
abbrev pub end_of : Sub → ℕ
end_of s = s.start + length s.buf

-- What a subscriber that trusts its buffer has not been given yet is under way.
abbrev pub Seen : ℕ → List Flight → Sub → Type 0
Seen n fl s = s.stale ≡ false → (i : ℕ) → end_of s ≤ i → i < n → Covered i fl

drop_stale-fresh : (q : Sub) → (drop_stale q).stale ≡ false → (q.stale ≡ false) × (drop_stale q ≡ q)
drop_stale-fresh q e = elim (Bool-cases q.stale) [
  | inl a ↦ absurd (cc (sym e ∙ ap (λ (s : Sub). s.stale) (if-true _ _ a) ∙ a))
  | inr a ↦ (a, if-false _ _ a)
]

-- What a delivery leaves of a buffer that is still trusted.
abbrev Reaches : ℕ → ℕ → ℕ → Sub → Type 0
Reaches end k n q = q.stale ≡ false → (end ≤ end_of q) × (k + n ≤ end_of q)

grown-end :
    (start m k n d : ℕ)
    → d ≡ n - (start + m - k)
    → k ≤ start + m
    → start + m < k + n
    → (start + m ≤ start + (m + d)) × (k + n ≤ start + (m + d))
grown-end start m k n d e le lt = omega (arith, e)

take_in-Reaches :
    (k : ℕ) (rs : List Bytes) (s : Sub) → Reaches (end_of s) k (length rs) (take_in k rs s)
unfolding take_in
take_in-Reaches k rs s = elim (Bool-cases (ltb (end_of s) k)) [
  | inl a ↦ subst (Reaches (end_of s) k (length rs)) (sym (if-true _ _ a)) (λ e. absurd (cc e))
  | inr a ↦
      subst (Reaches (end_of s) k (length rs)) (sym (if-false _ _ a))
        (elim (Bool-cases (ltb (end_of s) (k + length rs))) [
          | inl b ↦ subst (Reaches (end_of s) k (length rs)) (sym (if-true _ _ b)) (λ e.
              subst (λ m. (end_of s ≤ s.start + m) × (k + length rs ≤ s.start + m))
                (sym (length-append s.buf (drop (end_of s - k) rs)))
                (grown-end s.start (length s.buf) k (length rs) _ (length-drop (end_of s - k) rs)
                  (ltb→ge _ _ a) (ltb→lt _ _ b)))
          | inr b ↦
              subst (Reaches (end_of s) k (length rs)) (sym (if-false _ _ b))
                (λ e. (omega arith, ltb→ge _ _ b))
        ])
]

receive-Reaches :
    (k i : ℕ) (rs : List Bytes) (s : Sub)
    → (receive k rs s).stale ≡ false
    → (s.stale ≡ false)
      × (end_of s ≤ end_of (receive k rs s))
      × (k ≤ i → i < k + length rs → i < end_of (receive k rs s))
unfolding receive
receive-Reaches k i [] s e = (e, omega arith, λ le lt. absurd (omega arith))
receive-Reaches k i (r ∷ rs) s e = elim (Bool-cases s.stale) [
  | inl a ↦
      absurd (cc (sym a ∙ sym (ap (λ (q : Sub). q.stale) (if-true s (take_in k (r ∷ rs) s) a)) ∙ e))
  | inr a ↦
      let e' = sym (ap (λ (q : Sub). q.stale) (if-false s (take_in k (r ∷ rs) s) a)) ∙ e in
      let h = take_in-Reaches k (r ∷ rs) s e' in
      subst
        (λ q.
          (s.stale ≡ false)
          × (end_of s ≤ end_of q)
          × (k ≤ i → i < k + length (r ∷ rs) → i < end_of q))
        (sym (if-false s (take_in k (r ∷ rs) s) a)) (a, h.0, λ le lt. omega (arith, h.1))
]

-- another delivery than the one that came
other-Covered :
    (i k : ℕ) (rs : List Bytes) (before after : List Flight)
    → ¬ ((k ≤ i) × (i < k + length rs))
    → Covered i (before ++ (k, rs) ∷ after)
    → Covered i (before ++ after)
other-Covered i k rs [] after out (inl c) = absurd (out c)
other-Covered i k rs [] after out (inr c) = c
other-Covered i k rs (x ∷ before) after out (inl c) = inl c
other-Covered i k rs (x ∷ before) after out (inr c) = inr (other-Covered i k rs before after out c)

pub Covered-append : (i : ℕ) (fl more : List Flight) → Covered i fl → Covered i (fl ++ more)
Covered-append i [] more c = elim c [ ]
Covered-append i (x ∷ fl) more (inl c) = inl c
Covered-append i (x ∷ fl) more (inr c) = inr (Covered-append i fl more c)

pub Covered-last :
    (i k : ℕ) (rs : List Bytes) (fl : List Flight)
    → k ≤ i
    → i < k + length rs
    → Covered i (fl ++ (k, rs) ∷ [])
Covered-last i k rs [] le lt = inl (le, lt)
Covered-last i k rs (x ∷ fl) le lt = inr (Covered-last i k rs fl le lt)

pub deliver-Seen :
    (n k : ℕ) (rs : List Bytes) (before after : List Flight) (s : Sub)
    → Seen n (before ++ (k, rs) ∷ after) s
    → Seen n (before ++ after) (deliver k rs s)
unfolding deliver
deliver-Seen n k rs before after s seen e i ge lt =
    let fresh = drop_stale-fresh (receive k rs s) e in
    let h = receive-Reaches k i rs s fresh.0 in
    let past = subst (λ q. end_of q ≤ i) fresh.1 ge in
    other-Covered i k rs before after (λ c. omega (arith, past, h.2 c.0 c.1))
      (seen h.0 i (omega (arith, past, h.1)) lt)

-- The generator's own steps do not lose what is under way either.
skip-end :
    (pos : ℕ) (buf : List Bytes) (s : Sub)
    → s.buf ≡ buf
    → (end_of (skip pos buf s) ≡ end_of s) × ((skip pos buf s).stale ≡ s.stale)
unfolding skip
skip-end pos [] s e = (refl, refl)
skip-end pos (r ∷ buf) s e =
    let s' = record s { buf = buf; nbytes = s.nbytes - length r; start = s.start + 1 } in
    elim (Bool-cases (ltb s.start pos)) [
      | inl a ↦
          subst (λ q. (end_of q ≡ end_of s) × (q.stale ≡ s.stale)) (sym (if-true _ s a))
            (let h = skip-end pos buf s' refl in (omega (arith, h.0, ap length e), h.1))
      | inr a ↦
          subst (λ q. (end_of q ≡ end_of s) × (q.stale ≡ s.stale)) (sym (if-false _ s a))
            (refl, refl)
    ]

hold_at-end :
    (pos : ℕ) (buf : List Bytes) (s : Sub)
    → (end_of s ≤ end_of (hold_at pos buf s)) × ((hold_at pos buf s).stale ≡ s.stale)
hold_at-end pos [] s = (omega arith, refl)
hold_at-end pos (r ∷ buf) s = (omega arith, refl)

-- A round that ends asleep has yielded all that its buffer had, on a stream that is not closed.
abbrev pub Rests : ℕ → Bool → Turn × Sub → Type 0
Rests pos closed (sleep, s) = (s.stale ≡ false) × (end_of s ≤ pos) × (closed ≡ false)
Rests pos closed _ = Unit {0}

abbrev Turned : ℕ → List Flight → ℕ → Bool → Turn × Sub → Type 0
Turned n fl pos closed r = Seen n fl r.1 × Rests pos closed r

taken-Turned :
    (n : ℕ) (fl : List Flight) (pos : ℕ) (closed : Bool) (buf : List Bytes) (s : Sub)
    → s.buf ≡ buf
    → s.start ≤ pos
    → s.stale ≡ false
    → Seen n fl s
    → Turned n fl pos closed (take_or_wait pos n closed s (pop_from buf s))
taken-Turned n fl pos closed (r ∷ buf) s e le fresh seen =
    (λ q i ge lt. seen q i (omega (arith, ge, ap length e)) lt, tt)
taken-Turned n fl pos false [] s e le fresh seen =
    (seen, (fresh, omega (arith, le, ap length e), refl))
taken-Turned n fl pos true [] s e le fresh seen = elim (Bool-cases (leb n pos)) [
  | inl a ↦ subst (Turned n fl pos true) (sym (if-true _ _ a)) (seen, tt)
  | inr a ↦ subst (Turned n fl pos true) (sym (if-false _ _ a)) (λ q. absurd (cc q), tt)
]

live-Turned :
    (n : ℕ) (fl : List Flight) (pos : ℕ) (closed : Bool) (s : Sub)
    → s.stale ≡ false
    → Seen n fl s
    → Turned n fl pos closed (live pos n closed s)
unfolding popleft
live-Turned n fl pos closed s fresh seen = elim (Bool-cases (ltb pos s.start)) [
  | inl a ↦ subst (Turned n fl pos closed) (sym (if-true _ _ a)) (λ q. absurd (cc q), tt)
  | inr a ↦
      subst (Turned n fl pos closed) (sym (if-false _ _ a))
        (taken-Turned n fl pos closed s.buf s refl (ltb→ge pos s.start a) fresh seen)
]

pub turn-Turned :
    (n : ℕ) (fl : List Flight) (pos : ℕ) (closed : Bool) (s : Sub)
    → Seen n fl s
    → Seen n fl (turn pos n closed s).1 × Rests pos closed (turn pos n closed s)
unfolding turn
turn-Turned n fl pos closed s seen = elim (Bool-cases s.stale) [
  | inl a ↦
      subst (Turned n fl pos closed) (sym (if-true _ _ a))
        (λ q i ge lt. absurd (omega (arith, ge, lt)), tt)
  | inr a ↦ subst (Turned n fl pos closed) (sym (if-false _ _ a)) (
      let u = skip pos s.buf s in
      let sk = skip-end pos s.buf s refl in
      let ho = hold_at-end pos u.buf u in
      live-Turned n fl pos closed (hold_at pos u.buf u) (ho.1 ∙ sk.1 ∙ a)
        (λ q i ge lt. seen a i (omega (arith, ge, ho.0, sk.0)) lt))
]
