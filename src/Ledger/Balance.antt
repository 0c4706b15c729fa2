-- ===== src/Ledger/Balance.antt =====
-- What the account's balance is after each event, by the definitions of its events alone.
use durastream.Common.{
  ℕ, zero, suc, ◌+◌, ◌-◌, ◌*◌, ◌%◌, ◌≤◌, ◌≡◌, refl, sym, ap, ◌∙◌, subst, true, false, not, ◌||◌,
  List, [], ◌∷◌, ◌++◌, Bytes, length, take, leb, ◌==◌, if-true, if-false, Bool-cases, inl, inr,
  arith, length-append, take-append_le, take-of_le, dec_le,
}
use durastream.Common.Int.{ℤ, pos}
use durastream.Ledger.{Event, event, apply, amount_of, replay}

unfoldable pub balance : ℕ → ℤ
unfolding event apply
balance zero = pos 0
balance (suc n) = apply (balance n) (event n (balance n))

-- the records of the first `n` events
unfoldable pub entries : (Event → Bytes) → ℕ → List Bytes
unfolding balance event
entries jdump zero = []
entries jdump (suc n) = entries jdump n ++ jdump (event n (balance n)) ∷ []

abbrev pub Within : ℕ → ℤ → Type 0
Within n b = (a : ℕ) × (b ≡ pos a) × (a ≤ 99 * n)

amount-le : (i : ℕ) → amount_of i ≤ 99
amount-le i = omega arith

event-Within : (i a : ℕ) → a ≤ 99 * i → Within (suc i) (apply (pos a) (event i (pos a)))
unfolding event apply
event-Within i a le = elim (Bool-cases (i % 2 == 0 || not (leb (amount_of i) a))) [
  | inl c ↦
      subst (λ (ev : Event). Within (suc i) (apply (pos a) ev)) (sym (if-true _ _ c))
        (a + amount_of i, refl, omega (arith, le, amount-le i))
  | inr c ↦
      subst (λ (ev : Event). Within (suc i) (apply (pos a) ev)) (sym (if-false _ _ c))
        (a - amount_of i, if-true _ _ (funds c), omega (arith, le))
]
  where
    funds : (i % 2 == 0 || not (leb (amount_of i) a)) ≡ false → leb (amount_of i) a ≡ true
    funds c = elim (Bool-cases (leb (amount_of i) a)) [ inl t ↦ t | inr f ↦ ground (arith, c, f) ]

pub balance-Within : (n : ℕ) → Within n (balance n)
unfolding balance
balance-Within zero = (0, refl, omega arith)
balance-Within (suc n) =
    let (a, e, le) = balance-Within n in
    subst (λ b. Within (suc n) (apply b (event n b))) (sym e) (event-Within n a le)

module _ (loads : Bytes → Event) where
  replay-append :
      (b : ℤ) (xs ys : List Bytes) → replay loads b (xs ++ ys) ≡ replay loads (replay loads b xs) ys
  replay-append b [] ys = refl
  replay-append b (x ∷ xs) ys = replay-append (apply b (loads x)) xs ys

  pub replay-entries :
      (jdump : Event → Bytes)
      → ((ev : Event) → loads (jdump ev) ≡ ev)
      → (n : ℕ) → replay loads (pos 0) (entries jdump n) ≡ balance n
  unfolding entries balance
  replay-entries jdump law zero = refl
  replay-entries jdump law (suc n) =
      replay-append (pos 0) (entries jdump n) (jdump (event n (balance n)) ∷ [])
      ∙ ap (λ b. apply b (loads (jdump (event n (balance n))))) (replay-entries jdump law n)
      ∙ ap (apply (balance n)) (law (event n (balance n)))

module _ (jdump : Event → Bytes) where
  pub length-entries : (n : ℕ) → length (entries jdump n) ≡ n
  unfolding entries
  length-entries zero = refl
  length-entries (suc n) =
      length-append (entries jdump n) (jdump (event n (balance n)) ∷ [])
      ∙ omega (arith, length-entries n)

  pub take-entries : (m n : ℕ) → m ≤ n → take m (entries jdump n) ≡ entries jdump m
  unfolding entries
  take-entries zero n le = refl
  take-entries (suc m) zero le = absurd (omega (arith, le))
  take-entries (suc m) (suc n) le = elim (dec_le (suc m) n) [
    | yes more ↦
        take-append_le (suc m) (entries jdump n) (jdump (event n (balance n)) ∷ [])
          (omega (arith, more, length-entries n))
        ∙ take-entries (suc m) n more
    | no end ↦
        let same : suc n ≡ suc m = omega (arith, end, le) in
        take-of_le (suc m) (entries jdump (suc n)) (omega (arith, end, le, length-entries (suc n)))
        ∙ ap (entries jdump) same
  ]
