-- ===== src/Token/Digits.antt =====
-- The decimal digits of a number.
use durastream.Common.{
  ℕ, zero, suc, ◌+◌, ◌-◌, ◌*◌, ◌/◌, ◌%◌, ◌≤◌, ◌<◌, ◌≡◌, refl, sym, ap, ◌∙◌, true, some, [], ◌∷◌,
  ◌++◌, Text, replicate, lt→ltb, ge→ltb, arith, dec_lt,
}
use durastream.Token.{decimal_fuel, decimal, is_digit, int_digits}

abbrev pub AllDigits : Text → Type 0
AllDigits [] = Unit
AllDigits (c ∷ t) = (is_digit c ≡ true) × AllDigits t

pub AllDigits-append : (s t : Text) → AllDigits s → AllDigits t → AllDigits (s ++ t)
AllDigits-append [] t h k = k
AllDigits-append (c ∷ s) t h k = (h.0, AllDigits-append s t h.1 k)

-- the number that digits spell behind `n`
abbrev pub value : ℕ → Text → ℕ
value n [] = n
value n (c ∷ t) = value (n * 10 + (c - b'0')) t

pub value-append : (n : ℕ) (s t : Text) → value n (s ++ t) ≡ value (value n s) t
value-append n [] t = refl
value-append n (c ∷ s) t = value-append (n * 10 + (c - b'0')) s t

-- `int` reads digits as their value
pub int_digits-value : (n : ℕ) (t : Text) → AllDigits t → int_digits n true t ≡ some (value n t)
unfolding int_digits
int_digits-value n [] h = refl
int_digits-value n (c ∷ t) h = rw (h.0, int_digits) (int_digits-value (n * 10 + (c - b'0')) t h.1)

-- enough fuel
decimal_fuel-small : (f n : ℕ) → n < 10 → decimal_fuel (suc f) n ≡ (b'0' + n) ∷ []
unfolding decimal_fuel
decimal_fuel-small f n h = rw (lt→ltb n 10 h, decimal_fuel)

decimal_fuel-large :
    (f n : ℕ) → 10 ≤ n → decimal_fuel (suc f) n ≡ decimal_fuel f (n / 10) ++ (b'0' + n % 10) ∷ []
unfolding decimal_fuel
decimal_fuel-large f n h = rw (ge→ltb n 10 h, decimal_fuel)

decimal_fuel-same : (f g n : ℕ) → n < f → n < g → decimal_fuel f n ≡ decimal_fuel g n
decimal_fuel-same zero g n h k = elim h [ ]
decimal_fuel-same (suc f) zero n h k = elim k [ ]
decimal_fuel-same (suc f) (suc g) n h k = elim (dec_lt n 10) [
  | yes small ↦ decimal_fuel-small f n small ∙ sym (decimal_fuel-small g n small)
  | no large ↦
      decimal_fuel-large f n (omega arith)
      ∙ ap (λ t. t ++ (b'0' + n % 10) ∷ [])
          (decimal_fuel-same f g (n / 10) (omega arith) (omega arith))
      ∙ sym (decimal_fuel-large g n (omega arith))
]

pub decimal-small : (n : ℕ) → n < 10 → decimal n ≡ (b'0' + n) ∷ []
unfolding decimal
decimal-small n h = decimal_fuel-small n n h

-- The digits of a number are those of its tenth, and its last digit.
pub decimal-large : (n : ℕ) → 10 ≤ n → decimal n ≡ decimal (n / 10) ++ (b'0' + n % 10) ∷ []
unfolding decimal
decimal-large n h =
    decimal_fuel-large n n h
    ∙ ap (λ t. t ++ (b'0' + n % 10) ∷ [])
        (decimal_fuel-same n (suc (n / 10)) (n / 10) (omega arith) (omega arith))

is_digit-digit : (d : ℕ) → d < 10 → is_digit (b'0' + d) ≡ true
unfolding is_digit
is_digit-digit d h = ground arith

-- Strong induction on the digits: a statement that goes from `n / 10` to `n`.
pub by_digits {ℓ} :
    (P : ℕ → Type ℓ)
    → ((n : ℕ) → n < 10 → P n)
    → ((n : ℕ) → 10 ≤ n → P (n / 10) → P n)
    → (n : ℕ) → P n
by_digits P small large n = go (suc n) n (omega arith)
  where
    go : (f m : ℕ) → m < f → P m
    go zero m h = elim h [ ]
    go (suc f) m h = elim (dec_lt m 10) [
      | yes lt ↦ small m lt
      | no ge ↦ large m (omega arith) (go f (m / 10) (omega arith))
    ]

pub decimal-AllDigits : (n : ℕ) → AllDigits (decimal n)
decimal-AllDigits =
    by_digits (λ n. AllDigits (decimal n)) (λ n h. rw (decimal-small n h) (is_digit-digit n h, tt))
      (λ n h ih.
        rw (decimal-large n h)
          (AllDigits-append (decimal (n / 10)) _ ih (is_digit-digit (n % 10) (omega arith), tt)))

pub value-decimal : (n : ℕ) → value 0 (decimal n) ≡ n
value-decimal =
    by_digits (λ n. value 0 (decimal n) ≡ n) (λ n h. rw (decimal-small n h) (omega arith))
      (λ n h ih.
        rw (decimal-large n h, value-append 0 (decimal (n / 10)) ((b'0' + n % 10) ∷ []), ih)
          (omega arith))

pub AllDigits-zeros : (k : ℕ) → AllDigits (replicate k b'0')
AllDigits-zeros zero = tt
AllDigits-zeros (suc k) = (is_digit-digit 0 (omega arith), AllDigits-zeros k)

pub value-zeros : (k : ℕ) (t : Text) → value 0 (replicate k b'0' ++ t) ≡ value 0 t
value-zeros zero t = refl
value-zeros (suc k) t = value-zeros k t

-- a number has a digit
pub decimal-cons : (n : ℕ) → (c : ℕ) × (t : Text) × (decimal n ≡ c ∷ t)
decimal-cons =
    by_digits (λ n. (c : ℕ) × (t : Text) × (decimal n ≡ c ∷ t))
      (λ n h. (b'0' + n, [], decimal-small n h))
      (λ n h ih. (
        ih.0,
        ih.1 ++ (b'0' + n % 10) ∷ [],
        decimal-large n h ∙ ap (λ t. t ++ (b'0' + n % 10) ∷ []) ih.2,
      ))
