-- ===== src/Token/Order.antt =====
-- Tokens of one width sort as their offsets do.
use durastream.Common.{
  ℕ, zero, suc, ◌+◌, ◌-◌, ◌/◌, ◌%◌, ◌^◌, ◌≤◌, ◌<◌, ◌≡◌, refl, sym, ap, ap₂, ◌∙◌, ◌&&◌, ◌||◌, [],
  ◌∷◌, ◌++◌, append_assoc, Text, length, replicate, ltb, ◌==◌, arith, length-append, dec_lt,
}
use native.Mathlib.Nat.{pow-suc}
use durastream.Common.Int.{pos}
use durastream.Texts.{text_eq, text_lt}
use durastream.Token.{token_width, decimal, to_token}
use durastream.Token.Digits.{decimal-small, decimal-large, decimal-AllDigits}
use durastream.Errors.{ok}
use durastream.Common.{length-replicate}
use durastream.Token.{max_digits, digits_of, zfill}
use durastream.Token.RoundTrip.{to_token-ok}
use durastream.Token.Scanned.{zfill-digits, decimal-ne}

-- the last `k` digits of a number
abbrev pad_digits : ℕ → ℕ → Text
pad_digits zero n = []
pad_digits (suc k) n = pad_digits k (n / 10) ++ (b'0' + n % 10) ∷ []

length-pad_digits : (k n : ℕ) → length (pad_digits k n) ≡ k
length-pad_digits zero n = refl
length-pad_digits (suc k) n = omega (
  arith,
  length-append (pad_digits k (n / 10)) ((b'0' + n % 10) ∷ []),
  length-pad_digits k (n / 10),
)

replicate-snoc : (k c : ℕ) → replicate k c ++ c ∷ [] ≡ replicate (suc k) c
replicate-snoc zero c = refl
replicate-snoc (suc k) c = ap (λ t. c ∷ t) (replicate-snoc k c)

pad_digits-zero : (k : ℕ) → pad_digits k 0 ≡ replicate k b'0'
pad_digits-zero zero = refl
pad_digits-zero (suc k) = ap (λ t. t ++ b'0' ∷ []) (pad_digits-zero k) ∙ replicate-snoc k b'0'

small-pad :
    (k n : ℕ) → n < 10 → replicate (suc k - 1) b'0' ++ (b'0' + n) ∷ [] ≡ pad_digits (suc k) n
small-pad k n h = λ i. front i ++ (b'0' + digit i) ∷ []
  where
    tenth : n / 10 ≡ 0
    tenth = omega arith

    digit : n ≡ n % 10
    digit = omega arith

    zeros : suc k - 1 ≡ k
    zeros = omega arith

    front : replicate (suc k - 1) b'0' ≡ pad_digits k (n / 10)
    front =
        ap (λ m. replicate m b'0') zeros ∙ sym (pad_digits-zero k) ∙ ap (pad_digits k) (sym tenth)

large-step :
    (k n : ℕ)
    → 10 ≤ n
    → replicate (suc k - length (decimal (n / 10))) b'0' ++ decimal (n / 10)
      ≡ pad_digits (suc k) (n / 10)
    → replicate (suc (suc k) - length (decimal n)) b'0' ++ decimal n ≡ pad_digits (suc (suc k)) n
large-step k n h ih =
    let last = (b'0' + n % 10) ∷ [] in
    let m = suc k - length (decimal (n / 10)) in
    let e : suc (suc k) - length (decimal (n / 10) ++ last) ≡ m =
      omega (arith, length-append (decimal (n / 10)) last) in
    rw (decimal-large n h, e)
      (sym (append_assoc (replicate m b'0') (decimal (n / 10)) last) ∙ ap (λ t. t ++ last) ih)

-- a number of at most `k + 1` digits, filled up with zeros
zeros-decimal :
    (k n : ℕ)
    → n < 10 ^ suc k
    → replicate (suc k - length (decimal n)) b'0' ++ decimal n ≡ pad_digits (suc k) n
zeros-decimal zero n h = rw (decimal-small n (omega arith)) (small-pad 0 n (omega arith))
zeros-decimal (suc k) n h = elim (dec_lt n 10) [
  | yes small ↦ rw (decimal-small n small) (small-pad (suc k) n small)
  | no large ↦
      large-step k n (omega arith) (zeros-decimal k (n / 10) (omega (arith, pow-suc 10 (suc k))))
]

-- texts of one length are compared by their fronts, and then by their last characters
text_lt-snoc :
    (s t : Text) (c d : ℕ)
    → length s ≡ length t
    → text_lt (s ++ c ∷ []) (t ++ d ∷ []) ≡ text_lt s t || (text_eq s t && ltb c d)
unfolding text_lt text_eq
text_lt-snoc [] [] c d e = ground arith
text_lt-snoc [] (b ∷ t) c d e = absurd (omega arith)
text_lt-snoc (a ∷ s) [] c d e = absurd (omega arith)
text_lt-snoc (a ∷ s) (b ∷ t) c d e = ground (arith, text_lt-snoc s t c d (omega arith))

text_eq-snoc :
    (s t : Text) (c d : ℕ)
    → length s ≡ length t
    → text_eq (s ++ c ∷ []) (t ++ d ∷ []) ≡ text_eq s t && c == d
unfolding text_eq
text_eq-snoc [] [] c d e = ground arith
text_eq-snoc [] (b ∷ t) c d e = absurd (omega arith)
text_eq-snoc (a ∷ s) [] c d e = absurd (omega arith)
text_eq-snoc (a ∷ s) (b ∷ t) c d e = ground (arith, text_eq-snoc s t c d (omega arith))

-- the tenths and the last digits decide
eq-digits : (a b : ℕ) → (a / 10 == b / 10) && (b'0' + a % 10 == b'0' + b % 10) ≡ a == b
eq-digits a b = ground arith

lt-digits :
    (a b : ℕ)
    → ltb (a / 10) (b / 10) || ((a / 10 == b / 10) && ltb (b'0' + a % 10) (b'0' + b % 10)) ≡ ltb a b
lt-digits a b = ground arith

text_eq-pad :
    (k a b : ℕ) → a < 10 ^ k → b < 10 ^ k → text_eq (pad_digits k a) (pad_digits k b) ≡ (a == b)
text_eq-pad zero a b h k = unfold text_eq in ground arith
text_eq-pad (suc n) a b h k =
    let same = length-pad_digits n (a / 10) ∙ sym (length-pad_digits n (b / 10)) in
    text_eq-snoc (pad_digits n (a / 10)) (pad_digits n (b / 10)) (b'0' + a % 10) (b'0' + b % 10)
      same
    ∙ ap (λ t. t && (b'0' + a % 10 == b'0' + b % 10))
        (text_eq-pad n (a / 10) (b / 10) (omega (arith, pow-suc 10 n))
          (omega (arith, pow-suc 10 n)))
    ∙ eq-digits a b

text_lt-pad :
    (k a b : ℕ) → a < 10 ^ k → b < 10 ^ k → text_lt (pad_digits k a) (pad_digits k b) ≡ ltb a b
text_lt-pad zero a b h k = unfold text_lt in ground arith
text_lt-pad (suc n) a b h k =
    let same = length-pad_digits n (a / 10) ∙ sym (length-pad_digits n (b / 10)) in
    let small_a : a / 10 < 10 ^ n = omega (arith, pow-suc 10 n) in
    let small_b : b / 10 < 10 ^ n = omega (arith, pow-suc 10 n) in
    text_lt-snoc (pad_digits n (a / 10)) (pad_digits n (b / 10)) (b'0' + a % 10) (b'0' + b % 10)
      same
    ∙ ap₂ (λ t u. t || (u && ltb (b'0' + a % 10) (b'0' + b % 10)))
        (text_lt-pad n (a / 10) (b / 10) small_a small_b)
        (text_eq-pad n (a / 10) (b / 10) small_a small_b)
    ∙ lt-digits a b

token-pad : (n : ℕ) → n < 10 ^ 20 → zfill token_width (digits_of (pos n)) ≡ pad_digits 20 n
unfolding digits_of
token-pad n h =
    zfill-digits token_width (decimal n) (decimal-ne n) (decimal-AllDigits n) ∙ zeros-decimal 19 n h

-- no more digits than the token is wide
digits_in-small : (n : ℕ) → n < 10 ^ 20 → length (decimal n) ≤ max_digits
digits_in-small n h = omega (
  arith,
  ap (λ t. length t) (zeros-decimal 19 n h),
  length-append (replicate (20 - length (decimal n)) b'0') (decimal n),
  length-replicate {A = ℕ} (20 - length (decimal n)) b'0',
  length-pad_digits 20 n,
)

to_token-pad : (n : ℕ) → n < 10 ^ 20 → to_token (pos n) ≡ ok (pad_digits 20 n)
to_token-pad n h = to_token-ok (pos n) (digits_in-small n h) ∙ ap ok (token-pad n h)

-- Two offsets below 10 ^ 20 have tokens, which have the token's width, and sort as texts in the order of
-- the offsets.
pub to_token-order :
    (a b : ℕ)
    → a < 10 ^ 20
    → b < 10 ^ 20
    → (s t : Text) × (to_token (pos a) ≡ ok s)
      × (to_token (pos b) ≡ ok t)
      × (length s ≡ token_width)
      × (length t ≡ token_width)
      × (text_lt s t ≡ ltb a b)
to_token-order a b h k = (
  pad_digits 20 a,
  pad_digits 20 b,
  to_token-pad a h,
  to_token-pad b k,
  length-pad_digits 20 a,
  length-pad_digits 20 b,
  text_lt-pad 20 a b h k,
)
