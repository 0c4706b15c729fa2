-- ===== src/Token/RoundTrip.antt =====
-- A token is read back as its offset.
use durastream.Common.{
  ℕ, suc, ◌+◌, ◌-◌, ◌<◌, ◌≡◌, ap, ◌∙◌, ◌++◌, Text, length, replicate, arith, if-false,
  length-append, length-replicate,
}
use durastream.Common.Int.{ℤ, pos, negsuc}
use durastream.Errors.{ok}
use durastream.Common.{◌≤◌, if-true, le→leb, gt→leb}
use durastream.Errors.{err, value_error, ◌>>=◌}
use durastream.Token.{
  max_digits, digit_count, digits_of, number_of, token_width, decimal, str, zfill, to_token,
  from_token,
}
use durastream.Token.Digits.{
  AllDigits-append, AllDigits-zeros, decimal-AllDigits, value-decimal, value-zeros,
}
use durastream.Token.Scanned.{
  zfill-digits, zfill-minus, digit_count-digits, digit_count-minus, from_token-digits,
  from_token-minus, number_of-digits, decimal-ne, append-ne,
}

-- the number of digits of an offset
abbrev pub digits_in : ℤ → ℕ
digits_in (pos n) = length (decimal n)
digits_in (negsuc n) = length (decimal (suc n))

digit_count-digits_of : (offset : ℤ) → digit_count (digits_of offset) ≡ digits_in offset
unfolding digits_of
digit_count-digits_of (pos n) = digit_count-digits (decimal n) (decimal-AllDigits n)
digit_count-digits_of (negsuc n) =
    digit_count-minus (decimal (suc n))
    ∙ digit_count-digits (decimal (suc n)) (decimal-AllDigits (suc n))

length-zeros : (k : ℕ) (t : Text) → length (replicate k b'0' ++ t) ≡ k + length t
length-zeros k t =
    length-append (replicate k b'0') t ∙ ap (λ n. n + length t) (length-replicate {A = ℕ} k b'0')

from_token-zfill :
    (offset : ℤ) (next : ℕ)
    → digits_in offset ≤ max_digits
    → from_token (zfill token_width (digits_of offset)) next ≡ ok offset
unfolding digits_of
from_token-zfill (pos n) next few =
    let digits = decimal-AllDigits n in
    let k = token_width - length (decimal n) in
    rw (zfill-digits token_width (decimal n) (decimal-ne n) digits) (
      from_token-digits (replicate k b'0' ++ decimal n) next
        (append-ne (replicate k b'0') (decimal n) (decimal-ne n))
        (AllDigits-append (replicate k b'0') (decimal n) (AllDigits-zeros k) digits)
        (omega (arith, few, length-zeros k (decimal n)))
      ∙ ap (λ m. ok (pos m)) (value-zeros k (decimal n) ∙ value-decimal n))
from_token-zfill (negsuc n) next few =
    let digits = decimal-AllDigits (suc n) in
    let k = token_width - suc (length (decimal (suc n))) in
    rw (zfill-minus token_width (decimal (suc n))) (
      from_token-minus (replicate k b'0' ++ decimal (suc n)) next n
        (omega (
          arith,
          length-append (replicate k b'0') (decimal (suc n)),
          length-replicate {A = ℕ} k b'0',
        ))
        (AllDigits-append (replicate k b'0') (decimal (suc n)) (AllDigits-zeros k) digits)
        (value-zeros k (decimal (suc n)) ∙ value-decimal (suc n))
        (omega (arith, few, length-zeros k (decimal (suc n)))))

pub to_token-ok :
    (offset : ℤ)
    → digits_in offset ≤ max_digits
    → to_token offset ≡ ok (zfill token_width (digits_of offset))
unfolding to_token str
to_token-ok offset few =
    ap (λ r. r >>= λ digits. ok (zfill token_width digits))
      (if-true (ok (digits_of offset)) _ (
        le→leb (digit_count (digits_of offset)) max_digits
          (omega (arith, few, digit_count-digits_of offset))))

-- Every offset of at most 4300 digits has a token, and is read back from it, whatever the end of the
-- stream is: also a negative one, and one of more digits than the token's width. An offset of more digits
-- has none: `to_token` raises a `ValueError`.
pub from_token-to_token :
    (offset : ℤ) (next : ℕ)
    → (digits_in offset ≤ max_digits
        → (token : Text) × (to_token offset ≡ ok token) × (from_token token next ≡ ok offset))
      × (max_digits < digits_in offset → to_token offset ≡ err value_error)
unfolding to_token str
from_token-to_token offset next = (
  λ few. (
    zfill token_width (digits_of offset),
    to_token-ok offset few,
    from_token-zfill offset next few,
  ),
  λ many.
      ap (λ r. r >>= λ digits. ok (zfill token_width digits))
        (if-false (ok (digits_of offset)) _ (
          gt→leb (digit_count (digits_of offset)) max_digits
            (omega (arith, many, digit_count-digits_of offset)))),
)

pub number_of-digits_of : (n : ℕ) → number_of (digits_of (pos n)) ≡ ok (pos n)
unfolding digits_of
number_of-digits_of n =
    number_of-digits (decimal n) (decimal-ne n) (decimal-AllDigits n)
    ∙ ap (λ m. ok (pos m)) (value-decimal n)
