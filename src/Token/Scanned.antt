-- ===== src/Token/Scanned.antt =====
-- What `from_token` and `int` of src/durastream/codec.py read in digits, with a sign or without.
use durastream.Common.{
  ℕ, suc, ◌+◌, ◌-◌, ◌*◌, ◌<◌, ◌≡◌, ◌≢◌, refl, ap, ◌∙◌, Bool, true, false, ◌&&◌, some, [], ◌∷◌, ◌++◌,
  Text, codes, length, replicate, arith, ◌==◌, if-false,
}
use durastream.Common.Int.{pos, negsuc}
use durastream.Texts.{text_eq, text_eq_iff}
use durastream.Errors.{ok}
use durastream.Common.{◌≤◌, if-true, le→leb}
use durastream.Token.{
  max_digits, digit_count, number_of, decimal, zfill, is_space, rstrip, strip, is_digit, int_digits,
  int_sign, int, from_token, result_of, map_some, negate,
}
use durastream.Token.Digits.{AllDigits, value, int_digits-value, decimal-cons}

-- no blank in a text
abbrev NoSpace : Text → Type 0
NoSpace [] = Unit
NoSpace (c ∷ t) = (is_space c ≡ false) × NoSpace t

NoSpace-digits : (t : Text) → AllDigits t → NoSpace t
NoSpace-digits [] h = tt
NoSpace-digits (c ∷ t) h = (not_space c h.0, NoSpace-digits t h.1)
  where
    not_space : (c : ℕ) → is_digit c ≡ true → is_space c ≡ false
    not_space c h = unfold is_digit is_space in ground arith

rstrip-NoSpace : (t : Text) → NoSpace t → rstrip t ≡ t
unfolding rstrip
rstrip-NoSpace [] h = refl
rstrip-NoSpace (c ∷ []) h = simp (h.0) refl
rstrip-NoSpace (c ∷ d ∷ t) h = rw (rstrip-NoSpace (d ∷ t) h.1, rstrip)

strip-NoSpace : (t : Text) → NoSpace t → strip t ≡ t
unfolding strip
strip-NoSpace [] h = refl
strip-NoSpace (c ∷ t) h = ap rstrip (if-false _ _ (h.0)) ∙ rstrip-NoSpace (c ∷ t) h

-- a digit is no sign
digit_ne :
    (c : ℕ)
    → is_digit c ≡ true
    → ((c == b'-') ≡ false) × ((c == b'+') ≡ false) × ((c == b'n') ≡ false)
unfolding is_digit
digit_ne c h = (ground arith, ground arith, ground arith)

int_digits-start :
    (c : ℕ) (t : Text) → AllDigits (c ∷ t) → int_digits 0 false (c ∷ t) ≡ some (value 0 (c ∷ t))
unfolding int_digits
int_digits-start c t h = rw (h.0, int_digits) (int_digits-value (0 * 10 + (c - b'0')) t h.1)

-- `zfill` of digits, and of digits behind a minus sign
pub zfill-digits :
    (w : ℕ) (t : Text) → t ≢ [] → AllDigits t → zfill w t ≡ replicate (w - length t) b'0' ++ t
unfolding zfill
zfill-digits w [] ne h = absurd (ne refl)
zfill-digits w (c ∷ t) ne h = simp ((digit_ne c h.0).0, (digit_ne c h.0).1) refl

pub zfill-minus :
    (w : ℕ) (t : Text) → zfill w (b'-' ∷ t) ≡ b'-' ∷ (replicate (w - suc (length t)) b'0' ++ t)
unfolding zfill
zfill-minus w t = refl

from_token-int :
    (t : Text) (next : ℕ)
    → strip t ≡ t
    → text_eq t (codes "-1") ≡ false
    → text_eq t (codes "now") ≡ false
    → digit_count t ≤ max_digits
    → from_token t next ≡ result_of (int_sign t)
unfolding from_token int number_of
from_token-int t next s a b few =
    rw (s, s)
      (if-false (ok (pos 0)) _ a
        ∙ if-false (ok (pos next)) _ b
        ∙ if-true (result_of (int_sign t)) _ (le→leb (digit_count t) max_digits few))

pub digit_count-digits : (t : Text) → AllDigits t → digit_count t ≡ length t
unfolding digit_count
digit_count-digits [] h = refl
digit_count-digits (c ∷ t) h = if-true _ _ (h.0) ∙ ap suc (digit_count-digits t h.1)

pub digit_count-minus : (t : Text) → digit_count (b'-' ∷ t) ≡ digit_count t
unfolding digit_count is_digit
digit_count-minus t = refl

-- a text of digits, not empty and within the limit, is read as its value
pub from_token-digits :
    (t : Text) (next : ℕ)
    → t ≢ []
    → AllDigits t
    → length t ≤ max_digits
    → from_token t next ≡ ok (pos (value 0 t))
from_token-digits [] next ne h few = absurd (ne refl)
from_token-digits (c ∷ t) next ne h few =
    from_token-int (c ∷ t) next (strip-NoSpace (c ∷ t) (NoSpace-digits (c ∷ t) h))
      (unfold text_eq in ap (λ b. b && text_eq t (codes "1")) minus)
      (unfold text_eq in ap (λ b. b && text_eq t (codes "ow")) now)
      (omega (arith, digit_count-digits (c ∷ t) h, few))
    ∙ ap result_of signed
  where
    minus : (c == b'-') ≡ false
    minus = (digit_ne c h.0).0

    now : (c == b'n') ≡ false
    now = (digit_ne c h.0).2

    signed : int_sign (c ∷ t) ≡ some (pos (value 0 (c ∷ t)))
    signed =
        unfold int_sign in
        if-false _ _ minus
        ∙ if-false _ _ ((digit_ne c h.0).1)
        ∙ ap (map_some pos) (int_digits-start c t h)

pub from_token-minus :
    (t : Text) (next m : ℕ)
    → 1 < length t
    → AllDigits t
    → value 0 t ≡ suc m
    → length t ≤ max_digits
    → from_token (b'-' ∷ t) next ≡ ok (negsuc m)
from_token-minus [] next m long h e few = absurd (omega arith)
from_token-minus (c ∷ t) next m long h e few =
    from_token-int (b'-' ∷ c ∷ t) next
      (strip-NoSpace (b'-' ∷ c ∷ t) (unfold is_space in refl, NoSpace-digits (c ∷ t) h))
      (no_match (text_eq (b'-' ∷ c ∷ t) (codes "-1")) refl) (unfold text_eq in refl)
      (omega (arith, digit_count-minus (c ∷ t), digit_count-digits (c ∷ t) h, few))
    ∙ ap result_of signed
  where
    no_match :
        (b : Bool)
        → text_eq (b'-' ∷ c ∷ t) (codes "-1") ≡ b
        → text_eq (b'-' ∷ c ∷ t) (codes "-1") ≡ false
    no_match false q = q
    no_match true q =
        absurd (omega (arith, ap (λ s. length s) ((text_eq_iff (b'-' ∷ c ∷ t) (codes "-1")).0 q)))

    signed : int_sign (b'-' ∷ c ∷ t) ≡ some (negsuc m)
    signed = unfold int_sign in ap (map_some negate) (int_digits-start c t h ∙ ap some e)

pub number_of-digits : (t : Text) → t ≢ [] → AllDigits t → number_of t ≡ ok (pos (value 0 t))
unfolding number_of int_sign
number_of-digits [] ne h = absurd (ne refl)
number_of-digits (c ∷ t) ne h =
    ap (λ u. result_of (int_sign u)) (strip-NoSpace (c ∷ t) (NoSpace-digits (c ∷ t) h))
    ∙ ap result_of (
        if-false _ _ ((digit_ne c h.0).0)
        ∙ if-false _ _ ((digit_ne c h.0).1)
        ∙ ap (map_some pos) (int_digits-start c t h))

pub decimal-ne : (n : ℕ) → decimal n ≢ []
decimal-ne n e = let (c, t, q) = decimal-cons n in cc

pub append-ne : (s t : Text) → t ≢ [] → s ++ t ≢ []
append-ne [] t h = h
append-ne (c ∷ s) t h = λ e. cc
