-- ===== src/Token.antt =====
-- The offset tokens of src/durastream/codec.py: `to_token` and `from_token`, with what they use of
-- `str`, `str.zfill`, `str.strip` and `int` (for texts of ASCII characters).
pub mod Digits
pub mod RoundTrip
pub mod Scanned
pub mod Order
use durastream.Common.{
  ℕ, zero, suc, ◌+◌, ◌-◌, ◌*◌, ◌/◌, ◌%◌, ◌≡◌, refl, Bool, true, false, not, ◌&&◌, ◌||◌, Option,
  none, some, List, [], ◌∷◌, ◌++◌, Text, codes, length, replicate, ltb, leb, ◌==◌, if◌then◌else◌,
}
use durastream.Common.Int.{ℤ, pos, negsuc}
use durastream.Texts.{text_eq}
use durastream.Errors.{Result, ok, err, value_error, ◌>>=◌}

abbrev pub token_width : ℕ
token_width = 20

-- `str` of a natural number; a number has no more digits than its value and one
unfoldable pub decimal_fuel : ℕ → ℕ → Text
decimal_fuel zero n = []
decimal_fuel (suc fuel) n = elim (ltb n 10) [
  | true ↦ (b'0' + n) ∷ []
  | false ↦ decimal_fuel fuel (n / 10) ++ (b'0' + n % 10) ∷ []
]

unfoldable pub decimal : ℕ → Text
unfolding decimal_fuel
decimal n = decimal_fuel (suc n) n

unfoldable pub is_digit : ℕ → Bool
is_digit c = leb b'0' c && leb c b'9'

-- the digits of a number, with its sign
unfoldable pub digits_of : ℤ → Text
digits_of (pos n) = decimal n
digits_of (negsuc n) = b'-' ∷ decimal (suc n)

-- The number of digits up to which the interpreter converts, by default.
abbrev pub max_digits : ℕ
max_digits = 4300

unfoldable pub digit_count : Text → ℕ
unfolding is_digit
digit_count [] = 0
digit_count (c ∷ t) = if is_digit c then suc (digit_count t) else digit_count t

abbrev pub limited : {A : Type 0} → Text → Result A → Result A
limited t r = if leb (digit_count t) max_digits then r else err value_error

unfoldable pub str : ℤ → Result Text
unfolding digits_of
str n = limited (digits_of n) (ok (digits_of n))

-- `zfill`: zeros go behind a sign
unfoldable pub zfill : ℕ → Text → Text
zfill width [] = replicate width b'0'
zfill width (c ∷ t) =
    if c == b'-' || c == b'+'
    then c ∷ (replicate (width - length (c ∷ t)) b'0' ++ t)
    else replicate (width - length (c ∷ t)) b'0' ++ c ∷ t

unfoldable pub to_token : ℤ → Result Text
unfolding str
to_token offset = str offset >>= λ digits. ok (zfill token_width digits)

unfoldable pub is_space : ℕ → Bool
is_space c = (leb 9 c && leb c 13) || (leb 28 c && leb c 32)

unfoldable pub lstrip : Text → Text
unfolding is_space
lstrip [] = []
lstrip (c ∷ t) = if is_space c then lstrip t else c ∷ t

-- the text without the blanks at its end
unfoldable pub rstrip : Text → Text
unfolding is_space
rstrip [] = []
rstrip (c ∷ t) = elim (rstrip t) [ [] ↦ if is_space c then [] else c ∷ [] | d ∷ r ↦ c ∷ d ∷ r ]

unfoldable pub strip : Text → Text
unfolding lstrip rstrip
strip t = rstrip (lstrip t)

-- The digits of `int`: one underscore may stand between two. `behind` says that a digit stands before.
unfoldable pub int_digits : ℕ → Bool → Text → Option ℕ
unfolding is_digit
int_digits n behind [] = if behind then some n else none
int_digits n behind (c ∷ t) = elim (is_digit c) [
  | true ↦ int_digits (n * 10 + (c - b'0')) true t
  | false ↦ elim (behind && c == b'_') [ true ↦ int_digits n false t | false ↦ none ]
]

abbrev pub negate : ℕ → ℤ
negate zero = pos zero
negate (suc n) = negsuc n

abbrev pub result_of : Option ℤ → Result ℤ
result_of none = err value_error
result_of (some n) = ok n

abbrev pub map_some : (ℕ → ℤ) → Option ℕ → Option ℤ
map_some f none = none
map_some f (some n) = some (f n)

unfoldable pub int_sign : Text → Option ℤ
int_sign [] = none
int_sign (c ∷ t) =
    if c == b'-'
    then map_some negate (int_digits 0 false t)
    else if c == b'+'
    then map_some pos (int_digits 0 false t)
    else map_some pos (int_digits 0 false (c ∷ t))

-- what `int` reads, without its limit
unfoldable pub number_of : Text → Result ℤ
number_of t = result_of (int_sign (strip t))

unfoldable pub int : Text → Result ℤ
unfolding digit_count number_of
int t = limited t (number_of t)

unfoldable pub from_token : Text → ℕ → Result ℤ
from_token token next_offset =
    let t = strip token in
    if text_eq t (codes "-1")
    then ok (pos 0)
    else if text_eq t (codes "now")
    then ok (pos next_offset)
    else int t
