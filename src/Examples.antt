-- ===== src/Examples.antt =====
-- Runs and instances of the small modules: names, tokens, the scan of a log.
use durastream.Common.{ℕ, ◌≡◌, refl, [], ◌∷◌, ◌++◌, map, Bytes, codes, length, take, arith, true}
use durastream.Common.Int.{pos, negsuc}
use durastream.Errors.{ok, err, value_error}
use durastream.Codec.{iter_frames, header_unpack}
use durastream.Codec.Crc32.{crc_32, zlib}
use durastream.Scan.{scan, scan-iter_frames}
use durastream.Names.{check_name, log_path, log_path-injective, log_path-inside, directory, NoSlash}
use durastream.Texts.{text_eq, text_lt}
use durastream.Common.{◌≤◌, ◌<◌, Text}
use durastream.Token.{
  max_digits, digits_of, digit_count, number_of, to_token, from_token, str, decimal, zfill, strip,
  int, int_sign, int_digits, token_width,
}
use durastream.Token.RoundTrip.{digits_in, from_token-to_token}
use durastream.Token.Order.{to_token-order}

accepted : check_name (codes "orders-1.x_y") ≡ ok (codes "orders-1.x_y")
unfolding check_name
accepted = refl

refused :
    (check_name (codes "Orders") ≡ err value_error)
    × (check_name (codes "a/b") ≡ err value_error)
    × (check_name [] ≡ err value_error)
unfolding check_name
refused = (refl, refl, refl)

path_of : log_path (codes "data/streams") (codes "a") ≡ codes "data/streams/a.log"
unfolding log_path
path_of = refl

-- a name that is not checked may lead out of the directory
path_outside : log_path (codes "data/streams") (codes "/etc/x") ≡ codes "/etc/x.log"
unfolding log_path
path_outside = refl

log_path-injective_example : codes "orders-1.x_y" ≡ codes "orders-1.x_y"
log_path-injective_example =
    log_path-injective (codes "d") (codes "orders-1.x_y") (codes "orders-1.x_y") accepted accepted
      refl

log_path-inside_example :
    (log_path (codes "d") (codes "orders-1.x_y")
      ≡ directory (codes "d") ++ (codes "orders-1.x_y" ++ codes ".log"))
    × NoSlash (codes "orders-1.x_y" ++ codes ".log")
log_path-inside_example = log_path-inside (codes "d") (codes "orders-1.x_y") accepted

token_of_one : to_token (pos 1) ≡ ok (codes "00000000000000000001")
unfolding to_token str digits_of digit_count decimal zfill
token_of_one = refl

token_of_minus : to_token (negsuc 0) ≡ ok (codes "-0000000000000000001")
unfolding to_token str digits_of digit_count decimal zfill
token_of_minus = refl

sentinels :
    (from_token (codes " -1 ") 5 ≡ ok (pos 0))
    × (from_token (codes "now") 5 ≡ ok (pos 5))
    × (from_token (codes "x") 5 ≡ err value_error)
    × (from_token (codes "1_0") 5 ≡ ok (pos 10))
unfolding from_token text_eq strip int digit_count number_of int_sign int_digits
sentinels = (refl, refl, refl, refl)

from_token-to_token_example :
    (digits_in (negsuc 0) ≤ max_digits
      → (token : Text) × (to_token (negsuc 0) ≡ ok token) × (from_token token 9 ≡ ok (negsuc 0)))
    × (max_digits < digits_in (negsuc 0) → to_token (negsuc 0) ≡ err value_error)
from_token-to_token_example = from_token-to_token (negsuc 0) 9

to_token-order_example :
    (s t : Text) × (to_token (pos 9) ≡ ok s)
    × (to_token (pos 10) ≡ ok t)
    × (length s ≡ token_width)
    × (length t ≡ token_width)
    × (text_lt s t ≡ true)
to_token-order_example = to_token-order 9 10 (omega arith) (omega arith)

abbrev log : Bytes
log = 0 ∷ 0 ∷ 0 ∷ 2 ∷ 0xD8 ∷ 0x93 ∷ 0x2A ∷ 0xAC ∷ b'h' ∷ b'i' ∷ 0 ∷ []

scan-iter_frames_example :
    scan log 11 ≡ 0 ∷ map (λ (f : Bytes × ℕ). f.1) (iter_frames (take 11 log))
scan-iter_frames_example = scan-iter_frames log 11

scan_runs : scan log 11 ≡ 0 ∷ 10 ∷ []
unfolding scan header_unpack crc_32
scan_runs = refl
