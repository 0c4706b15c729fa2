-- ===== src/Codec/Header.antt =====
-- The header of a frame is read back from its eight bytes, and the other way round.
use durastream.Common.{
  ℕ, ◌+◌, ◌*◌, ◌/◌, ◌%◌, ◌^◌, ◌≤◌, ◌<◌, ◌≡◌, refl, ◌∷◌, ◌++◌, Bytes, length, take, arith,
}
use durastream.Codec.{pack_u32, header_unpack, header_size}

pub length-pack_u32 : (n : ℕ) → length (pack_u32 n) ≡ 4
unfolding pack_u32
length-pack_u32 n = refl

-- four bytes of a number below 2 ^ 32 add up to it again
u32_sum :
    (n : ℕ)
    → n < 2 ^ 32
    → n / 2 ^ 24 % 256 * 2 ^ 24 + n / 2 ^ 16 % 256 * 2 ^ 16 + n / 2 ^ 8 % 256 * 2 ^ 8 + n % 256 ≡ n
u32_sum n h = omega arith

pub header_unpack-pack :
    (len crc : ℕ) (rest : Bytes)
    → len < 2 ^ 32
    → crc < 2 ^ 32
    → header_unpack ((pack_u32 len ++ pack_u32 crc) ++ rest) ≡ (len, crc)
unfolding pack_u32 header_unpack
header_unpack-pack len crc rest h k = λ i. (u32_sum len h i, u32_sum crc k i)

-- only the first eight bytes count
pub header_unpack-take :
    (bytes : Bytes)
    → header_size ≤ length bytes
    → header_unpack (take header_size bytes) ≡ header_unpack bytes
unfolding header_unpack
header_unpack-take (a ∷ b ∷ c ∷ d ∷ e ∷ f ∷ g ∷ h ∷ rest) le = refl
header_unpack-take _ le = absurd (omega arith)
