-- ===== src/Codec/Crc32.antt =====
-- A checksum that meets the interface `Zlib`: CRC-32 (polynomial 0xEDB88320, reflected), bit by bit.
-- The theorems hold for every such checksum; tests and witnesses run with this one.
use Prim.Native.Nat.{bit_xor}
use durastream.Common.{
  ℕ, zero, suc, ◌/◌, ◌%◌, ◌^◌, ◌<◌, ◌≡◌, refl, [], ◌∷◌, Bytes, arith, ◌==◌, if◌then◌else◌, codes,
}
use durastream.Codec.{Zlib}

crc_bits : ℕ → ℕ → ℕ
crc_bits zero c = c
crc_bits (suc n) c = crc_bits n (if c % 2 == 1 then bit_xor 0xEDB88320 (c / 2) else c / 2)

crc_bytes : ℕ → Bytes → ℕ
unfolding crc_bits
crc_bytes c [] = c
crc_bytes c (b ∷ bs) = crc_bytes (bit_xor (crc_bits 8 (bit_xor c b % 256)) (c / 256)) bs

unfoldable pub crc_32 : Bytes → ℕ
unfolding crc_bytes
crc_32 bytes = bit_xor (crc_bytes 0xFFFF_FFFF bytes) 0xFFFF_FFFF % 2 ^ 32

pub crc_32-lt : (b : Bytes) → crc_32 b < 2 ^ 32
unfolding crc_32
crc_32-lt b = omega arith

instance abbrev pub zlib : Zlib
zlib = record { crc32 = crc_32; crc32-lt = crc_32-lt }

check_value : crc_32 (codes "123456789") ≡ 0xCBF43926
unfolding crc_32
check_value = refl
