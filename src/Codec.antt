-- ===== src/Codec.antt =====
-- src/durastream/codec.py, the frames: `pack_frame` writes one, `iter_frames` reads them back. The
-- offset tokens of the same file are in Codec/Token.
pub mod Header
pub mod Decode
pub mod Frames
pub mod Sound
pub mod Crc32
pub mod Tests
use durastream.Common.{
  ℕ, zero, suc, ◌+◌, ◌-◌, ◌*◌, ◌/◌, ◌%◌, ◌^◌, ◌≤◌, ◌<◌, ◌≡◌, Bool, true, false, not, ◌||◌, List, [],
  ◌∷◌, ◌++◌, Bytes, length, take, drop, ltb, leb, ◌==◌, if◌then◌else◌,
}
use durastream.Errors.{Result, ok, err, value_error, struct_error, ◌>>=◌}

-- The checksum of the zlib module, which returns an unsigned 32-bit integer.
pub record Zlib : Type 0 where
  pub crc32 : Bytes → ℕ
  pub crc32-lt : (b : Bytes) → crc32 b < 2 ^ 32

abbrev pub header_size : ℕ
header_size = 8

abbrev pub max_payload : ℕ
max_payload = 0xFFFF_FFFF

-- `I` of the format ">II": four bytes, the most significant first.
unfoldable pub pack_u32 : ℕ → Bytes
pack_u32 n = n / 2 ^ 24 % 256 ∷ n / 2 ^ 16 % 256 ∷ n / 2 ^ 8 % 256 ∷ n % 256 ∷ []

-- `HEADER.pack`, which refuses a number that has no four bytes
unfoldable pub header_pack : ℕ → ℕ → Result Bytes
header_pack len crc =
    if ltb len (2 ^ 32)
    then if ltb crc (2 ^ 32) then ok (pack_u32 len ++ pack_u32 crc) else err struct_error
    else err struct_error

-- `HEADER.unpack`: the length and the checksum; the callers pass eight bytes at least
unfoldable pub header_unpack : Bytes → ℕ × ℕ
header_unpack (a ∷ b ∷ c ∷ d ∷ e ∷ f ∷ g ∷ h ∷ _) =
    (a * 2 ^ 24 + b * 2 ^ 16 + c * 2 ^ 8 + d, e * 2 ^ 24 + f * 2 ^ 16 + g * 2 ^ 8 + h)
header_unpack _ = (0, 0)

abbrev pub slice : Bytes → ℕ → ℕ → Bytes
slice bytes i j = take (j - i) (drop i bytes)

module _ ⦃z : Zlib⦄ where
  unfoldable pub pack_frame : Bytes → Result Bytes
  unfolding header_pack
  pack_frame payload =
      if ltb max_payload (length payload)
      then err value_error
      else do header ← header_pack (length payload) (z.crc32 payload); ok (header ++ payload)

  -- The rounds of the loop in `iter_frames`, with fuel.
  unfoldable pub frames_from : ℕ → Bytes → ℕ → List (Bytes × ℕ)
  frames_from zero bytes pos = []
  frames_from (suc fuel) bytes pos =
      let header = header_unpack (drop pos bytes) in
      let end = pos + header_size + header.0 in
      let payload = slice bytes (pos + header_size) end in
      let rest = frames_from fuel bytes end in
      if leb (pos + header_size) (length bytes)
      then if ltb (length bytes) end
        then []
        else if not (z.crc32 payload == header.1)
        then []
        else (payload, end) ∷ rest
      else []

  -- Each round moves on by eight bytes at least, so as many rounds as there are bytes are enough.
  unfoldable pub iter_frames : Bytes → List (Bytes × ℕ)
  unfolding frames_from
  iter_frames bytes = frames_from (length bytes) bytes 0

  -- One frame for each payload of a batch (in `_append_locked` of stream.py).
  unfoldable pub pack_frames : List Bytes → Result (List Bytes)
  pack_frames [] = ok []
  pack_frames (p ∷ ps) = do frame ← pack_frame p; frames ← pack_frames ps; ok (frame ∷ frames)

-- `b"".join`
unfoldable pub join : List Bytes → Bytes
join [] = []
join (b ∷ bs) = b ++ join bs
