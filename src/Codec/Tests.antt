-- ===== src/Codec/Tests.antt =====
-- Frames on concrete bytes.
use durastream.Common.{◌≡◌, refl, List, [], ◌∷◌, ◌++◌, Bytes, arith, codes, take, map}
use durastream.Errors.{ok}
use durastream.Codec.{
  pack_u32, frames_from, header_unpack, pack_frame, iter_frames, pack_frames, join,
}
use durastream.Codec.Crc32.{crc_32, zlib}
use durastream.Codec.Decode.{frame, encode, with_ends, AllFit}
use durastream.Codec.Frames.{
  pack_frames-ok, iter_frames-pack, whole, iter_frames-cut, frames_from-enough,
}
use durastream.Codec.Sound.{iter_frames_sound}

hi_frame :
    pack_frame (codes "hi") ≡ ok (0 ∷ 0 ∷ 0 ∷ 2 ∷ 0xD8 ∷ 0x93 ∷ 0x2A ∷ 0xAC ∷ b'h' ∷ b'i' ∷ [])
unfolding pack_frame pack_u32 crc_32
hi_frame = refl

abbrev two : List Bytes
two = codes "hi" ∷ codes "" ∷ []

two_frames : pack_frames two ≡ ok (map frame two)
two_frames = pack_frames-ok two (omega arith)

iter_frames-pack_example : iter_frames (join (map frame two)) ≡ with_ends 0 two
iter_frames-pack_example = iter_frames-pack two two_frames

-- a header alone is not a record
iter_frames-cut_example : iter_frames (take 12 (join (map frame two))) ≡ with_ends 0 (whole 12 two)
iter_frames-cut_example = iter_frames-cut two 12 two_frames

frames_from-enough_example : frames_from 99 (codes "abc") 0 ≡ iter_frames (codes "abc")
frames_from-enough_example = frames_from-enough 99 (codes "abc") (omega arith)

abbrev frame_and_tail : Bytes
frame_and_tail = 0 ∷ 0 ∷ 0 ∷ 2 ∷ 0xD8 ∷ 0x93 ∷ 0x2A ∷ 0xAC ∷ b'h' ∷ b'i' ∷ 0 ∷ []

iter_frames_sound_example :
    (ps : List Bytes) × (tail : Bytes) × (iter_frames frame_and_tail ≡ with_ends 0 ps)
    × AllFit ps
    × (encode ps ++ tail ≡ frame_and_tail)
iter_frames_sound_example = iter_frames_sound frame_and_tail (omega arith)

frame_and_tail_frames : iter_frames frame_and_tail ≡ (codes "hi", 10) ∷ []
unfolding iter_frames header_unpack crc_32
frame_and_tail_frames = refl
