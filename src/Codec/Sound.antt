-- ===== src/Codec/Sound.antt =====
-- Nothing is invented: the bytes begin with the frames of what they decode to.
use durastream.Common.{
  ℕ, zero, suc, ◌+◌, ◌*◌, ◌/◌, ◌%◌, ◌^◌, ◌≤◌, ◌<◌, ◌≡◌, refl, sym, ap, ◌∙◌, some, List, [], ◌∷◌,
  ◌++◌, append_assoc, Bytes, length, take, drop, length-drop, length-take, take-append-drop,
  drop-drop, arith, Option-cases, inl, inr,
}
use durastream.Codec.{Zlib, header_size, pack_u32, header_unpack}
use durastream.Codec.Frames.{iter_frames-eq}
use durastream.Codec.{iter_frames}
use durastream.Codec.Decode.{
  with_ends, Fits, AllFit, size, frame, encode, first_frame, decode_fuel, decode,
}

-- A byte string of a file holds bytes.
abbrev pub AreBytes : Bytes → Type 0
AreBytes [] = Unit
AreBytes (b ∷ bs) = (b < 256) × AreBytes bs

pub AreBytes-drop : (n : ℕ) (bytes : Bytes) → AreBytes bytes → AreBytes (drop n bytes)
AreBytes-drop zero bytes h = h
AreBytes-drop (suc n) [] h = tt
AreBytes-drop (suc n) (b ∷ bs) h = AreBytes-drop n bs h.1

pub AreBytes-take : (n : ℕ) (bytes : Bytes) → AreBytes bytes → AreBytes (take n bytes)
AreBytes-take zero bytes h = tt
AreBytes-take (suc n) [] h = tt
AreBytes-take (suc n) (b ∷ bs) h = (h.0, AreBytes-take n bs h.1)

pub AreBytes-append : (xs ys : Bytes) → AreBytes xs → AreBytes ys → AreBytes (xs ++ ys)
AreBytes-append [] ys h k = k
AreBytes-append (x ∷ xs) ys h k = (h.0, AreBytes-append xs ys h.1 k)

pack_u32-sum :
    (a b c d : ℕ)
    → a < 256
    → b < 256
    → c < 256
    → d < 256
    → pack_u32 (a * 2 ^ 24 + b * 2 ^ 16 + c * 2 ^ 8 + d) ≡ a ∷ b ∷ c ∷ d ∷ []
unfolding pack_u32
pack_u32-sum a b c d ha hb hc hd = λ i. at_a i ∷ at_b i ∷ at_c i ∷ at_d i ∷ []
  where
    at_a : (a * 2 ^ 24 + b * 2 ^ 16 + c * 2 ^ 8 + d) / 2 ^ 24 % 256 ≡ a
    at_a = omega arith

    at_b : (a * 2 ^ 24 + b * 2 ^ 16 + c * 2 ^ 8 + d) / 2 ^ 16 % 256 ≡ b
    at_b = omega arith

    at_c : (a * 2 ^ 24 + b * 2 ^ 16 + c * 2 ^ 8 + d) / 2 ^ 8 % 256 ≡ c
    at_c = omega arith

    at_d : (a * 2 ^ 24 + b * 2 ^ 16 + c * 2 ^ 8 + d) % 256 ≡ d
    at_d = omega arith

header_unpack-lt : (bytes : Bytes) → AreBytes bytes → (header_unpack bytes).0 < 2 ^ 32
unfolding header_unpack
header_unpack-lt (a ∷ b ∷ c ∷ d ∷ e ∷ f ∷ g ∷ h ∷ rest) k = omega arith
header_unpack-lt _ k = omega arith

pack-header_unpack :
    (bytes : Bytes)
    → AreBytes bytes
    → header_size ≤ length bytes
    → pack_u32 (header_unpack bytes).0 ++ pack_u32 (header_unpack bytes).1 ≡ take header_size bytes
unfolding header_unpack
pack-header_unpack (a ∷ b ∷ c ∷ d ∷ e ∷ f ∷ g ∷ h ∷ rest) k le = rw (
  pack_u32-sum a b c d k.0 k.1.0 k.1.1.0 k.1.1.1.0,
  pack_u32-sum e f g h k.1.1.1.1.0 k.1.1.1.1.1.0 k.1.1.1.1.1.1.0 k.1.1.1.1.1.1.1.0,
)
pack-header_unpack _ k le = absurd (omega arith)

module _ ⦃z : Zlib⦄ where
  -- What a frame that was found intact says: its header is that of its payload.
  record Intact (bytes p : Bytes) : Type 0 where
    room : header_size ≤ length bytes
    len : length p ≡ (header_unpack bytes).0
    crc : z.crc32 p ≡ (header_unpack bytes).1
    payload : p ≡ take (header_unpack bytes).0 (drop header_size bytes)

  first_frame-Intact : (bytes p : Bytes) → first_frame bytes ≡ some p → Intact bytes p
  unfolding first_frame
  first_frame-Intact bytes p h =
      ground (arith, length-take (header_unpack bytes).0 (drop 8 bytes), length-drop 8 bytes)

  first_frame-Fits : (bytes p : Bytes) → AreBytes bytes → first_frame bytes ≡ some p → Fits p
  first_frame-Fits bytes p b h =
      omega (arith, (first_frame-Intact bytes p h).len, header_unpack-lt bytes b)

  first_frame_sound :
      (bytes p : Bytes)
      → AreBytes bytes
      → first_frame bytes ≡ some p
      → frame p ++ drop (size p) bytes ≡ bytes
  first_frame_sound bytes p b h =
      let i = first_frame-Intact bytes p h in
      let hd = pack_u32 (length p) ++ pack_u32 (z.crc32 p) in
      let is_header : hd ≡ take 8 bytes = rw (i.len, i.crc) (pack-header_unpack bytes b i.room) in
      let is_rest : p ++ drop (size p) bytes ≡ drop 8 bytes =
        ap (λ r. p ++ r) (sym (drop-drop (length p) 8 bytes))
        ∙ ap (λ q. q ++ drop (length p) (drop 8 bytes))
            (i.payload ∙ ap (λ n. take n (drop 8 bytes)) (sym i.len))
        ∙ take-append-drop (length p) (drop 8 bytes) in
      append_assoc hd p (drop (size p) bytes) ∙ rw (is_header, is_rest) (take-append-drop 8 bytes)

  decode_fuel-AllFit : (f : ℕ) (bytes : Bytes) → AreBytes bytes → AllFit (decode_fuel f bytes)
  unfolding decode_fuel
  decode_fuel-AllFit zero bytes b = tt
  decode_fuel-AllFit (suc f) bytes b = elim (Option-cases (first_frame bytes)) [
    | inl e ↦ rw (e, decode_fuel) tt
    | inr (p, e) ↦
        rw (e, decode_fuel)
          (
            first_frame-Fits bytes p b e,
            decode_fuel-AllFit f (drop (size p) bytes) (AreBytes-drop (size p) bytes b),
          )
  ]

  encode-decode_fuel :
      (f : ℕ) (bytes : Bytes)
      → AreBytes bytes
      → (tail : Bytes) × (encode (decode_fuel f bytes) ++ tail ≡ bytes)
  unfolding decode_fuel
  encode-decode_fuel zero bytes b = (bytes, refl)
  encode-decode_fuel (suc f) bytes b = elim (Option-cases (first_frame bytes)) [
    | inl e ↦ (bytes, rw (e, decode_fuel))
    | inr (p, e) ↦
        let (tail, rest) =
          encode-decode_fuel f (drop (size p) bytes) (AreBytes-drop (size p) bytes b) in
        (
          tail,
          rw (e, decode_fuel)
              (append_assoc (frame p) (encode (decode_fuel f (drop (size p) bytes))) tail
                ∙ ap (λ r. frame p ++ r) rest
                ∙ first_frame_sound bytes p b e),
        )
  ]

  -- No record that bytes decode to is too large for a frame.
  pub decode-AllFit : (bytes : Bytes) → AreBytes bytes → AllFit (decode bytes)
  unfolding decode
  decode-AllFit bytes = decode_fuel-AllFit (length bytes) bytes

  -- Bytes are the frames of the records that they decode to, and a tail.
  pub encode-decode :
      (bytes : Bytes) → AreBytes bytes → (tail : Bytes) × (encode (decode bytes) ++ tail ≡ bytes)
  unfolding decode
  encode-decode bytes = encode-decode_fuel (length bytes) bytes

  -- What iter_frames yields for a byte string is really there: the bytes begin with the frames of the
  -- yielded payloads, one behind the other; each payload fits into a frame; the positions are the ends
  -- of the frames.
  pub iter_frames_sound :
      (bytes : Bytes)
      → AreBytes bytes
      → (ps : List Bytes) × (tail : Bytes) × (iter_frames bytes ≡ with_ends 0 ps)
        × AllFit ps
        × (encode ps ++ tail ≡ bytes)
  iter_frames_sound bytes b =
      let (tail, e) = encode-decode bytes b in
      (decode bytes, tail, iter_frames-eq bytes, decode-AllFit bytes b, e)
