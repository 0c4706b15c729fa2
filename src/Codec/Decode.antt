-- ===== src/Codec/Decode.antt =====
-- What a byte string decodes to: the records of its intact frames, up to the first that is not. Both
-- readers of the program, `iter_frames` and the scan of a log, agree with it.
use durastream.Common.{
  ℕ, zero, suc, ◌+◌, ◌-◌, ◌≤◌, ◌<◌, ◌^◌, ◌≡◌, refl, sym, ap, ◌∙◌, Option, none, some, List, [], ◌∷◌,
  ◌++◌, append_assoc, Bytes, length, take, drop, ltb, leb, ◌==◌, if◌then◌else◌, length-append,
  length-drop, length-take, take-append, drop-append, take-append_ge, dec_lt, Option-cases, inl,
  inr, arith, ==_refl, ge→ltb, le→leb, gt→leb, lt→ltb,
}
use durastream.Errors.{ok}
use durastream.Codec.{Zlib, header_size, max_payload, pack_u32, header_unpack, pack_frame}
use durastream.Codec.Header.{header_unpack-pack}

abbrev pub Fits : Bytes → Type 0
Fits p = length p ≤ max_payload

abbrev pub AllFit : List Bytes → Type 0
AllFit [] = Unit
AllFit (p ∷ ps) = Fits p × AllFit ps

abbrev pub size : Bytes → ℕ
size p = header_size + length p

-- the ends of records that stand one behind the other from `pos` on
abbrev pub ends : ℕ → List Bytes → List ℕ
ends pos [] = []
ends pos (p ∷ ps) = (pos + size p) ∷ ends (pos + size p) ps

abbrev pub with_ends : ℕ → List Bytes → List (Bytes × ℕ)
with_ends pos [] = []
with_ends pos (p ∷ ps) = (p, pos + size p) ∷ with_ends (pos + size p) ps

length-header : (a b : ℕ) → length (pack_u32 a ++ pack_u32 b) ≡ 8
unfolding pack_u32
length-header a b = refl

module _ ⦃z : Zlib⦄ where
  abbrev pub frame : Bytes → Bytes
  frame p = (pack_u32 (length p) ++ pack_u32 (z.crc32 p)) ++ p

  abbrev pub encode : List Bytes → Bytes
  encode [] = []
  encode (p ∷ ps) = frame p ++ encode ps

  -- the payload of the intact frame at the start, if there is one
  unfoldable pub first_frame : Bytes → Option Bytes
  first_frame bytes =
      let header = header_unpack bytes in
      let payload = take (header.0) (drop header_size bytes) in
      if leb header_size (length bytes)
      then if ltb (length bytes) (header_size + header.0)
        then none
        else if z.crc32 payload == header.1
        then some payload
        else none
      else none

  unfoldable pub decode_fuel : ℕ → Bytes → List Bytes
  decode_fuel zero bytes = []
  decode_fuel (suc fuel) bytes = elim (first_frame bytes) [
    | none ↦ []
    | some p ↦ p ∷ decode_fuel fuel (drop (size p) bytes)
  ]

  unfoldable pub decode : Bytes → List Bytes
  decode bytes = decode_fuel (length bytes) bytes

  pub pack_frame_lem : (p : Bytes) → Fits p → pack_frame p ≡ ok (frame p)
  unfolding pack_frame
  pack_frame_lem p h = rw (
    ge→ltb max_payload (length p) h,
    lt→ltb (length p) (2 ^ 32) (omega arith),
    lt→ltb (z.crc32 p) (2 ^ 32) (z.crc32-lt p),
  )

  pub length-frame : (p : Bytes) → length (frame p) ≡ size p
  length-frame p = omega (
    arith,
    length-append (pack_u32 (length p) ++ pack_u32 (z.crc32 p)) p,
    length-header (length p) (z.crc32 p),
  )

  first_frame-frame : (p rest : Bytes) → Fits p → first_frame (frame p ++ rest) ≡ some p
  unfolding first_frame
  first_frame-frame p rest h =
      let hd = pack_u32 (length p) ++ pack_u32 (z.crc32 p) in
      let n : length (hd ++ (p ++ rest)) ≡ 8 + (length p + length rest) = omega (
        arith,
        length-append hd (p ++ rest),
        length-append p rest,
        length-header (length p) (z.crc32 p),
      ) in
      rw (
        append_assoc hd p rest,
        header_unpack-pack (length p) (z.crc32 p) (p ++ rest) (omega arith) (z.crc32-lt p),
        drop-append 8 hd (p ++ rest) (length-header (length p) (z.crc32 p)),
        take-append (length p) p rest refl,
        le→leb 8 (length (hd ++ (p ++ rest))) (omega arith),
        ge→ltb (length (hd ++ (p ++ rest))) (8 + length p) (omega arith),
        ==_refl (z.crc32 p),
      )

  pub first_frame-short : (bytes : Bytes) → length bytes < 8 → first_frame bytes ≡ none
  unfolding first_frame
  first_frame-short bytes h = rw (gt→leb 8 (length bytes) h)

  first_frame-short_payload :
      (len crc : ℕ) (cut : Bytes)
      → len < 2 ^ 32
      → crc < 2 ^ 32
      → length cut < len
      → first_frame ((pack_u32 len ++ pack_u32 crc) ++ cut) ≡ none
  unfolding first_frame
  first_frame-short_payload len crc cut h k lt =
      let hd = pack_u32 len ++ pack_u32 crc in
      let n : length (hd ++ cut) ≡ 8 + length cut =
        omega (arith, length-append hd cut, length-header len crc) in
      rw (
        header_unpack-pack len crc cut h k,
        le→leb 8 (length (hd ++ cut)) (omega arith),
        lt→ltb (length (hd ++ cut)) (8 + len) (omega arith),
      )

  -- A frame that is cut short is not intact.
  pub first_frame-torn :
      (p : Bytes) (k : ℕ) → Fits p → k < size p → first_frame (take k (frame p)) ≡ none
  first_frame-torn p k h lt = elim (dec_lt k 8) [
    | yes few ↦ first_frame-short (take k (frame p)) (omega (arith, length-take k (frame p)))
    | no more ↦ cut (omega arith)
  ]
    where
      cut : 8 ≤ k → first_frame (take k (frame p)) ≡ none
      cut le =
          let hd = pack_u32 (length p) ++ pack_u32 (z.crc32 p) in
          let eight = length-header (length p) (z.crc32 p) in
          rw (take-append_ge k hd p (omega (arith, eight))) (
            first_frame-short_payload (length p) (z.crc32 p) (take (k - length hd) p) (omega arith)
              (z.crc32-lt p) (omega (arith, eight, length-take (k - length hd) p)))

  -- The records that bytes decode to take no more room than the bytes.
  pub first_frame-size :
      (bytes : Bytes) {p : Bytes} → first_frame bytes ≡ some p → size p ≤ length bytes
  unfolding first_frame
  first_frame-size bytes h =
      ground (arith, length-take (header_unpack bytes).0 (drop 8 bytes), length-drop 8 bytes)

  decode_fuel-same :
      (f g : ℕ) (bytes : Bytes)
      → length bytes ≤ f
      → length bytes ≤ g
      → decode_fuel f bytes ≡ decode_fuel g bytes
  unfolding decode_fuel
  decode_fuel-same zero zero bytes h k = refl
  decode_fuel-same zero (suc g) bytes h k = rw (first_frame-short bytes (omega arith), decode_fuel)
  decode_fuel-same (suc f) zero bytes h k = rw (first_frame-short bytes (omega arith), decode_fuel)
  decode_fuel-same (suc f) (suc g) bytes h k = elim (Option-cases (first_frame bytes)) [
    | inl e ↦ rw (e, decode_fuel)
    | inr (p, e) ↦
        rw (e, decode_fuel)
          (ap (λ r. p ∷ r)
            (decode_fuel-same f g (drop (size p) bytes) (shrinks f p e h) (shrinks g p e k)))
  ]
    where
      shrinks :
          (n : ℕ) (p : Bytes)
          → first_frame bytes ≡ some p
          → length bytes ≤ suc n
          → length (drop (size p) bytes) ≤ n
      shrinks n p e le = omega (arith, length-drop (size p) bytes, first_frame-size bytes e)

  pub decode_fuel-enough :
      (f : ℕ) (bytes : Bytes) → length bytes ≤ f → decode_fuel f bytes ≡ decode bytes
  unfolding decode
  decode_fuel-enough f bytes h = decode_fuel-same f (length bytes) bytes h (omega arith)

  pub decode-none : (bytes : Bytes) → first_frame bytes ≡ none → decode bytes ≡ []
  unfolding decode_fuel
  decode-none bytes e =
      sym (decode_fuel-enough (suc (length bytes)) bytes (omega arith)) ∙ rw (e, decode_fuel)

  pub decode-some :
      (bytes : Bytes) (p : Bytes)
      → first_frame bytes ≡ some p
      → decode bytes ≡ p ∷ decode (drop (size p) bytes)
  unfolding decode_fuel
  decode-some bytes p e =
      sym (decode_fuel-enough (suc (length bytes)) bytes (omega arith))
      ∙ rw (e, decode_fuel)
          (ap (λ r. p ∷ r)
            (decode_fuel-enough (length bytes) (drop (size p) bytes)
              (omega (arith, length-drop (size p) bytes))))

  pub decode-frame : (p rest : Bytes) → Fits p → decode (frame p ++ rest) ≡ p ∷ decode rest
  decode-frame p rest h =
      decode-some (frame p ++ rest) p (first_frame-frame p rest h)
      ∙ ap (λ r. p ∷ decode r) (drop-append (size p) (frame p) rest (length-frame p))

  -- Whatever follows whole frames, the frames are read back, and then what follows.
  pub decode-encode :
      (ps : List Bytes) (rest : Bytes) → AllFit ps → decode (encode ps ++ rest) ≡ ps ++ decode rest
  decode-encode [] rest h = refl
  decode-encode (p ∷ ps) rest h =
      rw (append_assoc (frame p) (encode ps) rest)
        (decode-frame p (encode ps ++ rest) h.0 ∙ ap (λ r. p ∷ r) (decode-encode ps rest h.1))
