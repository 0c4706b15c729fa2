-- ===== src/Codec/Frames.antt =====
-- `iter_frames` yields what the bytes decode to, whole frames come back, and a cut leaves the whole
-- frames before it.
use durastream.Common.{
  ℕ, zero, suc, ◌+◌, ◌-◌, ◌≤◌, ◌<◌, ◌≡◌, refl, sym, ap, ◌∙◌, false, none, some, List, [], ◌∷◌, ◌++◌,
  append-nil, Bytes, length, take, drop, ltb, leb, ◌==◌, if◌then◌else◌, length-drop, length-take,
  take-append_le, take-append_ge, drop-drop, arith, leb→gt, leb→le, lt→ltb, take-of_le, map,
  Option-cases, Bool-cases, ltb→ge, inl, inr, dec_le, if◌then◌else◌,
}
use durastream.Errors.{Result, ok, err, value_error, Result-cases}
use durastream.Codec.{
  Zlib, header_size, header_unpack, slice, pack_frame, frames_from, iter_frames, pack_frames, join,
  max_payload,
}
use durastream.Codec.Decode.{
  AllFit, size, with_ends, frame, encode, first_frame, decode_fuel, decode, decode_fuel-enough,
  length-frame, first_frame-size, first_frame-torn, decode-none, decode-encode, decode-frame,
  pack_frame_lem, first_frame-short,
}

add-sub : (a b : ℕ) → a + b - a ≡ b
add-sub a b = omega arith

-- the records whose frames lie whole within the first `k` bytes
abbrev pub whole : ℕ → List Bytes → List Bytes
whole k [] = []
whole k (p ∷ ps) = if leb (size p) k then p ∷ whole (k - size p) ps else []

abbrev joined : Result (List Bytes) → Bytes
joined (ok frames) = join frames
joined (err e) = []

module _ ⦃z : Zlib⦄ where
  -- the slice of a round is the payload at the start of what is left
  slice-drop :
      (bytes : Bytes) (pos len : ℕ)
      → slice bytes (pos + header_size) (pos + header_size + len)
        ≡ take len (drop header_size (drop pos bytes))
  slice-drop bytes pos len =
      rw (drop-drop header_size pos bytes)
        (ap (λ k. take k (drop (pos + header_size) bytes)) (add-sub (pos + header_size) len))

  -- the tests of a round speak of what is left of the bytes
  leb-drop :
      (bytes : Bytes) (pos : ℕ)
      → pos ≤ length bytes
      → leb (pos + header_size) (length bytes) ≡ leb header_size (length (drop pos bytes))
  leb-drop bytes pos h = ground (arith, length-drop pos bytes)

  ltb-drop :
      (bytes : Bytes) (pos len : ℕ)
      → pos ≤ length bytes
      → ltb (length bytes) (pos + header_size + len)
        ≡ ltb (length (drop pos bytes)) (header_size + len)
  ltb-drop bytes pos len h = ground (arith, length-drop pos bytes)

  end-eq :
      (bytes : Bytes) (pos len : ℕ)
      → pos ≤ length bytes
      → ltb (length (drop pos bytes)) (header_size + len) ≡ false
      → pos + header_size + len ≡ pos + size (take len (drop header_size (drop pos bytes)))
  end-eq bytes pos len h whole =
      let left = drop pos bytes in
      let fits = ltb→ge (length left) (header_size + len) whole in
      omega (arith, length-take len (drop header_size left), length-drop header_size left)

  -- One round of the loop, at a position inside the bytes.
  frames_from_step :
      (fuel : ℕ) (bytes : Bytes) (pos : ℕ)
      → pos ≤ length bytes
      → frames_from (suc fuel) bytes pos ≡ (elim (first_frame (drop pos bytes)) [
        | none ↦ []
        | some p ↦ (p, pos + size p) ∷ frames_from fuel bytes (pos + size p)
      ])
  unfolding frames_from first_frame
  frames_from_step fuel bytes pos h =
      let left = drop pos bytes in
      let len = (header_unpack left).0 in
      let payload = take len (drop header_size left) in
      rw (slice-drop bytes pos len, leb-drop bytes pos h, ltb-drop bytes pos len h)
        (elim (Bool-cases (leb header_size (length left))) [
          | inr short ↦ rw short
          | inl room ↦ elim (Bool-cases (ltb (length left) (header_size + len))) [
            | inl torn ↦ rw (room, torn)
            | inr whole ↦ elim (Bool-cases (z.crc32 payload == (header_unpack left).1)) [
              | inr bad ↦ rw (room, whole, bad)
              | inl good ↦
                  rw (room, whole, good)
                    (ap (λ e. (payload, e) ∷ frames_from fuel bytes e)
                      (end-eq bytes pos len h whole))
            ]
          ]
        ])

  pub frames_from-eq :
      (fuel : ℕ) (bytes : Bytes) (pos : ℕ)
      → pos ≤ length bytes
      → frames_from fuel bytes pos ≡ with_ends pos (decode_fuel fuel (drop pos bytes))
  unfolding decode_fuel
  frames_from-eq zero bytes pos h = unfold frames_from in refl
  frames_from-eq (suc fuel) bytes pos h =
      frames_from_step fuel bytes pos h ∙ elim (Option-cases (first_frame (drop pos bytes))) [
        | inl e ↦ rw (e, decode_fuel)
        | inr (p, e) ↦
            rw (e, decode_fuel)
              (ap (λ r. (p, pos + size p) ∷ r)
                (frames_from-eq fuel bytes (pos + size p)
                    (omega (arith, length-drop pos bytes, first_frame-size (drop pos bytes) e))
                  ∙ ap (λ r. with_ends (pos + size p) (decode_fuel fuel r))
                      (sym (drop-drop (size p) pos bytes))))
      ]

  pub iter_frames-eq : (bytes : Bytes) → iter_frames bytes ≡ with_ends 0 (decode bytes)
  unfolding iter_frames decode
  iter_frames-eq bytes = frames_from-eq (length bytes) bytes 0 (omega arith)

  pub decode-encode_all : (rs : List Bytes) → AllFit rs → decode (encode rs) ≡ rs
  decode-encode_all rs h =
      ap decode (sym (append-nil (encode rs)))
      ∙ decode-encode rs [] h
      ∙ ap (λ t. rs ++ t) (decode-none [] (first_frame-short [] (omega arith)))
      ∙ append-nil rs

  -- Whatever intact frames stand before it, a torn tail is left alone.
  pub decode-cut : (ps : List Bytes) (k : ℕ) → AllFit ps → decode (take k (encode ps)) ≡ whole k ps
  decode-cut [] k h =
      rw (take-of_le {A = ℕ} k [] (omega arith))
        (decode-none [] (first_frame-short [] (omega arith)))
  decode-cut (p ∷ ps) k h = elim (Bool-cases (leb (size p) k)) [
    | inl fits ↦
        let le = leb→le (size p) k fits in
        rw
          (
            fits,
            take-append_ge k (frame p) (encode ps) (omega (arith, length-frame p)),
            length-frame p,
          )
          (decode-frame p (take (k - size p) (encode ps)) h.0
            ∙ ap (λ r. p ∷ r) (decode-cut ps (k - size p) h.1))
    | inr cut ↦
        let lt = leb→gt (size p) k cut in
        rw (cut, take-append_le k (frame p) (encode ps) (omega (arith, length-frame p)))
          (decode-none (take k (frame p)) (first_frame-torn p k h.0 lt))
  ]

  pub pack_frames-ok : (ps : List Bytes) → AllFit ps → pack_frames ps ≡ ok (map frame ps)
  unfolding pack_frames
  pack_frames-ok [] h = refl
  pack_frames-ok (p ∷ ps) h = rw (pack_frame_lem p h.0, pack_frames-ok ps h.1)

  pub join-frames : (ps : List Bytes) → join (map frame ps) ≡ encode ps
  unfolding join
  join-frames [] = refl
  join-frames (p ∷ ps) = ap (λ r. frame p ++ r) (join-frames ps)

  pub pack_frame-fails : (p : Bytes) → max_payload < length p → pack_frame p ≡ err value_error
  unfolding pack_frame
  pack_frame-fails p h = rw (lt→ltb max_payload (length p) h)

  -- If every payload of a batch was framed, then none was too large.
  pub pack_frames-fits :
      (ps : List Bytes) {frames : List Bytes} → pack_frames ps ≡ ok frames → AllFit ps
  unfolding pack_frames
  pack_frames-fits [] h = tt
  pack_frames-fits (p ∷ ps) h = elim (dec_le (length p) max_payload) [
    | no big ↦ ground (arith, pack_frame-fails p (omega arith))
    | yes fits ↦ elim (Result-cases (pack_frames ps)) [
      | inl (fs, e) ↦ (fits, pack_frames-fits ps e)
      | inr (x, e) ↦ ground (arith, pack_frame_lem p fits)
    ]
  ]

  framed-encode :
      (ps : List Bytes) {frames : List Bytes} → pack_frames ps ≡ ok frames → join frames ≡ encode ps
  framed-encode ps {frames} e =
      let fits = pack_frames-fits ps e in ok_join (sym e ∙ pack_frames-ok ps fits) ∙ join-frames ps
    where
      ok_join : {a b : List Bytes} → ok a ≡ ok b → join a ≡ join b
      ok_join h = ap (λ r. joined r) h

  -- The frames that a batch was packed into are read back by iter_frames as its payloads, each with
  -- the position behind its frame.
  pub iter_frames-pack :
      (ps : List Bytes) {frames : List Bytes}
      → pack_frames ps ≡ ok frames
      → iter_frames (join frames) ≡ with_ends 0 ps
  iter_frames-pack ps e =
      rw (framed-encode ps e) (
        iter_frames-eq (encode ps)
        ∙ ap (with_ends 0) (decode-encode_all ps (pack_frames-fits ps e)))

  -- Of the frames of a batch, cut off after k bytes, iter_frames reads back those that are whole, and
  -- no other.
  pub iter_frames-cut :
      (ps : List Bytes) {frames : List Bytes} (k : ℕ)
      → pack_frames ps ≡ ok frames
      → iter_frames (take k (join frames)) ≡ with_ends 0 (whole k ps)
  iter_frames-cut ps k e = rw (framed-encode ps e) (
      iter_frames-eq (take k (encode ps))
      ∙ ap (with_ends 0) (decode-cut ps k (pack_frames-fits ps e)))

  -- The loop of iter_frames ends by its own tests: with any fuel that is not below the number of bytes
  -- it yields what iter_frames yields.
  pub frames_from-enough :
      (fuel : ℕ) (bytes : Bytes)
      → length bytes ≤ fuel
      → frames_from fuel bytes 0 ≡ iter_frames bytes
  frames_from-enough fuel bytes h =
      frames_from-eq fuel bytes 0 (omega arith)
      ∙ ap (with_ends 0) (decode_fuel-enough fuel bytes h)
      ∙ sym (iter_frames-eq bytes)
