-- ===== src/Scan.antt =====
-- `_scan` of src/durastream/stream.py: the offsets of the intact frames of a log, read sequentially.
-- A read returns fewer bytes than it was asked for where the file ends before `size`.
use durastream.Common.{
  ℕ, zero, suc, ◌+◌, ◌-◌, ◌≤◌, ◌≡◌, refl, sym, ap, ◌∙◌, not, ◌||◌, none, some, map, List, [], ◌∷◌,
  ◌++◌, append_assoc, append-nil, Bytes, length, take, drop, ltb, leb, ◌==◌, if◌then◌else◌,
  length-drop, length-take, take-take, drop-take, drop-drop, arith, Option-cases, inl, inr,
}
use native.Mathlib.Nat.{add_assoc}
use durastream.Codec.{Zlib, header_size, header_unpack, iter_frames}
use durastream.Codec.Frames.{iter_frames-eq}
use durastream.Codec.Header.{header_unpack-take}
use durastream.Codec.Decode.{
  size, ends, with_ends, first_frame, decode_fuel, decode, decode_fuel-enough, first_frame-size,
}

zero-sub : (n : ℕ) → n ≡ n - 0
zero-sub n = omega arith

sub-add : (n a b : ℕ) → n - a - b ≡ n - (a + b)
sub-add n a b = omega arith

module _ ⦃z : Zlib⦄ where
  -- The rounds of the loop, with fuel; `left` is what the open file has yet to give.
  unfoldable pub scan_from : ℕ → ℕ → Bytes → ℕ → List ℕ → List ℕ
  scan_from zero file_size left pos index = index
  scan_from (suc fuel) file_size left pos index =
      let header = take header_size left in
      let len = (header_unpack header).0 in
      let end = pos + header_size + len in
      let payload = take len (drop header_size left) in
      let more =
        scan_from fuel file_size (drop len (drop header_size left)) end (index ++ end ∷ []) in
      if leb (pos + header_size) file_size
      then if ltb (length header) header_size
        then index
        else if ltb file_size end
        then index
        else if ltb (length payload) len || not (z.crc32 payload == (header_unpack header).1)
        then index
        else more
      else index

  unfoldable pub scan : Bytes → ℕ → List ℕ
  unfolding scan_from
  scan bytes file_size = scan_from file_size file_size bytes 0 (0 ∷ [])

  -- what the loop may still look at
  abbrev window : ℕ → ℕ → Bytes → Bytes
  window file_size pos left = take (file_size - pos) left

  window_header :
      (file_size pos : ℕ) (left : Bytes)
      → header_size ≤ length (window file_size pos left)
      → header_unpack (window file_size pos left) ≡ header_unpack (take header_size left)
  window_header file_size pos left h =
      sym (header_unpack-take (window file_size pos left) h)
      ∙ ap header_unpack (
          take-take header_size (file_size - pos) left
            (omega (arith, length-take (file_size - pos) left)))

  window_payload :
      (file_size pos len : ℕ) (left : Bytes)
      → header_size + len ≤ length (window file_size pos left)
      → take len (drop header_size (window file_size pos left)) ≡ take len (drop header_size left)
  window_payload file_size pos len left h =
      ap (λ r. take len r) (drop-take header_size (file_size - pos) left)
      ∙ take-take len (file_size - pos - header_size) (drop header_size left)
          (omega (arith, length-take (file_size - pos) left))

  scan_stop :
      (fuel file_size : ℕ) (left : Bytes) (pos : ℕ) (index : List ℕ)
      → pos ≤ file_size
      → first_frame (window file_size pos left) ≡ none
      → scan_from (suc fuel) file_size left pos index ≡ index
  unfolding scan_from first_frame
  scan_stop fuel file_size left pos index h e = ground (
    arith,
    window_header file_size pos left,
    window_payload file_size pos (header_unpack (take header_size left)).0 left,
    length-take (file_size - pos) left,
    length-take header_size left,
    length-take (header_unpack (take header_size left)).0 (drop header_size left),
    length-drop header_size left,
  )

  window_len :
      (file_size : ℕ) (left : Bytes) (pos : ℕ) (p : Bytes)
      → first_frame (window file_size pos left) ≡ some p
      → (header_unpack (take header_size left)).0 ≡ length p
  unfolding first_frame
  window_len file_size left pos p e = ground (
    arith,
    window_header file_size pos left,
    window_payload file_size pos (header_unpack (take header_size left)).0 left,
    length-take (file_size - pos) left,
    length-take header_size left,
    length-take (header_unpack (take header_size left)).0 (drop header_size left),
    length-drop header_size left,
  )

  scan_accept :
      (fuel file_size : ℕ) (left : Bytes) (pos : ℕ) (index : List ℕ) (p : Bytes)
      → pos ≤ file_size
      → first_frame (window file_size pos left) ≡ some p
      → scan_from (suc fuel) file_size left pos index ≡ (
          let len = (header_unpack (take header_size left)).0 in
          scan_from fuel file_size
            (drop len (drop header_size left))
            (pos + header_size + len)
            (index ++ (pos + header_size + len) ∷ []))
  unfolding scan_from first_frame
  scan_accept fuel file_size left pos index p h e = ground (
    arith,
    window_header file_size pos left,
    window_payload file_size pos (header_unpack (take header_size left)).0 left,
    length-take (file_size - pos) left,
    length-take header_size left,
    length-take (header_unpack (take header_size left)).0 (drop header_size left),
    length-drop header_size left,
  )

  scan_go :
      (fuel file_size : ℕ) (left : Bytes) (pos : ℕ) (index : List ℕ) (p : Bytes)
      → pos ≤ file_size
      → first_frame (window file_size pos left) ≡ some p
      → scan_from (suc fuel) file_size left pos index
        ≡ scan_from fuel file_size
            (drop (size p) left)
            (pos + size p)
            (index ++ (pos + size p) ∷ [])
  scan_go fuel file_size left pos index p h e =
      scan_accept fuel file_size left pos index p h e
      ∙ rw (
        window_len file_size left pos p e,
        drop-drop (length p) header_size left,
        add_assoc pos header_size (length p),
      )

  window-drop :
      (file_size pos : ℕ) (left p : Bytes)
      → drop (size p) (window file_size pos left)
        ≡ window file_size (pos + size p) (drop (size p) left)
  window-drop file_size pos left p =
      drop-take (size p) (file_size - pos) left
      ∙ ap (λ n. take n (drop (size p) left)) (sub-add file_size pos (size p))

  scan_from-eq :
      (fuel file_size : ℕ) (left : Bytes) (pos : ℕ) (index : List ℕ)
      → pos ≤ file_size
      → scan_from fuel file_size left pos index
        ≡ index ++ ends pos (decode_fuel fuel (window file_size pos left))
  unfolding decode_fuel
  scan_from-eq zero file_size left pos index h = unfold scan_from in sym (append-nil index)
  scan_from-eq (suc fuel) file_size left pos index h =
      elim (Option-cases (first_frame (window file_size pos left))) [
        | inl e ↦
            scan_stop fuel file_size left pos index h e
            ∙ rw (e, decode_fuel) (sym (append-nil index))
        | inr (p, e) ↦
            let fits = first_frame-size (window file_size pos left) e in
            scan_go fuel file_size left pos index p h e
            ∙ scan_from-eq fuel file_size (drop (size p) left) (pos + size p)
                (index ++ (pos + size p) ∷ []) (omega (arith, length-take (file_size - pos) left))
            ∙ rw (e, decode_fuel)
                (append_assoc index ((pos + size p) ∷ []) _
                  ∙ ap (λ r. index ++ (pos + size p) ∷ ends (pos + size p) (decode_fuel fuel r))
                      (sym (window-drop file_size pos left p)))
      ]

  -- The scan finds the frames that the first `file_size` bytes decode to, also where the file is
  -- shorter than that.
  pub scan-eq :
      (bytes : Bytes) (file_size : ℕ)
      → scan bytes file_size ≡ 0 ∷ ends 0 (decode (take file_size bytes))
  unfolding scan
  scan-eq bytes file_size =
      scan_from-eq file_size file_size bytes 0 (0 ∷ []) (omega arith)
      ∙ ap (λ r. 0 ∷ ends 0 r)
          (rw (← zero-sub file_size) (
            decode_fuel-enough file_size (take file_size bytes)
              (omega (arith, length-take file_size bytes))))

  with_ends-positions :
      (start : ℕ) (rs : List Bytes)
      → map (λ (f : Bytes × ℕ). f.1) (with_ends start rs) ≡ ends start rs
  with_ends-positions start [] = refl
  with_ends-positions start (r ∷ rs) =
      ap (λ t. (start + size r) ∷ t) (with_ends-positions (start + size r) rs)

  -- The sequential scan of a log and iter_frames agree on what is intact: the scan returns 0 and the
  -- positions that iter_frames yields for the first file_size bytes, also where the file has fewer.
  pub scan-iter_frames :
      (bytes : Bytes) (file_size : ℕ)
      → scan bytes file_size ≡ 0 ∷ map (λ (f : Bytes × ℕ). f.1) (iter_frames (take file_size bytes))
  scan-iter_frames bytes file_size =
      scan-eq bytes file_size
      ∙ ap (λ t. 0 ∷ t)
          (sym (with_ends-positions 0 (decode (take file_size bytes)))
            ∙ ap (map (λ (f : Bytes × ℕ). f.1)) (sym (iter_frames-eq (take file_size bytes))))
