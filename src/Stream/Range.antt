-- ===== src/Stream/Range.antt =====
-- `read` with any offset and end, negative ones included.
use durastream.Common.{
  ℕ, zero, suc, ◌-◌, ◌≤◌, ◌<◌, ◌≡◌, min, refl, sym, ap, ◌∙◌, subst, subst₂, Option, none, some,
  List, [], ◌∷◌, ◌++◌, Bytes, length, take, drop, leb, leb→le, leb→gt, arith, Bool-cases, inl, inr,
  if◌then◌else◌, length-take, length-drop, take-append-drop, take-none, take-of_le, drop-append,
  length-append,
}
use durastream.Common.Int.{ℤ, pos, negsuc, pos_part, lebℤ, minℤ, maxℤ}
use durastream.Errors.{ok}
use durastream.Codec.{Zlib}
use durastream.Codec.Decode.{AllFit}
use durastream.Stream.Defs.{Machine, next_offset}
use durastream.Stream.Read.{read_range, read_open, read}
use durastream.Stream.Holds.{Holds, next_offset-Holds}
use durastream.Stream.Write.{append_many}
use durastream.Stream.Append.{Appended, append_many-Appended}
use durastream.Stream.Fetch.{Fetched, read_range-Fetched}

-- where a read of `n` records with this end stops
abbrev pub stop_of : ℕ → Option ℤ → ℕ
stop_of n none = n
stop_of n (some (pos e)) = min e n
stop_of n (some (negsuc e)) = 0

-- The records of the range [offset, end), a negative offset being 0.
abbrev pub requested : List Bytes → ℤ → Option ℤ → List Bytes
requested rs offset end =
    take (stop_of (length rs) end - pos_part offset) (drop (pos_part offset) rs)

pub maxℤ-zero : (a : ℤ) → maxℤ a (pos 0) ≡ pos (pos_part a)
maxℤ-zero (pos a) = ground arith
maxℤ-zero (negsuc a) = refl

minℤ-pos : (a b : ℕ) → minℤ (pos a) (pos b) ≡ pos (min a b)
minℤ-pos a b = ground arith

AllFit-part : (n : ℕ) (rs : List Bytes) → AllFit rs → AllFit (take n rs)
AllFit-part zero rs h = tt
AllFit-part (suc n) [] h = tt
AllFit-part (suc n) (r ∷ rs) h = (h.0, AllFit-part n rs h.1)

AllFit-rest : (n : ℕ) (rs : List Bytes) → AllFit rs → AllFit (drop n rs)
AllFit-rest zero rs h = h
AllFit-rest (suc n) [] h = tt
AllFit-rest (suc n) (r ∷ rs) h = AllFit-rest n rs h.1

module _ ⦃z : Zlib⦄ where
  read_range-part :
      (start stop : ℕ) (rs : List Bytes) (w : Machine)
      → Holds rs w
      → start < stop
      → stop ≤ length rs
      → Fetched w (take (stop - start) (drop start rs)) (read_range start stop w)
  read_range-part start stop rs w h lt le =
      subst₂ (λ i j. Fetched w b (read_range i j w)) a_len (omega (arith, a_len, b_len))
        (read_range-Fetched a b c w (subst (λ l. Holds l w) (sym parts) h)
          (AllFit-part (stop - start) (drop start rs) (AllFit-rest start rs h.fit)))
    where
      a : List Bytes
      a = take start rs

      b : List Bytes
      b = take (stop - start) (drop start rs)

      c : List Bytes
      c = drop (stop - start) (drop start rs)

      parts : a ++ (b ++ c) ≡ rs
      parts =
          ap (λ t. a ++ t) (take-append-drop (stop - start) (drop start rs))
          ∙ take-append-drop start rs

      a_len : length a ≡ start
      a_len = omega (arith, length-take start rs)

      b_len : length b ≡ stop - start
      b_len = omega (arith, length-take (stop - start) (drop start rs), length-drop start rs)

  module _ (rs : List Bytes) (w : Machine) (h : Holds rs w) {fd : ℕ}
      (file : w.self.file ≡ some fd) where
    read_from :
        (start : ℕ) (stop : ℤ)
        → pos_part stop ≤ length rs
        → Fetched w (take (pos_part stop - start) (drop start rs)) (
            if lebℤ stop (pos start)
            then (ok [], w)
            else read_open w.self.file start (pos_part stop) w)
    read_from start (negsuc e) le =
        (sym (take-none (0 - start) (drop start rs) (omega arith)), refl)
    read_from start (pos e) le = elim (Bool-cases (leb e start)) [
      | inl t ↦
          simp t
            (sym (take-none (e - start) (drop start rs) (omega (arith, leb→le e start t))), refl)
      | inr f ↦ simp (f, file) (read_range-part start e rs w h (leb→gt e start f) le)
    ]

    -- the same at bounds that are known by equations
    read_between :
        (start stop : ℤ) (i : ℕ) (j : ℤ)
        → pos i ≡ start
        → j ≡ stop
        → pos_part j ≤ length rs
        → Fetched w (take (pos_part j - i) (drop i rs)) (
            if lebℤ stop start
            then (ok [], w)
            else read_open w.self.file (pos_part start) (pos_part stop) w)
    read_between start stop i j e f le = rw (← e, ← f) (read_from i j le)

    -- A read of a stream that holds rs and has its file open returns exactly the records of [offset,
    -- end), a negative offset counting as 0 and a missing end as the end of the stream; or a system
    -- call failed and it raises an OSError. It changes nothing but the answers that the system has
    -- left.
    pub read-requested :
        (offset : ℤ) (end : Option ℤ) → Fetched w (requested rs offset end) (read offset end w)
    unfolding read
    read-requested offset none =
        read_between (maxℤ offset (pos 0)) (pos (next_offset w.self)) (pos_part offset)
          (pos (length rs)) (sym (maxℤ-zero offset)) (ap pos (sym (next_offset-Holds rs w h)))
          (omega arith)
    read-requested offset (some (pos e)) =
        read_between (maxℤ offset (pos 0)) (minℤ (pos e) (pos (next_offset w.self)))
          (pos_part offset) (pos (min e (length rs))) (sym (maxℤ-zero offset))
          (sym (minℤ-pos e (length rs))
            ∙ ap (λ n. minℤ (pos e) (pos n)) (sym (next_offset-Holds rs w h)))
          (omega arith)
    read-requested offset (some (negsuc e)) =
        read_between (maxℤ offset (pos 0)) (negsuc e) (pos_part offset) (negsuc e)
          (sym (maxℤ-zero offset)) refl (omega arith)

  requested_end : (rs ps : List Bytes) → requested (rs ++ ps) (pos (length rs)) none ≡ ps
  requested_end rs ps =
      ap (take (length (rs ++ ps) - length rs)) (drop-append (length rs) rs ps refl)
      ∙ take-of_le (length (rs ++ ps) - length rs) ps (omega (arith, length-append rs ps))

  -- After an append has returned, a read from the offset that the stream ended at before returns the
  -- records of the batch; or a system call of the read failed.
  pub read-append_many :
      (rs ps : List Bytes) (w : Machine) {n : ℕ} {w' : Machine} {fd : ℕ}
      → Holds rs w
      → append_many ps w ≡ (ok n, w')
      → w'.self.file ≡ some fd
      → Fetched w' ps (read (pos (length rs)) none w')
  read-append_many rs ps w {w' = w'} h e file =
      subst (λ l. Fetched w' l (read (pos (length rs)) none w')) (requested_end rs ps)
        (read-requested (rs ++ ps) w'
          ((subst (Appended rs ps) e (append_many-Appended rs ps w h)).1) file (pos (length rs))
          none)
