-- ===== src/Resume/Sending.antt =====
-- What the generator has yielded, and where it is.
use durastream.Common.{
  ℕ, suc, ◌+◌, ◌≤◌, ◌≡◌, refl, sym, ap, ◌∙◌, subst, Bool, true, List, [], ◌∷◌, ◌++◌, Bytes, length,
  take, drop, drop-drop, length-append, arith,
}
use durastream.Common.Int.{ℤ, pos}
use durastream.Errors.{ok}
use durastream.Token.{to_token}
use durastream.Stream.Follow.FirstOf.{FirstOf, FirstOf-grow}
use durastream.Resume.{
  Event, message, next_token, stream_end, Place, reading, looking, comparing, waiting, returned,
  sending, raised, cancelled,
}

pub FirstOf-split :
    (rs : List Bytes) (o : ℕ) (r : Bytes) (zs : List Bytes)
    → FirstOf rs o (r ∷ zs)
    → FirstOf rs o (r ∷ []) × FirstOf rs (suc o) zs
FirstOf-split rs o r zs h = by (drop o rs) refl
  where
    by : (l : List Bytes) → drop o rs ≡ l → FirstOf rs o (r ∷ []) × FirstOf rs (suc o) zs
    by [] e = absurd (cc (h, ap (take (suc (length zs))) e))
    by (x ∷ l) e =
        let q : r ∷ zs ≡ x ∷ take (length zs) l = h ∙ ap (take (suc (length zs))) e in
        (
          ap (take 1) q ∙ sym (ap (take 1) e),
          ap (drop 1) q
              ∙ ap (take (length zs)) (
                  sym (ap (drop 1) e)
                  ∙ drop-drop 1 o rs
                  ∙ ap (λ k. drop k rs) {y = suc o} (omega arith)),
        )

-- The messages are the records from `n` to `m`, each once and in order, with the tokens of their offsets as
-- ids; a token stands behind the records before its offset; the end of the stream stands behind all records of
-- a closed stream.
abbrev pub Sent : List Bytes → Bool → ℕ → List Event → ℕ → Type 0
Sent rs closed n [] m = n ≡ m
Sent rs closed n (message id text ∷ es) m =
    (to_token (pos n) ≡ ok id) × FirstOf rs n (text ∷ []) × Sent rs closed (suc n) es m
Sent rs closed n (next_token t ∷ es) m = (to_token (pos n) ≡ ok t) × Sent rs closed n es m
Sent rs closed n (stream_end ∷ es) m = (closed ≡ true) × (length rs ≤ n) × Sent rs closed n es m

pub Sent-append :
    (rs : List Bytes) (closed : Bool) (n k m : ℕ) (es fs : List Event)
    → Sent rs closed n es k
    → Sent rs closed k fs m
    → Sent rs closed n (es ++ fs) m
Sent-append rs closed n k m [] fs h g = subst (λ i. Sent rs closed i fs m) (sym h) g
Sent-append rs closed n k m (message id text ∷ es) fs h g =
    (h.0, h.1, Sent-append rs closed (suc n) k m es fs h.2 g)
Sent-append rs closed n k m (next_token t ∷ es) fs h g =
    (h.0, Sent-append rs closed n k m es fs h.1 g)
Sent-append rs closed n k m (stream_end ∷ es) fs h g =
    (h.0, h.1, Sent-append rs closed n k m es fs h.2 g)

pub Sent-grow :
    (rs t : List Bytes) (closed still : Bool)
    → (closed ≡ true → (still ≡ true) × (t ≡ []))
    → (n m : ℕ) (es : List Event) → Sent rs closed n es m
    → Sent (rs ++ t) still n es m
Sent-grow rs t closed still c n m [] h = h
Sent-grow rs t closed still c n m (message id text ∷ es) h =
    (h.0, FirstOf-grow rs t n (text ∷ []) h.1, Sent-grow rs t closed still c (suc n) m es h.2)
Sent-grow rs t closed still c n m (next_token u ∷ es) h =
    (h.0, Sent-grow rs t closed still c n m es h.1)
Sent-grow rs t closed still c n m (stream_end ∷ es) h =
    let (s, e) = c h.0 in
    (
      s,
      omega (arith, h.1, length-append rs t, ap (λ l. length l) e),
      Sent-grow rs t closed still c n m es h.2,
    )

-- The generator has sent the records up to `m`.
abbrev pub At : List Bytes → Bool → ℕ → Place → ℤ → Type 0
At rs closed m reading offset = offset ≡ pos m
At rs closed m looking offset = offset ≡ pos m
At rs closed m waiting offset = offset ≡ pos m
At rs closed m comparing offset = (offset ≡ pos m) × (closed ≡ true)
At rs closed m (sending i left) offset =
    (b : ℕ) × (offset ≡ pos b) × (b + i ≡ m) × FirstOf rs m left
At rs closed m returned offset = (closed ≡ true) × (length rs ≤ m)
At rs closed m cancelled offset = Unit
At rs closed m (raised e) offset = Unit

pub At-grow :
    (rs t : List Bytes) (closed still : Bool)
    → (closed ≡ true → (still ≡ true) × (t ≡ []))
    → (m : ℕ) (p : Place) (offset : ℤ) → At rs closed m p offset
    → At (rs ++ t) still m p offset
At-grow rs t closed still c m reading offset h = h
At-grow rs t closed still c m looking offset h = h
At-grow rs t closed still c m waiting offset h = h
At-grow rs t closed still c m comparing offset h = (h.0, (c h.1).0)
At-grow rs t closed still c m (sending i left) offset (b, e, l, f) =
    (b, e, l, FirstOf-grow rs t m left f)
At-grow rs t closed still c m returned offset h =
    let (s, e) = c h.0 in (s, omega (arith, h.1, length-append rs t, ap (λ l. length l) e))
At-grow rs t closed still c m cancelled offset h = tt
At-grow rs t closed still c m (raised e) offset h = tt
