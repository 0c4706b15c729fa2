-- ===== src/Resume/Generated.antt =====
-- What the stream of a chat holds once its text has been generated.
use durastream.Common.{
  ℕ, ◌≡◌, refl, sym, ap, subst, true, List, [], ◌∷◌, ◌++◌, append_assoc, append-nil, Bytes,
}
use durastream.Errors.{Result, ok, err}
use durastream.Exec.{continue}
use durastream.Codec.{Zlib}
use durastream.Stream.Defs.{Machine}
use durastream.Stream.Write.{append, append_many, close}
use durastream.Stream.Holds.{Holds}
use durastream.Stream.Append.{Appended, append_many-Appended}
use durastream.Stream.Close.{Closed, close-Closed}
use durastream.Stream.Follow.FirstOf.{close-Holds}
use durastream.Resume.{generate}

abbrev not_empty : List Bytes → List Bytes
not_empty [] = []
not_empty ([] ∷ deltas) = not_empty deltas
not_empty ((b ∷ delta) ∷ deltas) = (b ∷ delta) ∷ not_empty deltas

module _ ⦃z : Zlib⦄ where
  abbrev Generated : List Bytes → List Bytes → Result (Unit {0}) × Machine → Type 0
  Generated rs new (ok u, w) = Holds (rs ++ new) w × (w.self.closed ≡ true)
  Generated rs new (err e, w) =
      (some_of : List Bytes) × (rest : List Bytes) × (new ≡ some_of ++ rest)
      × Holds (rs ++ some_of) w

  Generated-cons :
      (rs : List Bytes) (d : Bytes) (new : List Bytes) (r : Result (Unit {0}) × Machine)
      → Generated (rs ++ d ∷ []) new r
      → Generated rs (d ∷ new) r
  Generated-cons rs d new (ok u, w) (h, c) =
      (subst (λ l. Holds l w) (append_assoc rs (d ∷ []) new) h, c)
  Generated-cons rs d new (err e, w) (part, rest, q, h) =
      (d ∷ part, rest, ap (λ l. d ∷ l) q, subst (λ l. Holds l w) (append_assoc rs (d ∷ []) part) h)

  -- Where the generation of a text returns, the stream holds its deltas, those that are empty left out, and
  -- is closed; where it raises, the stream holds the first of them.
  pub generate-Generated :
      (deltas rs : List Bytes) (w : Machine)
      → Holds rs w
      → Generated rs (not_empty deltas) (generate deltas w)
  unfolding generate append
  generate-Generated [] rs w h =
      ended (close w) (close-Closed w) (close-Holds rs w h (close w) (close-Closed w))
    where
      ended : (r : Result (Unit {0}) × Machine) → Closed w r → Holds rs r.1 → Generated rs [] r
      ended (ok u, v) (o, self, db, log, calls) k =
          (subst (λ l. Holds l v) (sym (append-nil rs)) k, ap (λ s. s.closed) self)
      ended (err e, v) c k = ([], [], refl, subst (λ l. Holds l v) (sym (append-nil rs)) k)
  generate-Generated ([] ∷ deltas) rs w h = generate-Generated deltas rs w h
  generate-Generated ((b ∷ delta) ∷ deltas) rs w h =
      by (append_many ((b ∷ delta) ∷ []) w) (append_many-Appended rs ((b ∷ delta) ∷ []) w h)
        (λ v k. generate-Generated deltas (rs ++ (b ∷ delta) ∷ []) v k)
    where
      by :
          (r : Result ℕ × Machine)
          → Appended rs ((b ∷ delta) ∷ []) r
          → ((v : Machine)
              → Holds (rs ++ (b ∷ delta) ∷ []) v
              → Generated (rs ++ (b ∷ delta) ∷ []) (not_empty deltas) (generate deltas v))
          → Generated rs ((b ∷ delta) ∷ not_empty deltas) (continue (λ _. generate deltas) r)
      by (ok n, v) k others =
          Generated-cons rs (b ∷ delta) (not_empty deltas) (generate deltas v) (others v k.1)
      by (err e, v) k others =
          ([], (b ∷ delta) ∷ not_empty deltas, refl, subst (λ l. Holds l v) (sym (append-nil rs)) k)
