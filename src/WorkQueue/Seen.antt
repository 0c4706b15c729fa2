-- ===== src/WorkQueue/Seen.antt =====
-- The jobs that a worker has seen.
use durastream.Common.{
  ℕ, zero, suc, ◌+◌, ◌≡◌, refl, sym, ap, ◌∙◌, subst, Bool, true, false, Option, none, some, List,
  [], ◌∷◌, ◌++◌, Bytes, length, take, drop, if-true, if-false, Bool-cases, ◌⊎◌, inl, inr, arith,
}
use durastream.Errors.{Result, ok, err}
use durastream.Codec.{Zlib}
use durastream.WorkQueue.{Worker, stops, see, work_on, work}

abbrev pub Has : ℕ → List ℕ → Type 0
Has x [] = ⊥
Has x (y ∷ ys) = (x ≡ y) ⊎ Has x ys

Has-append : (x : ℕ) (xs ys : List ℕ) → Has x xs → Has x (xs ++ ys)
Has-append x [] ys h = elim h [ ]
Has-append x (y ∷ xs) ys (inl e) = inl e
Has-append x (y ∷ xs) ys (inr h) = inr (Has-append x xs ys h)

Has-last : (x : ℕ) (xs : List ℕ) → Has x (xs ++ x ∷ [])
Has-last x [] = inl refl
Has-last x (y ∷ xs) = inr (Has-last x xs)

abbrev pub Grows : List ℕ → List ℕ → Type 0
Grows xs ys = (x : ℕ) → Has x xs → Has x ys

module _ (job_id : Bytes → Result ℕ) where
  -- every record is a job
  abbrev pub AllJobs : List Bytes → Type 0
  AllJobs [] = Unit {0}
  AllJobs (r ∷ rs) = ((id : ℕ) × (job_id r ≡ ok id)) × AllJobs rs

  -- the jobs of all these records are seen
  abbrev pub AllSeen : List Bytes → List ℕ → Type 0
  AllSeen [] seen = Unit {0}
  AllSeen (r ∷ rs) seen = ((id : ℕ) × (job_id r ≡ ok id) × Has id seen) × AllSeen rs seen

  pub AllSeen-Grows :
      (rs : List Bytes) (xs ys : List ℕ) → Grows xs ys → AllSeen rs xs → AllSeen rs ys
  AllSeen-Grows [] xs ys g h = tt
  AllSeen-Grows (r ∷ rs) xs ys g ((id, e, m), h) = ((id, e, g id m), AllSeen-Grows rs xs ys g h)

  -- what is seen before an offset, and in the chunk from it on
  pub AllSeen-further :
      (c n : ℕ) (rs : List Bytes) (seen : List ℕ)
      → AllSeen (take c rs) seen
      → AllSeen (take n (drop c rs)) seen
      → AllSeen (take (c + length (take n (drop c rs))) rs) seen
  AllSeen-further zero n rs seen h k =
      subst (λ l. AllSeen l seen) (again n rs ∙ ap (λ m. take m rs) (omega arith)) k
    where
      again : (n : ℕ) (rs : List Bytes) → take n rs ≡ take (length (take n rs)) rs
      again zero rs = refl
      again (suc n) [] = refl
      again (suc n) (r ∷ rs) = ap (λ l. r ∷ l) (again n rs)
  AllSeen-further (suc c) n [] seen h k = nothing (suc c + length (take n (drop (suc c) [])))
    where
      nothing : (m : ℕ) → AllSeen (take m []) seen
      nothing zero = tt
      nothing (suc m) = tt
  AllSeen-further (suc c) n (r ∷ rs) seen h k =
      subst (λ m. AllSeen (take m (r ∷ rs)) seen) (shift c (length (take n (drop c rs))))
        (h.0, AllSeen-further c n rs seen h.1 k)
    where
      shift : (a b : ℕ) → suc (a + b) ≡ suc a + b
      shift a b = omega arith

  pub AllJobs-take : (n : ℕ) (rs : List Bytes) → AllJobs rs → AllJobs (take n rs)
  AllJobs-take zero rs h = tt
  AllJobs-take (suc n) [] h = tt
  AllJobs-take (suc n) (r ∷ rs) h = (h.0, AllJobs-take n rs h.1)

  pub AllJobs-drop : (n : ℕ) (rs : List Bytes) → AllJobs rs → AllJobs (drop n rs)
  AllJobs-drop zero rs h = h
  AllJobs-drop (suc n) [] h = tt
  AllJobs-drop (suc n) (r ∷ rs) h = AllJobs-drop n rs h.1

  -- A chunk is worked through to its end, or up to where the worker is told to stop.
  abbrev pub Worked : Option ℕ → List Bytes → Worker → Result Bool × Worker → Type 0
  Worked stop chunk w (ok b, v) =
      (v.q ≡ w.q)
      × (v.checkpoint ≡ w.checkpoint)
      × Grows w.seen v.seen
      × (b ≡ false → AllSeen chunk v.seen)
      × (b ≡ true → ¬ (stop ≡ none))
  Worked stop chunk w (err e, v) = ⊥

  Worked-more :
      (stop : Option ℕ) (r : Bytes) (chunk : List Bytes) (id : ℕ) (w : Worker)
      (x : Result Bool × Worker)
      → job_id r ≡ ok id
      → Worked stop chunk (see id w) x
      → Worked stop (r ∷ chunk) w x
  Worked-more stop r chunk id w (err e, v) p h = h
  Worked-more stop r chunk id w (ok b, v) p (q, k, g, s, t) = (
    q,
    k,
    (λ y m. g y (Has-append y w.seen (id ∷ []) m)),
    (λ f. ((id, p, g id (Has-last id w.seen)), s f)),
    t,
  )

  stops-some : (stop : Option ℕ) (n : ℕ) → stops stop n ≡ true → ¬ (stop ≡ none)
  stops-some none n h = absurd (cc h)
  stops-some (some k) n h = λ e. absurd (cc e)

module _ ⦃z : Zlib⦄ (job_id : Bytes → Result ℕ) where
  pub work-Worked :
      (stop : Option ℕ) (chunk : List Bytes) (w : Worker)
      → AllJobs job_id chunk
      → Worked job_id stop chunk w (work job_id stop chunk w)
  unfolding work
  work-Worked stop [] w h = (refl, refl, (λ x m. m), (λ e. tt), (λ e. absurd (cc e)))
  work-Worked stop (r ∷ chunk) w ((id, e), h) =
      subst (λ i. Worked job_id stop (r ∷ chunk) w (work_on stop i (work job_id stop chunk) w))
        (sym e)
        (elim (Bool-cases (stops stop (see id w).processed)) [
          | inl a ↦ subst (Worked job_id stop (r ∷ chunk) w) (sym (if-true _ _ a)) (
            refl,
            refl,
            (λ y m. Has-append y w.seen (id ∷ []) m),
            (λ f. absurd (cc f)),
            (λ t. stops-some job_id stop _ a),
          )
          | inr a ↦
              subst (Worked job_id stop (r ∷ chunk) w) (sym (if-false _ _ a))
                (Worked-more job_id stop r chunk id w _ e (work-Worked stop chunk (see id w) h))
        ])
