-- ===== src/Common/Places.antt =====
-- Lists read and written by place.
use Prim.Native.Nat.{ℕ, zero, suc, ◌≤◌, ◌<◌}
use mathlib.Core.Logic.{◌⊎◌, inl, inr}
use mathlib.Core.Path.{◌≡◌, refl, sym, ap, ◌∙◌, subst}
use mathlib.Core.List.{List, [], ◌∷◌, ◌++◌}
use mathlib.Core.Option.{none, some, some-injective}
use native.Mathlib.Omega.{arith}
use native.Mathlib.Decide.{ℕ_discrete}
use durastream.Common.Lists.{length, get_elem?, set}

module _ {ℓ} {A : Type ℓ} where
  pub get_elem-append :
      (xs ys : List A) (i : ℕ) → i < length xs → get_elem? (xs ++ ys) i ≡ get_elem? xs i
  get_elem-append [] ys i lt = absurd (omega arith)
  get_elem-append (x ∷ xs) ys zero lt = refl
  get_elem-append (x ∷ xs) ys (suc i) lt = get_elem-append xs ys i (omega arith)

  pub get_elem-append_last : (xs : List A) (x : A) → get_elem? (xs ++ x ∷ []) (length xs) ≡ some x
  get_elem-append_last [] x = refl
  get_elem-append_last (y ∷ xs) x = get_elem-append_last xs x

  pub get_elem-some : (xs : List A) (i : ℕ) (x : A) → get_elem? xs i ≡ some x → i < length xs
  get_elem-some [] i x e = absurd (cc e)
  get_elem-some (y ∷ xs) zero x e = omega arith
  get_elem-some (y ∷ xs) (suc i) x e = omega (arith, get_elem-some xs i x e)

  pub get_elem-lt : (xs : List A) (i : ℕ) → i < length xs → (x : A) × (get_elem? xs i ≡ some x)
  get_elem-lt [] i lt = absurd (omega arith)
  get_elem-lt (x ∷ xs) zero lt = (x, refl)
  get_elem-lt (x ∷ xs) (suc i) lt = get_elem-lt xs i (omega arith)

  pub get_elem-none : (xs : List A) (i : ℕ) → length xs ≤ i → get_elem? xs i ≡ none
  get_elem-none [] i le = refl
  get_elem-none (y ∷ xs) zero le = absurd (omega arith)
  get_elem-none (y ∷ xs) (suc i) le = get_elem-none xs i (omega arith)

  -- an element of a list that grew by one at its end
  pub get_elem-grown :
      (xs : List A) (y : A) (i : ℕ) (x : A)
      → get_elem? (xs ++ y ∷ []) i ≡ some x
      → (get_elem? xs i ≡ some x) ⊎ ((i ≡ length xs) × (x ≡ y))
  get_elem-grown [] y zero x e = inr (refl, cc e)
  get_elem-grown [] y (suc i) x e = absurd (cc e)
  get_elem-grown (z ∷ xs) y zero x e = inl e
  get_elem-grown (z ∷ xs) y (suc i) x e = elim (get_elem-grown xs y i x e) [
    | inl h ↦ inl h
    | inr h ↦ inr (ap suc h.0, h.1)
  ]

  pub length-set : (xs : List A) (i : ℕ) (v : A) → length (set xs i v) ≡ length xs
  length-set [] i v = refl
  length-set (x ∷ xs) zero v = refl
  length-set (x ∷ xs) (suc i) v = ap suc (length-set xs i v)

  pub get_elem-set :
      (xs : List A) (i : ℕ) (v : A) → i < length xs → get_elem? (set xs i v) i ≡ some v
  get_elem-set [] i v lt = absurd (omega arith)
  get_elem-set (x ∷ xs) zero v lt = refl
  get_elem-set (x ∷ xs) (suc i) v lt = get_elem-set xs i v (omega arith)

  pub get_elem-set_other :
      (xs : List A) (i j : ℕ) (v : A) → ¬ (j ≡ i) → get_elem? (set xs i v) j ≡ get_elem? xs j
  get_elem-set_other [] i j v ne = refl
  get_elem-set_other (x ∷ xs) zero zero v ne = absurd (ne refl)
  get_elem-set_other (x ∷ xs) zero (suc j) v ne = refl
  get_elem-set_other (x ∷ xs) (suc i) zero v ne = refl
  get_elem-set_other (x ∷ xs) (suc i) (suc j) v ne =
      get_elem-set_other xs i j v (λ e. ne (ap suc e))

  -- an element of a list that was written to
  pub get_elem-set_cases :
      (xs : List A) (i : ℕ) (v : A) (j : ℕ) (x : A)
      → get_elem? (set xs i v) j ≡ some x
      → ((j ≡ i) × (x ≡ v)) ⊎ ((¬ (j ≡ i)) × (get_elem? xs j ≡ some x))
  get_elem-set_cases xs i v j x e = elim (ℕ_discrete j i) [
    | yes eq ↦ inl (
      eq,
      some-injective x v (
          sym e
          ∙ ap (get_elem? (set xs i v)) eq
          ∙ get_elem-set xs i v (
              subst (λ n. n < length xs) eq
                (subst (λ n. j < n) (length-set xs i v) (get_elem-some (set xs i v) j x e)))),
    )
    | no ne ↦ inr (ne, sym (get_elem-set_other xs i j v ne) ∙ e)
  ]
