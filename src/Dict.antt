-- ===== src/Dict.antt =====
-- A Python dictionary from names, in the order of insertion.
use durastream.Common.{
  ℕ, ◌≤◌, ◌<◌, ◌≡◌, refl, sym, ◌∙◌, subst, Bool-cases, if-false, Option, none, some, List, [], ◌∷◌,
  Text, if◌then◌else◌, if-true, inl, inr, arith,
}
use mathlib.Core.Option.{some-injective}
use durastream.Texts.{text_eq, text_eq_iff}

abbrev pub Dict : Type 0
Dict = List (Text × ℕ)

unfoldable pub lookup : Text → Dict → Option ℕ
lookup name [] = none
lookup name ((k, v) ∷ d) = let rest = lookup name d in if text_eq k name then some v else rest

unfoldable pub assign : Text → ℕ → Dict → Dict
assign name v [] = (name, v) ∷ []
assign name v ((k, u) ∷ d) =
    let rest = assign name v d in if text_eq k name then (k, v) ∷ d else (k, u) ∷ rest

unfoldable pub remove : Text → Dict → Dict
remove name [] = []
remove name ((k, v) ∷ d) =
    let rest = remove name d in if text_eq k name then rest else (k, v) ∷ rest

pub lookup-assign : (name : Text) (v : ℕ) (d : Dict) → lookup name (assign name v d) ≡ some v
unfolding lookup assign
lookup-assign name v [] = if-true _ _ ((text_eq_iff name name).1 refl)
lookup-assign name v ((k, u) ∷ d) = ground (arith, lookup-assign name v d)

pub lookup-remove : (name : Text) (d : Dict) → lookup name (remove name d) ≡ none
unfolding lookup remove
lookup-remove name [] = refl
lookup-remove name ((k, u) ∷ d) = ground (arith, lookup-remove name d)

-- every value is below `n`
abbrev pub Below : ℕ → Dict → Type 0
Below n [] = Unit {0}
Below n ((k, v) ∷ d) = (v < n) × Below n d

pub lookup-Below :
    (n : ℕ) (d : Dict) (name : Text) (v : ℕ) → Below n d → lookup name d ≡ some v → v < n
unfolding lookup
lookup-Below n [] name v b e = absurd (cc e)
lookup-Below n ((k, x) ∷ d) name v b e = ground (arith, lookup-Below n d name v b.1)

pub assign-Below :
    (n : ℕ) (d : Dict) (name : Text) (v : ℕ) → Below n d → v < n → Below n (assign name v d)
unfolding assign
assign-Below n [] name v b lt = (lt, tt)
assign-Below n ((k, x) ∷ d) name v b lt = elim (Bool-cases (text_eq k name)) [
  | inl a ↦ subst (Below n) (sym (if-true _ _ a)) (lt, b.1)
  | inr a ↦ subst (Below n) (sym (if-false _ _ a)) (b.0, assign-Below n d name v b.1 lt)
]

pub remove-Below : (n : ℕ) (d : Dict) (name : Text) → Below n d → Below n (remove name d)
unfolding remove
remove-Below n [] name b = tt
remove-Below n ((k, x) ∷ d) name b = elim (Bool-cases (text_eq k name)) [
  | inl a ↦ subst (Below n) (sym (if-true _ _ a)) (remove-Below n d name b.1)
  | inr a ↦ subst (Below n) (sym (if-false _ _ a)) (b.0, remove-Below n d name b.1)
]

pub Below-grow : (n m : ℕ) (d : Dict) → n ≤ m → Below n d → Below m d
Below-grow n m [] le b = tt
Below-grow n m ((k, x) ∷ d) le b = (omega (arith, b.0), Below-grow n m d le b.1)

-- every entry has a property
module _ {ℓ} (P : Text → ℕ → Type ℓ) where
  abbrev pub Entries : Dict → Type ℓ
  Entries [] = Unit {ℓ}
  Entries ((k, v) ∷ d) = P k v × Entries d

  pub lookup-Entries :
      (d : Dict) (name : Text) (v : ℕ) → Entries d → lookup name d ≡ some v → P name v
  unfolding lookup
  lookup-Entries [] name v h e = absurd (cc e)
  lookup-Entries ((k, x) ∷ d) name v h e = elim (Bool-cases (text_eq k name)) [
    | inl a ↦
        subst (P name) (some-injective x v (sym (if-true _ _ a) ∙ e))
          (subst (λ n. P n x) ((text_eq_iff k name).0 a) h.0)
    | inr a ↦ lookup-Entries d name v h.1 (sym (if-false _ _ a) ∙ e)
  ]

  pub assign-Entries :
      (d : Dict) (name : Text) (v : ℕ) → Entries d → P name v → Entries (assign name v d)
  unfolding assign
  assign-Entries [] name v h p = (p, tt)
  assign-Entries ((k, x) ∷ d) name v h p = elim (Bool-cases (text_eq k name)) [
    | inl a ↦
        subst Entries (sym (if-true _ _ a))
          (subst (λ n. P n v) (sym ((text_eq_iff k name).0 a)) p, h.1)
    | inr a ↦ subst Entries (sym (if-false _ _ a)) (h.0, assign-Entries d name v h.1 p)
  ]

module _ {ℓ} {P Q : Text → ℕ → Type ℓ} (f : (k : Text) (v : ℕ) → P k v → Q k v) where
  pub map-Entries : (d : Dict) → Entries P d → Entries Q d
  map-Entries [] h = tt
  map-Entries ((k, v) ∷ d) h = (f k v h.0, map-Entries d h.1)
