-- ===== src/Async/Hubs.antt =====
-- `AsyncStore._wrap`: which hub serves an object.
use durastream.Common.{
  ℕ, ◌≡◌, refl, sym, ◌∙◌, subst, true, false, not, ◌||◌, Option, none, some, List, [], ◌∷◌, ◌++◌,
  Text, length, get_elem?, get_elem-append, get_elem-append_last, get_elem-some, get_elem?, ◌==◌,
  if-true, if-false, Bool-cases, ◌⊎◌, inl, inr, arith,
}
use durastream.Dict.{lookup, lookup-assign, Entries, lookup-Entries, assign-Entries, map-Entries}
use durastream.Stream.Defs.{Stream}
use durastream.Async.{AsyncStore, is_closed, keeps, new_hub, hub_for, name_of, wrap}

-- A hub's stream has the name that the hub stands under.
abbrev pub Named : List Stream → List ℕ → Text → ℕ → Type 0
Named heap hub_streams name h =
    (p : ℕ) × (get_elem? hub_streams h ≡ some p)
    × ((t : Stream) × (get_elem? heap p ≡ some t) × (t.name ≡ name))

abbrev pub HubsOk : AsyncStore → Type 0
HubsOk a = Entries (Named a.store.heap a.hub_streams) a.hubs

-- The hub `h` has the object `o`, or another of the same name that is open.
abbrev pub Serves : ℕ → Stream → ℕ × AsyncStore → Type 0
Serves o s (h, a) =
    (p : ℕ) × (get_elem? a.hub_streams h ≡ some p)
    × ((p ≡ o)
        ⊎ ((t : Stream) × (get_elem? a.store.heap p ≡ some t)
            × (t.name ≡ s.name)
            × (t.closed ≡ false)))

abbrev pub Wraps : ℕ → Stream → ℕ × AsyncStore → Type 0
Wraps o s (h, a) = HubsOk a × Serves o s (h, a) × (lookup s.name a.hubs ≡ some h)

module _ (a : AsyncStore) (o : ℕ) (s : Stream) (ok_before : HubsOk a)
    (there : get_elem? a.store.heap o ≡ some s) where
  Named-grow :
      (k : Text) (h : ℕ)
      → Named a.store.heap a.hub_streams k h
      → Named a.store.heap (a.hub_streams ++ o ∷ []) k h
  Named-grow k h (p, e, n) =
      (p, get_elem-append a.hub_streams (o ∷ []) h (get_elem-some a.hub_streams h p e) ∙ e, n)

  new_hub-Wraps : Wraps o s (new_hub s.name o a)
  new_hub-Wraps =
      let last = get_elem-append_last a.hub_streams o in
      (
        assign-Entries (Named a.store.heap (a.hub_streams ++ o ∷ [])) a.hubs s.name
            (length a.hub_streams) (map-Entries Named-grow a.hubs ok_before)
            (o, last, (s, there, refl)),
        (o, last, inl refl),
        lookup-assign s.name (length a.hub_streams) a.hubs,
      )

  -- a hub that is kept has the object, or one that is open
  keeps-open :
      (p : ℕ) (t : Stream)
      → get_elem? a.store.heap p ≡ some t
      → keeps o (some p) a.store ≡ true
      → (p ≡ o) ⊎ (t.closed ≡ false)
  keeps-open p t e k = by (subst (λ x. ((p == o) || not (is_closed x)) ≡ true) e k)
    where
      by : ((p == o) || not t.closed) ≡ true → (p ≡ o) ⊎ (t.closed ≡ false)
      by k = elim (Bool-cases t.closed) [ inl c ↦ inl (ground (arith, c, k)) | inr c ↦ inr c ]

  kept-Wraps :
      (h : ℕ)
      → lookup s.name a.hubs ≡ some h
      → keeps o (get_elem? a.hub_streams h) a.store ≡ true
      → Wraps o s (h, a)
  kept-Wraps h found k =
      let (p, e, (t, at, named)) =
        lookup-Entries (Named a.store.heap a.hub_streams) a.hubs s.name h ok_before found in
      (
        ok_before,
        (
          p,
          e,
          elim (keeps-open p t at (subst (λ x. keeps o x a.store ≡ true) e k)) [
            | inl same ↦ inl same
            | inr live ↦ inr (t, at, named, live)
          ],
        ),
        found,
      )

  hub_for-Wraps :
      (found : Option ℕ) → lookup s.name a.hubs ≡ found → Wraps o s (hub_for s.name o found a)
  hub_for-Wraps none e = new_hub-Wraps
  hub_for-Wraps (some h) e = elim (Bool-cases (keeps o (get_elem? a.hub_streams h) a.store)) [
    | inl k ↦ subst (Wraps o s) (sym (if-true _ _ k)) (kept-Wraps h e k)
    | inr k ↦ subst (Wraps o s) (sym (if-false _ _ k)) new_hub-Wraps
  ]

-- If every hub of an asynchronous store has a stream of the name that it stands under, then an object that
-- is wrapped gets a hub which stands under its name, and whose stream is the object itself or another
-- of that name that is open; and the hubs' streams have their names still.
pub wrap-Wraps :
    (a : AsyncStore) (o : ℕ) (s : Stream)
    → HubsOk a
    → get_elem? a.store.heap o ≡ some s
    → Wraps o s (wrap o a)
unfolding wrap
wrap-Wraps a o s ok_before there =
    subst (λ x. Wraps o s (hub_for (name_of x) o (lookup (name_of x) a.hubs) a)) (sym there)
      (hub_for-Wraps a o s ok_before there (lookup s.name a.hubs) refl)
