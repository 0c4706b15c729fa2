-- ===== src/Hub/Listens.antt =====
-- A hub has one listener while it has subscribers, and none without.
use durastream.Common.{
  ℕ, ◌+◌, ◌<◌, ◌≡◌, refl, sym, ap, ◌∙◌, subst, Bool, false, Option, none, some, List, [], ◌∷◌, ◌++◌,
  ◌==◌, if◌then◌else◌, if-true, if-false, Bool-cases, inl, inr, arith, ==_refl,
}
use durastream.Errors.{Result}
use durastream.Stream.Defs.{Listener}
use durastream.Stream.Write.{add_listener, pop_listener, remove_listener}
use durastream.Sub.{Sub}
use durastream.Hub.{Fan, drop_dead, same_loop, attach, join, detach}

-- the listeners that call a hub
unfoldable pub mine : ℕ → List Listener → List Listener
mine cb [] = []
mine cb (l ∷ ls) = let rest = mine cb ls in if l.callback == cb then l ∷ rest else rest

-- Listeners have different numbers that were given out, and only the hub's own has its number.
abbrev pub Numbered : ℕ → ℕ → Option ℕ → List Listener → Type 0
Numbered next cb lid [] = Unit {0}
Numbered next cb none (l ∷ ls) = (l.lid < next) × Numbered next cb none ls
Numbered next cb (some n) (l ∷ ls) =
    (l.lid < next) × (l.lid ≡ n → l.callback ≡ cb) × Numbered next cb (some n) ls

abbrev pub Listening : ℕ → Option ℕ → List (ℕ × Sub) → List Listener → Type 0
Listening cb none subs ls = (subs ≡ []) × (mine cb ls ≡ [])
Listening cb (some n) subs ls =
    (¬ (subs ≡ [])) × (mine cb ls ≡ record { lid = n; callback = cb } ∷ [])

abbrev pub HubOk : Fan → Type 0
HubOk f =
    Numbered f.stream.next_lid f.hub.callback f.hub.lid f.stream.listeners
    × Listening f.hub.callback f.hub.lid f.hub.subs f.stream.listeners

pub mine-append :
    (cb : ℕ) (ls : List Listener) (l : Listener)
    → mine cb (ls ++ l ∷ []) ≡ mine cb ls ++ mine cb (l ∷ [])
unfolding mine
mine-append cb [] l = refl
mine-append cb (x ∷ ls) l = ground (arith, mine-append cb ls l)

-- taking the hub's own listener out
mine-pop :
    (next cb n : ℕ) (ls : List Listener)
    → Numbered next cb (some n) ls
    → mine cb ls ≡ record { lid = n; callback = cb } ∷ []
    → mine cb (pop_listener n ls).1 ≡ []
unfolding mine pop_listener
mine-pop next cb n [] h e = refl
mine-pop next cb n (x ∷ ls) h e = ground (arith, mine-pop next cb n ls h.2)

Numbered-forget :
    (next cb n : ℕ) (ls : List Listener) → Numbered next cb (some n) ls → Numbered next cb none ls
Numbered-forget next cb n [] h = tt
Numbered-forget next cb n (x ∷ ls) h = (h.0, Numbered-forget next cb n ls h.2)

Numbered-pop :
    (next cb n : ℕ) (ls : List Listener)
    → Numbered next cb (some n) ls
    → Numbered next cb none (pop_listener n ls).1
unfolding pop_listener
Numbered-pop next cb n [] h = tt
Numbered-pop next cb n (x ∷ ls) h = elim (Bool-cases (x.lid == n)) [
  | inl a ↦
      subst (λ (q : Bool × List Listener). Numbered next cb none q.1) (sym (if-true _ _ a))
        (Numbered-forget next cb n ls h.2)
  | inr a ↦
      subst (λ (q : Bool × List Listener). Numbered next cb none q.1) (sym (if-false _ _ a))
        (h.0, Numbered-pop next cb n ls h.2)
]

Numbered-add :
    (next cb : ℕ) (ls : List Listener)
    → Numbered next cb none ls
    → Numbered (next + 1) cb (some next) (ls ++ record { lid = next; callback = cb } ∷ [])
Numbered-add next cb [] h = (omega arith, λ e. refl, tt)
Numbered-add next cb (x ∷ ls) h =
    (omega (arith, h.0), λ e. absurd (omega (arith, e, h.0)), Numbered-add next cb ls h.1)

-- other code's listeners come and go
pub Numbered-other :
    (next cb k : ℕ) (lid : Option ℕ) (ls : List Listener)
    → ((n : ℕ) → lid ≡ some n → n < next)
    → Numbered next cb lid ls
    → Numbered (next + 1) cb lid (ls ++ record { lid = next; callback = k } ∷ [])
Numbered-other next cb k none [] lt h = (omega arith, tt)
Numbered-other next cb k (some n) [] lt h =
    (omega arith, λ e. absurd (omega (arith, e, lt n refl)), tt)
Numbered-other next cb k none (x ∷ ls) lt h =
    (omega (arith, h.0), Numbered-other next cb k none ls lt h.1)
Numbered-other next cb k (some n) (x ∷ ls) lt h =
    (omega (arith, h.0), h.1, Numbered-other next cb k (some n) ls lt h.2)

not_empty : {A : Type 0} (xs : List A) (x : A) → ¬ (xs ++ x ∷ [] ≡ [])
not_empty [] x e = cc e
not_empty (y ∷ xs) x e = cc e

mine-one :
    (cb n : ℕ)
    → mine cb (record { lid = n; callback = cb } ∷ []) ≡ record { lid = n; callback = cb } ∷ []
unfolding mine
mine-one cb n = if-true _ _ (==_refl cb)

-- what a hub that is about to take a subscriber needs
abbrev Ready : ℕ → Option ℕ → Fan → Type 0
Ready running none f = (f.hub.subs ≡ []) × (mine f.hub.callback f.stream.listeners ≡ [])
Ready running (some n) f =
    (same_loop running f.hub.loop ≡ false → ¬ (f.hub.subs ≡ []))
    × (mine f.hub.callback f.stream.listeners ≡ record { lid = n; callback = f.hub.callback } ∷ [])

attach-Ok :
    (running : ℕ) (lid : Option ℕ) (f : Fan)
    → f.hub.lid ≡ lid
    → Numbered f.stream.next_lid f.hub.callback lid f.stream.listeners
    → Ready running lid f
    → HubOk (attach running lid f).1
unfolding add_listener
attach-Ok running none f e h r = (
  Numbered-add f.stream.next_lid f.hub.callback f.stream.listeners h,
  (
    not_empty f.hub.subs _,
    mine-append f.hub.callback f.stream.listeners
          (record { lid = f.stream.next_lid; callback = f.hub.callback })
        ∙ ap
            (λ l.
              l
              ++ mine f.hub.callback
                  (record { lid = f.stream.next_lid; callback = f.hub.callback } ∷ []))
            r.1
        ∙ mine-one f.hub.callback f.stream.next_lid,
  ),
)
attach-Ok running (some n) f e h r = elim (Bool-cases (same_loop running f.hub.loop)) [
  | inl a ↦
      subst (λ (q : Result ℕ × Fan). HubOk q.1) (sym (if-true _ _ a))
        (ok_with _ (not_empty f.hub.subs _))
  | inr a ↦
      subst (λ (q : Result ℕ × Fan). HubOk q.1) (sym (if-false _ _ a)) (ok_with f.hub.subs (r.0 a))
]
  where
    ok_with :
        (subs : List (ℕ × Sub))
        → ¬ (subs ≡ [])
        → Numbered f.stream.next_lid f.hub.callback f.hub.lid f.stream.listeners
          × Listening f.hub.callback f.hub.lid subs f.stream.listeners
    ok_with subs some_left =
        subst
          (λ lid.
            Numbered f.stream.next_lid f.hub.callback lid f.stream.listeners
            × Listening f.hub.callback lid subs f.stream.listeners)
          (sym e) (h, (some_left, r.1))

-- a hub that is all right is ready to take one more
ready :
    (running : ℕ) (lid : Option ℕ) (f : Fan)
    → Listening f.hub.callback lid f.hub.subs f.stream.listeners
    → Ready running lid f
ready running none f l = l
ready running (some n) f l = (λ a. l.0, l.1)

emptied :
    (running : ℕ) (lid : Option ℕ) (f : Fan)
    → Listening f.hub.callback lid f.hub.subs f.stream.listeners
    → Ready running lid (record f { hub = record f.hub { subs = []; loop = some running } })
emptied running none f l = (refl, l.1)
emptied running (some n) f l = (λ a. absurd (cc (sym a ∙ ==_refl running)), l.1)

pub join-Ok :
    (running : ℕ) (is_closed : ℕ → Bool) (f : Fan) → HubOk f → HubOk (join running is_closed f).1
unfolding join
join-Ok running is_closed f h = by f.hub.loop
  where
    by :
        (loop : Option ℕ)
        → HubOk
            (let hub = drop_dead running is_closed loop f.hub in
              attach running hub.lid (record f { hub = hub })).1
    by none = attach-Ok running f.hub.lid f refl h.0 (ready running f.hub.lid f h.1)
    by (some l) = elim (Bool-cases (is_closed l)) [
      | inl a ↦
          subst (λ hub. HubOk (attach running hub.lid (record f { hub = hub })).1)
            (sym (if-true _ f.hub a))
            (attach-Ok running f.hub.lid
              (record f { hub = record f.hub { subs = []; loop = some running } }) refl h.0
              (emptied running f.hub.lid f h.1))
      | inr a ↦
          subst (λ hub. HubOk (attach running hub.lid (record f { hub = hub })).1)
            (sym (if-false _ f.hub a))
            (attach-Ok running f.hub.lid f refl h.0 (ready running f.hub.lid f h.1))
    ]

pub detach-Ok :
    (subs : List (ℕ × Sub)) (lid : Option ℕ) (f : Fan)
    → f.hub.subs ≡ subs
    → f.hub.lid ≡ lid
    → Numbered f.stream.next_lid f.hub.callback lid f.stream.listeners
    → (lid ≡ none → f.hub.subs ≡ [])
    → ((n : ℕ)
        → lid ≡ some n
        → mine f.hub.callback f.stream.listeners
          ≡ record { lid = n; callback = f.hub.callback } ∷ [])
    → (lid ≡ none → mine f.hub.callback f.stream.listeners ≡ [])
    → HubOk (detach subs lid f)
unfolding remove_listener
detach-Ok [] (some n) f es el h a m z = (
  Numbered-pop f.stream.next_lid f.hub.callback n f.stream.listeners h,
  (es, mine-pop f.stream.next_lid f.hub.callback n f.stream.listeners h (m n refl)),
)
detach-Ok [] none f es el h a m z =
    subst
      (λ lid.
        Numbered f.stream.next_lid f.hub.callback lid f.stream.listeners
        × Listening f.hub.callback lid f.hub.subs f.stream.listeners)
      (sym el) (h, (es, z refl))
detach-Ok (s ∷ subs) none f es el h a m z = absurd (cc (sym es ∙ a refl))
detach-Ok (s ∷ subs) (some n) f es el h a m z =
    subst
      (λ lid.
        Numbered f.stream.next_lid f.hub.callback lid f.stream.listeners
        × Listening f.hub.callback lid f.hub.subs f.stream.listeners)
      (sym el) (h, (λ e. cc (sym es ∙ e), m n refl))
