-- ===== src/Hub/OneListener.antt =====
-- A hub among the other listeners of its stream.
use durastream.Common.{
  ℕ, ◌<◌, ◌≡◌, refl, sym, ap, ◌∙◌, subst, subst₂, Bool, Option, none, some, List, [], ◌∷◌, ◌++◌,
  ◌==◌, if-true, if-false, Bool-cases, inl, inr, arith, length, append-nil,
}
use durastream.Stream.Defs.{Listener, Stream}
use durastream.Stream.Write.{add_listener, pop_listener, remove_listener}
use durastream.Hub.{Fan, join, discard, leave}
use durastream.Hub.Listens.{
  mine, Numbered, Listening, HubOk, mine-append, Numbered-other, join-Ok, detach-Ok,
}

leave-Ok : (n : ℕ) (f : Fan) → HubOk f → HubOk (leave n f)
unfolding leave discard
leave-Ok n f h =
    detach-Ok (discard n f.hub.subs) f.hub.lid
      (record f { hub = record f.hub { subs = discard n f.hub.subs } }) refl refl h.0
      (λ e. ap (discard n) (at none e).0) (λ k e. (at (some k) e).1) (λ e. (at none e).1)
  where
    at :
        (lid : Option ℕ)
        → f.hub.lid ≡ lid
        → Listening f.hub.callback lid f.hub.subs f.stream.listeners
    at lid e = subst (λ l. Listening f.hub.callback l f.hub.subs f.stream.listeners) e h.1

-- Calls of the hub, and other code that adds and removes listeners of its own, appends, or closes.
pub data Step : Fan → Fan → Type 0 where
  joins : (running : ℕ) (is_closed : ℕ → Bool) (f : Fan) → Step f (join running is_closed f).1
  leaves : (n : ℕ) (f : Fan) → Step f (leave n f)
  other_added :
      (k : ℕ) (f : Fan)
      → ¬ (k ≡ f.hub.callback)
      → Step f (record f { stream = (add_listener k f.stream).1 })
  other_removed :
      (lid : ℕ) (f : Fan)
      → ¬ (f.hub.lid ≡ some lid)
      → Step f (record f { stream = (remove_listener lid f.stream).1 })
  touched :
      (s : Stream) (f : Fan)
      → s.listeners ≡ f.stream.listeners
      → s.next_lid ≡ f.stream.next_lid
      → Step f (record f { stream = s })

abbrev NoLid : ℕ → List Listener → Type 0
NoLid lid [] = Unit {0}
NoLid lid (x ∷ ls) = (¬ (x.lid ≡ lid)) × NoLid lid ls

mine-pop_other :
    (cb lid : ℕ) (ls : List Listener)
    → NoLid lid (mine cb ls)
    → mine cb (pop_listener lid ls).1 ≡ mine cb ls
unfolding mine pop_listener
mine-pop_other cb lid [] h = refl
mine-pop_other cb lid (x ∷ ls) h = elim (Bool-cases (x.callback == cb)) [
  | inl c ↦
      let h' = subst (NoLid lid) (if-true (x ∷ mine cb ls) (mine cb ls) c) h in
      ground (arith, h'.0, mine-pop_other cb lid ls h'.1)
  | inr c ↦
      let h' = subst (NoLid lid) (if-false (x ∷ mine cb ls) (mine cb ls) c) h in
      ground (arith, mine-pop_other cb lid ls h')
]

Numbered-pop_other :
    (next cb lid : ℕ) (own : Option ℕ) (ls : List Listener)
    → Numbered next cb own ls
    → Numbered next cb own (pop_listener lid ls).1
unfolding pop_listener
Numbered-pop_other next cb lid none [] h = tt
Numbered-pop_other next cb lid (some n) [] h = tt
Numbered-pop_other next cb lid none (x ∷ ls) h = elim (Bool-cases (x.lid == lid)) [
  | inl a ↦
      subst (λ (q : Bool × List Listener). Numbered next cb none q.1) (sym (if-true _ _ a)) h.1
  | inr a ↦
      subst (λ (q : Bool × List Listener). Numbered next cb none q.1) (sym (if-false _ _ a))
        (h.0, Numbered-pop_other next cb lid none ls h.1)
]
Numbered-pop_other next cb lid (some n) (x ∷ ls) h = elim (Bool-cases (x.lid == lid)) [
  | inl a ↦
      subst (λ (q : Bool × List Listener). Numbered next cb (some n) q.1) (sym (if-true _ _ a)) h.2
  | inr a ↦
      subst (λ (q : Bool × List Listener). Numbered next cb (some n) q.1) (sym (if-false _ _ a))
        (h.0, h.1, Numbered-pop_other next cb lid (some n) ls h.2)
]

mine-other : (cb : ℕ) (x : Listener) → ¬ (x.callback ≡ cb) → mine cb (x ∷ []) ≡ []
unfolding mine
mine-other cb x ne = ground arith

mine-lt :
    (next cb n : ℕ) (ls : List Listener)
    → Numbered next cb (some n) ls
    → mine cb ls ≡ record { lid = n; callback = cb } ∷ []
    → n < next
unfolding mine
mine-lt next cb n [] h e = absurd (cc e)
mine-lt next cb n (x ∷ ls) h e = ground (arith, mine-lt next cb n ls h.2)

-- Every other listener is none of the hub's business.
other_added-Ok :
    (k : ℕ) (f : Fan)
    → ¬ (k ≡ f.hub.callback)
    → HubOk f
    → HubOk (record f { stream = (add_listener k f.stream).1 })
unfolding add_listener
other_added-Ok k f ne h = (
  Numbered-other f.stream.next_lid f.hub.callback k f.hub.lid f.stream.listeners below h.0,
  by f.hub.lid h.1,
)
  where
    new : Listener
    new = record { lid = f.stream.next_lid; callback = k }

    below : (n : ℕ) → f.hub.lid ≡ some n → n < f.stream.next_lid
    below n e =
        mine-lt _ f.hub.callback n f.stream.listeners
          (subst (λ l. Numbered f.stream.next_lid f.hub.callback l f.stream.listeners) e h.0)
          (subst (λ l. Listening f.hub.callback l f.hub.subs f.stream.listeners) e h.1).1

    same :
        mine f.hub.callback (f.stream.listeners ++ new ∷ [])
        ≡ mine f.hub.callback f.stream.listeners
    same =
        mine-append f.hub.callback f.stream.listeners new
        ∙ ap (λ l. mine f.hub.callback f.stream.listeners ++ l) (mine-other f.hub.callback new ne)
        ∙ append-nil (mine f.hub.callback f.stream.listeners)

    by :
        (lid : Option ℕ)
        → Listening f.hub.callback lid f.hub.subs f.stream.listeners
        → Listening f.hub.callback lid f.hub.subs (f.stream.listeners ++ new ∷ [])
    by none l = (l.0, same ∙ l.1)
    by (some n) l = (l.0, same ∙ l.1)

other_removed-Ok :
    (lid : ℕ) (f : Fan)
    → ¬ (f.hub.lid ≡ some lid)
    → HubOk f
    → HubOk (record f { stream = (remove_listener lid f.stream).1 })
unfolding remove_listener
other_removed-Ok lid f ne h = (
  Numbered-pop_other f.stream.next_lid f.hub.callback lid f.hub.lid f.stream.listeners h.0,
  by f.hub.lid refl h.1,
)
  where
    by :
        (own : Option ℕ)
        → f.hub.lid ≡ own
        → Listening f.hub.callback own f.hub.subs f.stream.listeners
        → Listening f.hub.callback own f.hub.subs (pop_listener lid f.stream.listeners).1
    by none e l = (
      l.0,
      mine-pop_other f.hub.callback lid f.stream.listeners (subst (NoLid lid) (sym l.1) tt) ∙ l.1,
    )
    by (some n) e l = (
      l.0,
      mine-pop_other f.hub.callback lid f.stream.listeners
            (subst (NoLid lid) (sym l.1) (λ q. ne (e ∙ ap some q), tt))
          ∙ l.1,
    )

step-Ok : {f g : Fan} → Step f g → HubOk f → HubOk g
step-Ok (joins running is_closed f) h = join-Ok running is_closed f h
step-Ok (leaves n f) h = leave-Ok n f h
step-Ok (other_added k f ne) h = other_added-Ok k f ne h
step-Ok (other_removed lid f ne) h = other_removed-Ok lid f ne h
step-Ok (touched s f e q) h =
    subst₂
      (λ ls next.
        Numbered next f.hub.callback f.hub.lid ls
        × Listening f.hub.callback f.hub.lid f.hub.subs ls)
      (sym e) (sym q) h

-- A new hub, on a stream that may have other listeners.
pub data Reached : Fan → Type 0 where
  made :
      (callback : ℕ) (s : Stream)
      → Numbered s.next_lid callback none s.listeners
      → mine callback s.listeners ≡ []
      → Reached (record {
        hub = record { callback = callback; subs = []; next_sub = 0; lid = none; loop = none };
        stream = s;
      })
  then_step : (f g : Fan) → Reached f → Step f g → Reached g

reached-Ok : {f : Fan} → Reached f → HubOk f
reached-Ok (made callback s numbered none_yet) = (numbered, (refl, none_yet))
reached-Ok (then_step f g reached step) = step-Ok step (reached-Ok reached)

-- Whoever joins and leaves, in whichever loops, and whatever other listeners the stream gets and loses:
-- a hub with subscribers has exactly one listener on its stream, however many they are, and a hub
-- without subscribers has none.
pub one_listener :
    (f : Fan)
    → Reached f
    → (f.hub.subs ≡ [] → length (mine f.hub.callback f.stream.listeners) ≡ 0)
      × (¬ (f.hub.subs ≡ []) → length (mine f.hub.callback f.stream.listeners) ≡ 1)
one_listener f reached = by f.hub.lid (reached-Ok reached).1
  where
    by :
        (lid : Option ℕ)
        → Listening f.hub.callback lid f.hub.subs f.stream.listeners
        → (f.hub.subs ≡ [] → length (mine f.hub.callback f.stream.listeners) ≡ 0)
          × (¬ (f.hub.subs ≡ []) → length (mine f.hub.callback f.stream.listeners) ≡ 1)
    by none l = (λ e. ap length l.1, λ ne. absurd (ne l.0))
    by (some n) l = (λ e. absurd (l.0 e), λ ne. ap length l.1)
