-- ===== src/Resume/Going.antt =====
-- The generator's next step, by where it is.
use durastream.Common.{
  ℕ, suc, ◌+◌, ◌≤◌, ◌≡◌, refl, sym, ap, ◌∙◌, subst, Bool, true, false, none, List, [], ◌∷◌, ◌++◌,
  map, Bytes, Text, length, take, drop, take-of_le, leb, leb→le, if◌then◌else◌, arith,
}
use durastream.Common.Int.{ℤ, pos, lebℤ, add_ℕ}
use durastream.Errors.{Result, ok, err}
use durastream.Token.{to_token}
use durastream.Codec.{Zlib}
use durastream.Stream.Defs.{Machine, next_offset}
use durastream.Stream.Read.{read}
use durastream.Stream.Holds.{Holds, Holds-as, next_offset-Holds}
use durastream.Stream.Follow.FirstOf.{FirstOf, Took, read-Took}
use durastream.Async.{async_read}
use durastream.Async.Reading.{async_read-read}
use durastream.Resume.{
  Event, message, next_token, stream_end, Place, reading, looking, comparing, waiting, returned,
  cancelled, sending, raised, Sse, chunk_of, send, send_message, send_next, arrived, go_from,
}
use durastream.Resume.Sending.{FirstOf-split, Sent, Sent-append, At}

map-snoc :
    {A B : Type 0} (f : A → B) (xs : List A) (x : A) → map f xs ++ f x ∷ [] ≡ map f (xs ++ x ∷ [])
map-snoc f [] x = refl
map-snoc f (y ∷ xs) x = ap (λ l. f y ∷ l) (map-snoc f xs x)

module _ ⦃z : Zlib⦄ (json_dumps : Text → Text) (start : ℕ) where
  -- What a generator on a stream of `rs` has yielded since the offset `start`, and where it is.
  abbrev pub Live : List Bytes → Sse → Type 0
  Live rs c =
      Holds rs c.w
      × ((m : ℕ) × (events : List Event) × (c.yielded ≡ map (chunk_of json_dumps) events)
          × Sent rs c.w.self.closed start events m
          × At rs c.w.self.closed m c.place c.offset)

  if-Live :
      (rs : List Bytes) (b : Bool) (d e : Sse)
      → (b ≡ true → Live rs d)
      → (b ≡ false → Live rs e)
      → Live rs (if b then d else e)
  if-Live rs true d e h k = h refl
  if-Live rs false d e h k = k refl

  same-os : (rs : List Bytes) (w v : Machine) → Holds rs w → v ≡ record w { os = v.os } → Holds rs v
  same-os rs w v h same =
      subst (Holds rs) (sym same)
        (Holds-as rs w (record w { os = v.os }) h refl refl (λ c o. (c, o)))

  drained :
      (rs : List Bytes) (w : Machine) (offset : ℤ) (m : ℕ)
      → Holds rs w
      → lebℤ (pos (next_offset w.self)) offset ≡ true
      → offset ≡ pos m
      → length rs ≤ m
  drained rs w offset m holds a o =
      let le : leb (next_offset w.self) m ≡ true =
        subst (λ k. lebℤ (pos (next_offset w.self)) k ≡ true) o a in
      omega (arith, leb→le _ _ le, next_offset-Holds rs w holds)

  module _ (rs : List Bytes) (c : Sse) (holds : Holds rs c.w) (m : ℕ) (events : List Event)
      (y : c.yielded ≡ map (chunk_of json_dumps) events)
      (sent : Sent rs c.w.self.closed start events m) where
    send-Live :
        (k : ℕ) (e : Event) (p : Place)
        → Sent rs c.w.self.closed m (e ∷ []) k
        → At rs c.w.self.closed k p c.offset
        → Live rs (send json_dumps e p c)
    send-Live k e p one at = (
      holds,
      (
        k,
        events ++ e ∷ [],
        ap (λ l. l ++ chunk_of json_dumps e ∷ []) y ∙ map-snoc (chunk_of json_dumps) events e,
        Sent-append rs c.w.self.closed start m k events (e ∷ []) sent one,
        at,
      ),
    )

    arrived-Live :
        (r : Result (List Bytes) × Machine)
        → c.offset ≡ pos m
        → Took (drop m rs) c.w r
        → Live rs (arrived c r)
    arrived-Live (ok batch, w) at (e, same) =
        (same-os rs c.w w holds same, (m, events, y, still, (m, at, omega arith, batch_first)))
      where
        still : Sent rs w.self.closed start events m
        still = subst (λ v. Sent rs v.self.closed start events m) (sym same) sent

        batch_first : FirstOf rs m batch
        batch_first =
            e
            ∙ sym (
                ap (λ l. take (length l) (drop m rs)) e
                ∙ take-of_le (length (drop m rs)) (drop m rs) (omega arith))
    arrived-Live (err e, w) at same = (
      same-os rs c.w w holds same,
      (m, events, y, subst (λ v. Sent rs v.self.closed start events m) (sym same) sent, tt),
    )

    message-Live :
        (r : Bytes) (p : Place) (offset : ℤ)
        → offset ≡ pos m
        → FirstOf rs m (r ∷ [])
        → At rs c.w.self.closed (suc m) p c.offset
        → Live rs (send_message json_dumps (to_token offset) r p c)
    message-Live r p offset o one at = by (to_token offset) refl
      where
        by : (t : Result Text) → to_token offset ≡ t → Live rs (send_message json_dumps t r p c)
        by (ok id) e = send-Live (suc m) (message id r) p (sym (ap to_token o) ∙ e, one, refl) at
        by (err x) e = (holds, (m, events, y, sent, tt))

    tell_next-Live : c.offset ≡ pos m → Live rs (send_next json_dumps (to_token c.offset) c)
    tell_next-Live o = by (to_token c.offset) refl
      where
        by : (t : Result Text) → to_token c.offset ≡ t → Live rs (send_next json_dumps t c)
        by (ok t) e = send-Live m (next_token t) waiting (sym (ap to_token o) ∙ e, refl) o
        by (err x) e = (holds, (m, events, y, sent, tt))

    pub go_from-Live :
        (is_text : Bytes → Bool) (p : Place)
        → At rs c.w.self.closed m p c.offset
        → p ≡ c.place
        → Live rs (go_from json_dumps is_text p c)
    go_from-Live is_text reading at q = arrived-Live (async_read c.offset none c.w) at (
        subst (Took (drop m rs) c.w) (sym (async_read-read c.offset none c.w))
          (subst (λ o. Took (drop m rs) c.w (read o none c.w)) (sym at) (read-Took rs c.w m holds)))
    go_from-Live is_text (sending i []) (b, o, l, f) q =
        (holds, (m, events, y, sent, ap (λ o. add_ℕ o i) o ∙ ap pos l))
    go_from-Live is_text (sending i (r ∷ left)) (b, o, l, f) q =
        let (one, rest) = FirstOf-split rs m r left f in
        if-Live rs (is_text r) _ _
          (λ _.
            message-Live r (sending (i + 1) left) (add_ℕ c.offset i)
              (ap (λ o. add_ℕ o i) o ∙ ap pos l) one (b, o, omega (arith, l), rest))
          (λ _. (holds, (m, events, y, sent, tt)))
    go_from-Live is_text looking at q =
        if-Live rs c.w.self.closed _ _ (λ a. (holds, (m, events, y, sent, (at, a))))
          (λ _. tell_next-Live at)
    go_from-Live is_text comparing (at, shut) q =
        if-Live rs (lebℤ (pos (next_offset c.w.self)) c.offset) _ _
          (λ a.
            send-Live m stream_end returned (shut, drained rs c.w c.offset m holds a at, refl)
              (shut, drained rs c.w c.offset m holds a at))
          (λ _. tell_next-Live at)
    go_from-Live is_text waiting at q = (holds, (m, events, y, sent, at))
    go_from-Live is_text returned at q =
        (holds, (m, events, y, sent, subst (λ p. At rs c.w.self.closed m p c.offset) q at))
    go_from-Live is_text cancelled at q =
        (holds, (m, events, y, sent, subst (λ p. At rs c.w.self.closed m p c.offset) q tt))
    go_from-Live is_text (raised e) at q =
        (holds, (m, events, y, sent, subst (λ p. At rs c.w.self.closed m p c.offset) q tt))
