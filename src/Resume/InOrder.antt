-- ===== src/Resume/InOrder.antt =====
-- The generator sse_stream, over its steps and those of the other users of its stream.
use durastream.Common.{
  ℕ, ◌≤◌, ◌≡◌, refl, sym, subst, Bool, true, List, [], ◌++◌, append-nil, map, Bytes, Text, length,
}
use durastream.Common.Int.{pos}
use durastream.Errors.{Result, ok, err}
use durastream.Codec.{Zlib}
use durastream.Stream.Defs.{Machine}
use durastream.Stream.Write.{append_many, close, close_fds}
use durastream.Stream.Holds.{Holds, Holds-as}
use durastream.Stream.Append.{Appended, append_many-Appended}
use durastream.Stream.Close.{close-Closed}
use durastream.Stream.Shut.{Refused, append_many-Refused, close-stays}
use durastream.Stream.Follow.FirstOf.{close-Holds}
use durastream.Resume.{
  Event, reading, returned, waiting, Sse, chunk_of, begin_at, Step, appended, closed, released,
  answers, goes, left, Reached, connected, then_step,
}
use durastream.Resume.Sending.{Sent, Sent-grow, At, At-grow}
use durastream.Resume.Going.{Live, go_from-Live}

module _ ⦃z : Zlib⦄ (json_dumps : Text → Text) (is_text : Bytes → Bool) where
  module _ (start : ℕ) where
    -- the stream grows by `t`, unless it is closed
    moved :
        (rs t : List Bytes) (c : Sse) (w : Machine)
        → Live json_dumps start rs c
        → Holds (rs ++ t) w
        → (c.w.self.closed ≡ true → (w.self.closed ≡ true) × (t ≡ []))
        → Live json_dumps start (rs ++ t) (record c { w = w })
    moved rs t c w (h, (m, events, y, sent, at)) k s = (
      k,
      (
        m,
        events,
        y,
        Sent-grow rs t c.w.self.closed w.self.closed s start m events sent,
        At-grow rs t c.w.self.closed w.self.closed s m c.place c.offset at,
      ),
    )

    stayed :
        (rs : List Bytes) (c : Sse) (w : Machine)
        → Live json_dumps start rs c
        → Holds rs w
        → (c.w.self.closed ≡ true → w.self.closed ≡ true)
        → (qs : List Bytes) × Live json_dumps start qs (record c { w = w })
    stayed rs c w h k s = (
      rs ++ [],
      moved rs [] c w h (subst (λ l. Holds l w) (sym (append-nil rs)) k) (λ x. (s x, refl)),
    )

    append_many-Live :
        (rs ps : List Bytes) (c : Sse) (r : Result ℕ × Machine)
        → Live json_dumps start rs c
        → Appended rs ps r
        → (c.w.self.closed ≡ true → Refused r)
        → (qs : List Bytes) × Live json_dumps start qs (record c { w = r.1 })
    append_many-Live rs ps c (ok n, w) h (count, k, durable) refused =
        (rs ++ ps, moved rs ps c w h k (λ x. absurd (refused x)))
    append_many-Live rs ps c (err e, w) h k refused = stayed rs c w h k (λ x. refused x)

    step-Live :
        {c d : Sse}
        → Step json_dumps is_text c d
        → (rs : List Bytes) → Live json_dumps start rs c
        → (qs : List Bytes) × Live json_dumps start qs d
    unfolding close_fds
    step-Live (appended ps c) rs h =
        append_many-Live rs ps c (append_many ps c.w) h (append_many-Appended rs ps c.w h.0)
          (append_many-Refused ps c.w)
    step-Live (closed c) rs h =
        stayed rs c (close c.w).1 h (close-Holds rs c.w h.0 (close c.w) (close-Closed c.w))
          (close-stays c.w (close c.w) (close-Closed c.w))
    step-Live (released c) rs h =
        stayed rs c (record c.w { self = close_fds c.w.self }) h
          (Holds-as rs c.w _ h.0 refl refl (λ x. absurd (cc x))) (λ _. refl)
    step-Live (answers os c) rs h =
        stayed rs c (record c.w { os = os }) h (Holds-as rs c.w _ h.0 refl refl (λ x y. (x, y)))
          (λ x. x)
    step-Live (goes c) rs (h, (m, events, y, sent, at)) =
        (rs, go_from-Live json_dumps start rs c h m events y sent is_text c.place at refl)
    step-Live (left c) rs (h, (m, events, y, sent, at)) = (rs, (h, (m, events, y, sent, tt)))

    Reached-Live :
        {token : Text} {c : Sse}
        → Reached json_dumps is_text token start c
        → (rs : List Bytes) × Live json_dumps start rs c
    Reached-Live (connected w rs h e) = (
      rs,
      subst
          (λ r.
            Live json_dumps start rs
              (begin_at r (record { w = w; place = reading; offset = pos 0; yielded = [] })))
          (sym e) (h, (start, [], refl, refl, refl)),
    )
    Reached-Live (then_step c d reached step) =
        let (rs, h) = Reached-Live reached in step-Live step rs h

  -- Let a client connect with a token that is read as an offset that is not negative, while others append,
  -- close, and let the file go, whatever the system answers. What the generator has yielded are the bytes of
  -- events: the records from that offset on, each once and in order, each with the token of its offset as its
  -- id; between them tokens of the next offset, each behind the records before that offset; and the end of the
  -- stream, only behind all records of a stream that is closed. Where the generator has returned, the stream
  -- is closed and all is sent; where it waits, it waits at the offset behind what it has sent.
  pub sse_stream-InOrder :
      (token : Text) (start : ℕ) (c : Sse)
      → Reached json_dumps is_text token start c
      → (rs : List Bytes) × Holds rs c.w
        × ((m : ℕ) × (events : List Event) × (c.yielded ≡ map (chunk_of json_dumps) events)
            × Sent rs c.w.self.closed start events m
            × (c.place ≡ returned → (c.w.self.closed ≡ true) × (length rs ≤ m))
            × (c.place ≡ waiting → c.offset ≡ pos m))
  sse_stream-InOrder token start c reached =
      let (rs, (h, (m, events, y, sent, at))) = Reached-Live start reached in
      (
        rs,
        h,
        (
          m,
          events,
          y,
          sent,
          (λ p. subst (λ q. At rs c.w.self.closed m q c.offset) p at),
          (λ p. subst (λ q. At rs c.w.self.closed m q c.offset) p at),
        ),
      )
