-- ===== src/Stream/Tail.antt =====
-- The rounds of `subscribe`: each yields what was appended since the last one.
use durastream.Common.{
  ℕ, ◌-◌, ◌≤◌, ◌<◌, ◌≡◌, ap, ◌∙◌, subst, none, some, List, Bytes, length, drop, take-of_le,
  length-drop, leb, le→leb, gt→leb, lt→ltb, arith, if◌then◌else◌, if-true, if-false,
}
use durastream.Common.Int.{ℤ, pos, negsuc, pos_part, add_ℕ}
use durastream.Errors.{Result, ok, err, os_error}
use durastream.Exec.{continue, pure}
use durastream.Disk.Laws.{NoFail}
use durastream.Codec.{Zlib}
use durastream.Stream.Defs.{Machine}
use durastream.Stream.Read.{read, again, wait, stop, subscribe_next, subscribe_round}
use durastream.Stream.Holds.{Holds, next_offset-Holds}
use durastream.Stream.Fetch.{Fetched}
use durastream.Stream.Range.{requested, read-requested}

module _ ⦃z : Zlib⦄ where
  -- A round yields `batch` and goes on from `offset`; or a system call failed.
  abbrev pub Yields : Machine → List Bytes → ℤ → Result (List Bytes × ℤ) × Machine → Type 0
  Yields before batch offset (ok r, w) =
      (r.0 ≡ batch) × (r.1 ≡ offset) × (w ≡ record before { os = w.os })
  Yields before batch offset (err e, w) = (e ≡ os_error) × (¬ NoFail before.os)

  pub requested_all :
      (rs : List Bytes) (offset : ℤ) → requested rs offset none ≡ drop (pos_part offset) rs
  requested_all rs offset =
      take-of_le (length rs - pos_part offset) (drop (pos_part offset) rs)
        (omega (arith, length-drop (pos_part offset) rs))

  yielded :
      (before : Machine) (batch : List Bytes) (offset : ℤ) (r : Result (List Bytes) × Machine)
      → Fetched before batch r
      → Yields before batch
          (add_ℕ offset (length batch))
          (continue (λ b. pure (b, add_ℕ offset (length b))) r)
  yielded before batch offset (ok b, w) h = (h.0, ap (λ l. add_ℕ offset (length l)) h.0, h.1)
  yielded before batch offset (err e, w) h = (h.0, h.1)

  module _ (rs : List Bytes) (w : Machine) (h : Holds rs w) {fd : ℕ}
      (file : w.self.file ≡ some fd) where
    round-Yields :
        (offset : ℤ)
        → Yields w
            (drop (pos_part offset) rs)
            (add_ℕ offset (length (drop (pos_part offset) rs)))
            (subscribe_round offset w)
    unfolding subscribe_round
    round-Yields offset = yielded w (drop (pos_part offset) rs) offset (read offset none w) (
        subst (λ l. Fetched w l (read offset none w)) (requested_all rs offset)
          (read-requested rs w h file offset none))

    -- Caught up, the generator waits for an append or, where the stream is closed, ends.
    caught_up : subscribe_next (pos (length rs)) w.self ≡ (if w.self.closed then stop else wait)
    unfolding subscribe_next
    caught_up = if-true (if w.self.closed then stop else wait) again (
        ap (λ n. leb n (length rs)) (next_offset-Holds rs w h)
        ∙ le→leb (length rs) (length rs) (omega arith))

    behind : (k : ℕ) → k < length rs → subscribe_next (pos k) w.self ≡ again
    unfolding subscribe_next
    behind k lt =
        if-false (if w.self.closed then stop else wait) again
          (ap (λ n. leb n k) (next_offset-Holds rs w h) ∙ gt→leb (length rs) k lt)

    -- A round of subscribe from an offset inside the stream yields every record from there on, once
    -- and in order, and leaves the generator at the end of the stream, where it waits, or ends if the
    -- stream is closed; or a system call failed.
    pub subscribe_round-Yields :
        (k : ℕ)
        → k ≤ length rs
        → Yields w (drop k rs) (pos (length rs)) (subscribe_round (pos k) w)
          × (subscribe_next (pos (length rs)) w.self ≡ (if w.self.closed then stop else wait))
    subscribe_round-Yields k le = (
      subst (λ o. Yields w (drop k rs) o (subscribe_round (pos k) w))
          (ap pos (omega (arith, length-drop k rs))) (round-Yields (pos k)),
      caught_up,
    )

    -- Started at the negative offset -(a + 1) on a stream of more than a records, subscribe yields the
    -- whole stream, does not wait, and yields the last a + 1 records a second time (where no system
    -- call fails).
    pub subscribe-repeats :
        (a : ℕ)
        → a < length rs
        → Yields w rs (pos (length rs - a - 1)) (subscribe_round (negsuc a) w)
          × (subscribe_next (pos (length rs - a - 1)) w.self ≡ again)
          × Yields w
              (drop (length rs - a - 1) rs)
              (pos (length rs))
              (subscribe_round (pos (length rs - a - 1)) w)
    subscribe-repeats a lt = (
      subst (λ o. Yields w rs o (subscribe_round (negsuc a) w))
          (if-true (pos (length rs - a - 1)) (negsuc (a - length rs)) (lt→ltb a (length rs) lt))
          (round-Yields (negsuc a)),
      behind (length rs - a - 1) (omega arith),
      (subscribe_round-Yields (length rs - a - 1) (omega arith)).0,
    )
