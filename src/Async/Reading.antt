-- ===== src/Async/Reading.antt =====
-- The shortcut of `AsyncDurableStream.read`.
use durastream.Common.{
  ℕ, ◌≡◌, refl, sym, ◌∙◌, subst, true, ◌||◌, Option, none, some, [], if-true, if-false, Bool-cases,
  inl, inr, arith,
}
use durastream.Common.Int.{ℤ, pos, negsuc, lebℤ, minℤ, maxℤ}
use durastream.Errors.{ok}
use durastream.Codec.{Zlib}
use durastream.Stream.Defs.{Machine, next_offset}
use durastream.Stream.Read.{read}
use durastream.Async.{nothing_new, async_read}

abbrev from : ℤ → ℕ
from (pos a) = a
from (negsuc a) = 0

from-max : (x : ℤ) → maxℤ x (pos 0) ≡ pos (from x)
from-max (pos a) = ground arith
from-max (negsuc a) = refl

-- a stop before the start, on the side of the end asked for or on that of the stream
stop_first :
    (last start : ℕ) (e : ℤ)
    → (lebℤ (pos last) (pos start) || lebℤ e (pos start)) ≡ true
    → lebℤ (minℤ e (pos last)) (pos start) ≡ true
stop_first last start (pos b) h = ground arith
stop_first last start (negsuc b) h = refl

nothing_new-read :
    ⦃z : Zlib⦄
    → (offset : ℤ) (end : Option ℤ) (w : Machine)
    → nothing_new (next_offset w.self) (maxℤ offset (pos 0)) end ≡ true
    → read offset end w ≡ (ok [], w)
unfolding read next_offset
nothing_new-read offset none w h = if-true _ _ h
nothing_new-read offset (some e) w h = if-true _ _ (
    subst (λ s. lebℤ (minℤ e (pos (next_offset w.self))) s ≡ true) (sym (from-max offset))
      (stop_first (next_offset w.self) (from offset) e
        (subst (λ s. nothing_new (next_offset w.self) s (some e) ≡ true) (from-max offset) h)))

-- For every offset and end: the asynchronous read, which answers at once when it sees nothing new, returns
-- or raises what the stream's read does, and leaves the same state.
pub async_read-read :
    ⦃z : Zlib⦄
    → (offset : ℤ) (end : Option ℤ) (w : Machine) → async_read offset end w ≡ read offset end w
unfolding async_read next_offset
async_read-read offset end w =
    elim (Bool-cases (nothing_new (next_offset w.self) (maxℤ offset (pos 0)) end)) [
      | inl a ↦ if-true _ _ a ∙ sym (nothing_new-read offset end w a)
      | inr a ↦ if-false _ _ a
    ]
