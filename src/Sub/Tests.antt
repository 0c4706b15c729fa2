-- ===== src/Sub/Tests.antt =====
-- A subscriber that reads a record from the disk, is handed another by a delivery, and ends.
use durastream.Common.{◌≡◌, refl, true, false, [], ◌∷◌, ◌++◌, Bytes, drop}
use durastream.Common.Int.{pos}
use durastream.Sub.{Sub, new_sub, deliver, turn}
use durastream.Sub.Asleep
use durastream.Sub.InOrder.{
  Tail, Reached, joined, then_step, append, close, call, go_around, read_done, next_turn, advance,
  fetched, InOrder, subscribe-InOrder,
}

abbrev a : Bytes
a = b'a' ∷ []

abbrev b : Bytes
b = b'b' ∷ []

-- the second record is the next that is expected, and the first is delivered again with it
abbrev waiting : Sub
waiting = record { buf = []; nbytes = 0; start = 1; stale = false; event = false }

deliver_test : (deliver 0 (a ∷ b ∷ []) waiting).buf ≡ b ∷ []
unfolding deliver
deliver_test = refl

abbrev at_start : Tail
at_start = record {
  recs = a ∷ [];
  closed = false;
  sub = new_sub;
  pos = 0;
  fetching = false;
  yielded = [];
}

abbrev after_read : Tail
after_read = fetched (advance at_start (next_turn at_start))

abbrev after_append : Tail
after_append = record after_read { recs = after_read.recs ++ b ∷ [] }

abbrev after_call : Tail
after_call = record after_append { sub = deliver 1 (b ∷ []) after_append.sub }

abbrev at_end : Tail
at_end = record (advance after_call (next_turn after_call)) { closed = true }

at_end-Reached : Reached (pos 0) at_end
unfolding advance turn fetched deliver
at_end-Reached =
    then_step _ _
      (then_step _ _
        (then_step _ _
          (then_step _ _
            (then_step _ _ (then_step _ _ (joined (a ∷ []) false) (go_around at_start refl))
              (read_done (advance at_start (next_turn at_start)) refl))
            (append after_read (b ∷ [])))
          (call after_append 1 (b ∷ []) ([], refl)))
        (go_around after_call refl))
      (close (advance after_call (next_turn after_call)))

yielded_test : at_end.yielded ≡ a ∷ b ∷ []
unfolding advance turn fetched deliver
yielded_test = refl

subscribe-InOrder_example : InOrder 0 at_end
subscribe-InOrder_example = subscribe-InOrder (pos 0) at_end at_end-Reached

-- A generator that has read the record on the disk and was handed the next one sleeps.
abbrev joined_at : Asleep.Live
joined_at = record { tail = at_start; flights = []; asleep = false }

abbrev read_at : Asleep.Live
read_at = Asleep.with_tail (fetched (Asleep.round joined_at).tail) (Asleep.round joined_at)

abbrev sent_at : Asleep.Live
sent_at = record read_at {
  tail = record read_at.tail { recs = read_at.tail.recs ++ b ∷ [] };
  flights = read_at.flights ++ (1, b ∷ []) ∷ [];
}

abbrev given_at : Asleep.Live
given_at = record sent_at {
  tail = record sent_at.tail { sub = deliver 1 (b ∷ []) sent_at.tail.sub };
  flights = [];
}

abbrev asleep_at : Asleep.Live
asleep_at = Asleep.round (Asleep.round given_at)

asleep_at-Reached : Asleep.Reached (pos 0) asleep_at
unfolding Asleep.round advance turn fetched deliver
asleep_at-Reached =
    Asleep.then_step _ _
      (Asleep.then_step _ _
        (Asleep.then_step _ _
          (Asleep.then_step _ _
            (Asleep.then_step _ _
              (Asleep.then_step _ _ (Asleep.joined (a ∷ []) false)
                (Asleep.go_around joined_at refl refl))
              (Asleep.read_done (Asleep.round joined_at) refl))
            (Asleep.append read_at (b ∷ [])))
          (Asleep.arrive sent_at 1 (b ∷ []) [] [] refl))
        (Asleep.go_around given_at refl refl))
      (Asleep.go_around (Asleep.round given_at) refl refl)

subscribe-drained_example :
    (asleep_at.tail.closed ≡ false) × (asleep_at.tail.yielded ≡ drop 0 asleep_at.tail.recs)
unfolding Asleep.round advance turn fetched deliver
subscribe-drained_example =
    Asleep.subscribe-drained (pos 0) asleep_at asleep_at-Reached refl refl refl
