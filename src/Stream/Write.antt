-- ===== src/Stream/Write.antt =====
-- The methods of `DurableStream` that write: `append`, `append_many`, `close`, `_close_fds`, and the
-- listeners that they notify.
use durastream.Common.{
  ℕ, ◌+◌, ◌-◌, Bool, true, false, not, Option, none, some, List, [], ◌∷◌, ◌++◌, map, Bytes, length,
  ◌==◌, if◌then◌else◌,
}
use durastream.Errors.{Result, ok, err, stream_closed, stream_locked}
use durastream.Exec.{Exec, lift, ◌>>=◌, ◌>>◌}
use durastream.Disk.{write_all, fsync, ftruncate}
use durastream.Meta.{update_closed}
use durastream.Codec.{Zlib, pack_frames, join}
use durastream.Stream.Defs.{
  Listener, Stream, Machine, on_disk, on_meta, next_offset, log_end, writable,
}

unfoldable pub add_listener : ℕ → Stream → ℕ × Stream
add_listener callback s = (
  s.next_lid,
  record s {
    listeners = s.listeners ++ record { lid = s.next_lid; callback = callback } ∷ [];
    next_lid = s.next_lid + 1;
  },
)

-- `pop`: the listener's entry is taken out, if it is there
unfoldable pub pop_listener : ℕ → List Listener → Bool × List Listener
pop_listener lid [] = (false, [])
pop_listener lid (l ∷ ls) =
    let (found, rest) = pop_listener lid ls in
    if l.lid == lid then (true, ls) else (found, l ∷ rest)

unfoldable pub remove_listener : ℕ → Stream → Bool × Stream
unfolding pop_listener
remove_listener lid s =
    let (found, rest) = pop_listener lid s.listeners in (found, record s { listeners = rest })

-- Each listener is called, in the order of registration; what a callback raises is dropped.
unfoldable pub notify : ℕ → List Bytes → Machine → Machine
notify start records w = record w {
  calls =
      w.calls
      ++ map (λ l. record { callback = l.callback; start = start; records = records })
          w.self.listeners;
}

unfoldable pub notify_closed : Machine → Machine
unfolding notify
notify_closed w = notify (next_offset w.self) [] w

-- Write the frames and make them durable.
abbrev pub sync_write : Bytes → Exec Machine (Unit {0})
sync_write data_bytes = on_disk (write_all data_bytes) >> on_disk fsync

-- Cut the log back to its last durable end.
abbrev pub roll_back : ℕ → Exec Machine (Unit {0})
roll_back end = on_disk (ftruncate end) >> on_disk fsync

-- Where the rollback fails too, no further append is let in.
abbrev pub after_rollback : Result (Unit {0}) × Machine → Machine
after_rollback (ok _, w) = w
after_rollback (err _, w) = record w { self = record w.self { closed = true } }

unfoldable pub extend_index : ℕ → List Bytes → List ℕ → List ℕ
extend_index end [] index = index
extend_index end (f ∷ frames) index =
    extend_index (end + length f) frames (index ++ (end + length f) ∷ [])

abbrev pub publish : List Bytes → Machine → Machine
publish frames w = record w {
  self = record w.self { index = extend_index (log_end w.self) frames w.self.index };
}

-- The `try` of `_append_locked`, and what follows it.
abbrev pub settle : List Bytes → ℕ → Result (Unit {0}) × Machine → Result ℕ × Machine
settle frames end (ok _, w) = let w' = publish frames w in (ok (next_offset w'.self), w')
settle frames end (err e, w) = (err e, after_rollback (roll_back end w))

unfoldable pub commit : List Bytes → Exec Machine ℕ
commit frames w = settle frames (log_end w.self) (sync_write (join frames) w)

abbrev pub append_open : List Bytes → Option ℕ → Exec Machine ℕ
append_open [] file w = (ok (next_offset w.self), w)
append_open (f ∷ frames) none w = (err (stream_closed w.self.name), w)
append_open (f ∷ frames) (some fd) w = commit (f ∷ frames) w

-- the guards of `_append_locked`, in their order
unfoldable pub append_frames : List Bytes → Exec Machine ℕ
append_frames frames w =
    if w.self.closed
    then (err (stream_closed w.self.name), w)
    else if not (writable w)
    then (err (stream_locked w.self.name), w)
    else append_open frames w.self.file w

-- `finally`-like: a failed append tells the listeners too
abbrev pub announce : List Bytes → Result ℕ × Machine → Result ℕ × Machine
announce records (err e, w) = (err e, notify (next_offset w.self) [] w)
announce [] (ok end, w) = (ok end, w)
announce (r ∷ records) (ok end, w) = (ok end, notify (end - length (r ∷ records)) (r ∷ records) w)

module _ ⦃z : Zlib⦄ where
  unfoldable pub append_locked : List Bytes → Exec Machine ℕ
  unfolding append_frames
  append_locked payloads w = (lift (pack_frames payloads) >>= append_frames) w

  unfoldable pub append_many : List Bytes → Exec Machine ℕ
  unfolding append_locked notify
  append_many payloads w = announce payloads (append_locked payloads w)

  unfoldable pub append : Bytes → Exec Machine ℕ
  unfolding append_many
  append payload = append_many (payload ∷ [])

abbrev pub mark_closed : Exec Machine (Unit {0})
mark_closed w = (ok tt, record w { self = record w.self { closed = true } })

abbrev pub close_locked : Exec Machine (Unit {0})
close_locked w =
    if not (writable w)
    then (err (stream_locked w.self.name), w)
    else (on_meta (update_closed w.self.name) >> mark_closed) w

-- The listeners are told whether or not the close succeeds.
unfoldable pub close : Exec Machine (Unit {0})
unfolding notify
close w = let (r, w') = close_locked w in (r, notify (next_offset w'.self) [] w')

unfoldable pub close_fds : Stream → Stream
close_fds s = record s { file = none; owner = false; closed = true }
