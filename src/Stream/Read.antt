-- ===== src/Stream/Read.antt =====
-- The methods of `DurableStream` that read: `read`, and the rounds of the generator `subscribe`.
use durastream.Common.{
  ℕ, zero, suc, ◌-◌, min, Option, none, some, List, [], ◌∷◌, ◌++◌, map, Bytes, Text, length, take,
  drop, get_or, leb, ◌==◌, if◌then◌else◌,
}
use durastream.Common.Int.{ℤ, pos, pos_part, lebℤ, minℤ, maxℤ, add_ℕ}
use durastream.Errors.{Result, ok, err, os_error, stream_closed, corrupt_stream}
use durastream.Exec.{Exec, pure, lift, ◌>>=◌}
use durastream.Disk.{Answer, done, fail, short}
use durastream.Codec.{Zlib, iter_frames}
use durastream.Stream.Defs.{Stream, Machine, next_offset}

abbrev pub join_chunk : Bytes → Result Bytes × List Answer → Result Bytes × List Answer
join_chunk chunk (ok rest, os) = (ok (chunk ++ rest), os)
join_chunk chunk (err e, os) = (err e, os)

-- An empty chunk is the end of the file.
abbrev pub take_chunk :
    Text → Bytes → List Answer → Result Bytes × List Answer → Result Bytes × List Answer
take_chunk name [] os rest = (err (corrupt_stream name), os)
take_chunk name (b ∷ chunk) os rest = join_chunk (b ∷ chunk) rest

-- `while got < want`, with what is wanted still; `left` is the file from the read position on.
unfoldable pub read_rounds : Text → List Answer → Bytes → ℕ → Result Bytes × List Answer
read_rounds name [] left want =
    if leb want (length left) then (ok (take want left), []) else (err (corrupt_stream name), [])
read_rounds name (answer ∷ os) left zero = (ok [], answer ∷ os)
read_rounds name (fail ∷ os) left (suc n) = (err os_error, os)
read_rounds name (done ∷ os) left (suc n) =
    take_chunk name (take (suc n) left) os
      (read_rounds name os (drop (suc n) left) (suc n - length (take (suc n) left)))
read_rounds name (short k ∷ os) left (suc n) =
    take_chunk name (take (min (suc k) (suc n)) left) os (
      read_rounds name os (drop (min (suc k) (suc n)) left)
        (suc n - length (take (min (suc k) (suc n)) left)))

unfoldable pub read_bytes : ℕ → ℕ → Exec Machine Bytes
unfolding read_rounds
read_bytes start_byte want w =
    let (r, os) = read_rounds w.self.name w.os (drop start_byte w.log.bytes) want in
    (r, record w { os = os })

module _ ⦃z : Zlib⦄ where
  abbrev pub check_records : Text → ℕ → Bytes → Result (List Bytes)
  check_records name count bytes =
      let records = map (λ (f : Bytes × ℕ). f.0) (iter_frames bytes) in
      if length records == count then ok records else err (corrupt_stream name)

  unfoldable pub read_range : ℕ → ℕ → Exec Machine (List Bytes)
  unfolding read_bytes
  read_range start stop w =
      let start_byte = get_or w.self.index start 0 in
      let want = get_or w.self.index stop 0 - start_byte in
      (read_bytes start_byte want >>= λ bytes.
      lift (check_records w.self.name (stop - start) bytes))
        w

  abbrev pub read_open : Option ℕ → ℕ → ℕ → Exec Machine (List Bytes)
  read_open none start stop w = (err (stream_closed w.self.name), w)
  read_open (some fd) start stop w = read_range start stop w

  unfoldable pub read : ℤ → Option ℤ → Exec Machine (List Bytes)
  unfolding read_range next_offset
  read offset end w =
      let last = pos (next_offset w.self) in
      let stop : ℤ = elim end [ none ↦ last | some e ↦ minℤ e last ] in
      let start = maxℤ offset (pos 0) in
      if lebℤ stop start
      then (ok [], w)
      else read_open w.self.file (pos_part start) (pos_part stop) w

-- What the generator does once it has yielded a batch, and again each time it is woken.
pub data Next : Type 0 where
  again wait stop : Next

unfoldable pub subscribe_next : ℤ → Stream → Next
unfolding next_offset
subscribe_next offset s =
    if lebℤ (pos (next_offset s)) offset then if s.closed then stop else wait else again

-- A round of `subscribe`: what it yields, and the offset that it goes on from.
module _ ⦃z : Zlib⦄ where
  unfoldable pub subscribe_round : ℤ → Exec Machine (List Bytes × ℤ)
  unfolding read
  subscribe_round offset w =
      (read offset none >>= λ batch. pure (batch, add_ℕ offset (length batch))) w
