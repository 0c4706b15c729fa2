-- ===== src/Stream/Follow/Tests.antt =====
-- A generator on a stream of one record, that has read it; and one whose stream is let go.
use durastream.Common.{
  ◌+◌, ◌<◌, ◌≡◌, refl, sym, append-nil, true, false, none, some, List, [], ◌∷◌, Bytes, length, drop,
  codes, arith,
}
use durastream.Common.Int.{pos}
use durastream.Errors.{err, stream_closed}
use durastream.Codec.{pack_u32, iter_frames, header_unpack}
use durastream.Codec.Crc32.{zlib, crc_32}
use durastream.Codec.Decode.{encode}
use durastream.Stream.Defs.{Machine, next_offset}
use durastream.Stream.Write.{close_fds}
use durastream.Stream.Read.{read}
use durastream.Stream.Holds.{Holds}
use durastream.Stream.Follow.{
  Follower, look, returned, reading, yield_batch, Reached, called, then_step, released,
}
use durastream.Stream.Follow.FirstOf.{FirstOf}
use durastream.Stream.Follow.Drained.{Decided, follow-drained}

abbrev one : List Bytes
one = codes "a" ∷ []

abbrev machine : Machine
machine = record {
  self = record {
    name = codes "s";
    path = codes "d/s.log";
    content_type = codes "t";
    closed = false;
    listeners = [];
    next_lid = 1;
    file = some 3;
    owner = true;
    pid = 1;
    index = 0 ∷ 9 ∷ [];
  };
  log = record { bytes = encode one; durable = encode one };
  db = some [];
  os = [];
  getpid = 1;
  calls = [];
}

machine-Holds : Holds one machine
machine-Holds = record {
  fit = omega arith;
  index = refl;
  tail = [];
  bytes = sym (append-nil (encode one));
  clean = λ _ _. refl;
}

abbrev started : Follower
started = record { w = machine; offset = pos 0; yielded = []; place = reading }

abbrev let_go : Follower
let_go = record started { w = record machine { self = close_fds machine.self } }

let_go-Reached : Reached (pos 0) let_go
let_go-Reached = then_step _ _ (called machine one machine-Holds) (released started)

follow-drained_example :
    (rs : List Bytes) × Holds rs let_go.w
    × FirstOf rs 0 let_go.yielded
    × (let_go.place ≡ returned → (let_go.w.self.closed ≡ true) × (let_go.yielded ≡ drop 0 rs))
    × Decided rs 0 let_go (look let_go).place
    × (let_go.w.self.file ≡ none
        → 0 + length let_go.yielded < length rs
        → read let_go.offset none let_go.w ≡ (err (stream_closed let_go.w.self.name), let_go.w))
follow-drained_example = follow-drained 0 let_go let_go-Reached

-- the generator raises, although there is a record
cut_off_test : read (pos 0) none let_go.w ≡ (err (stream_closed (codes "s")), let_go.w)
unfolding read close_fds next_offset
cut_off_test = refl

read_test : (yield_batch started (read (pos 0) none machine)).yielded ≡ one
unfolding read next_offset pack_u32 iter_frames header_unpack crc_32
read_test = refl
