-- ===== src/Resume/Tests.antt =====
-- A connection to a stream of one record, from its beginning.
use durastream.Common.{
  ◌≤◌, ◌≡◌, refl, sym, append-nil, Bool, true, false, some, List, [], ◌∷◌, map, Bytes, Text, length,
  codes, arith, ℕ,
}
use durastream.Common.Int.{pos}
use durastream.Errors.{ok}
use durastream.Texts.{text_eq}
use durastream.Token.{
  to_token, from_token, strip, int, int_sign, zfill, str, decimal, digit_count, digits_of,
}
use durastream.Codec.{pack_u32, iter_frames, header_unpack}
use durastream.Codec.Crc32.{zlib, crc_32}
use durastream.Codec.Decode.{encode}
use durastream.Stream.Defs.{Machine, next_offset}
use durastream.Stream.Read.{read}
use durastream.Stream.Holds.{Holds}
use durastream.Async.{async_read}
use durastream.Resume.{
  Event, message, next_token, returned, waiting, reading, Sse, chunk_of, begin, go_from, Reached,
  connected, then_step, goes,
}
use durastream.Resume.Sending.{Sent}
use durastream.Resume.InOrder.{sse_stream-InOrder}

abbrev one : List Bytes
one = codes "a" ∷ []

abbrev machine : Machine
machine = record {
  self = record {
    name = codes "s";
    path = codes "d/s.log";
    content_type = codes "t";
    closed = false;
    listeners = [];
    next_lid = 1;
    file = some 3;
    owner = true;
    pid = 1;
    index = 0 ∷ 9 ∷ [];
  };
  log = record { bytes = encode one; durable = encode one };
  db = some [];
  os = [];
  getpid = 1;
  calls = [];
}

machine-Holds : Holds one machine
machine-Holds = record {
  fit = omega arith;
  index = refl;
  tail = [];
  bytes = sym (append-nil (encode one));
  clean = λ _ _. refl;
}

abbrev any_text : Bytes → Bool
any_text r = true

abbrev json_dumps : Text → Text
json_dumps t = t

abbrev go : Sse → Sse
go c = go_from json_dumps any_text c.place c

abbrev at_start : Sse
at_start =
    begin json_dumps (ok tt) (codes "-1")
      (record { w = machine; place = reading; offset = pos 0; yielded = [] })

token_read : from_token (codes "-1") (next_offset machine.self) ≡ ok (pos 0)
unfolding from_token text_eq strip
token_read = refl

-- the read, the message, the end of the batch, and the token
abbrev at_wait : Sse
at_wait = go (go (go (go at_start)))

at_wait-Reached : Reached json_dumps any_text (codes "-1") 0 at_wait
at_wait-Reached =
    then_step _ _
      (then_step _ _
        (then_step _ _
          (then_step _ _ (connected machine one machine-Holds token_read) (goes at_start))
          (goes (go at_start)))
        (goes (go (go at_start))))
      (goes (go (go (go at_start))))

sse_stream-InOrder_example :
    (rs : List Bytes) × Holds rs at_wait.w
    × ((m : ℕ) × (events : List Event) × (at_wait.yielded ≡ map (chunk_of json_dumps) events)
        × Sent rs at_wait.w.self.closed 0 events m
        × (at_wait.place ≡ returned → (at_wait.w.self.closed ≡ true) × (length rs ≤ m))
        × (at_wait.place ≡ waiting → at_wait.offset ≡ pos m))
sse_stream-InOrder_example =
    sse_stream-InOrder json_dumps any_text (codes "-1") 0 at_wait at_wait-Reached

yielded_test :
    at_wait.yielded
    ≡ chunk_of json_dumps (message (codes "00000000000000000000") (codes "a"))
      ∷ chunk_of json_dumps (next_token (codes "00000000000000000001"))
      ∷ []
unfolding from_token text_eq strip async_read read pack_u32 iter_frames header_unpack crc_32 int
    int_sign to_token zfill str decimal digit_count digits_of next_offset
yielded_test = refl
