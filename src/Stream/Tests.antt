-- ===== src/Stream/Tests.antt =====
-- Runs and instances on a stream of one record, "a", that is appended to.
use durastream.Common.{
  ◌≡◌, ◌≢◌, refl, sym, ap, subst, true, false, some, List, [], ◌∷◌, ◌++◌, append-nil, Bytes, codes,
  take, arith,
}
use durastream.Common.Int.{pos, negsuc}
use durastream.Errors.{ok, err, stream_closed}
use durastream.Disk.{write_all, fsync, ftruncate, done, fail, short}
use durastream.Codec.{pack_u32, pack_frame, pack_frames, join}
use durastream.Codec.Crc32.{crc_32, zlib}
use durastream.Codec.Decode.{encode, decode}
use durastream.Codec.Frames.{whole}
use durastream.Codec.Sound.{AreBytes}
use durastream.Stream.Defs.{Stream, Machine, next_offset, new_stream, recover, writable}
use durastream.Stream.Write.{append_many, append_frames, commit, extend_index, notify, close}
use durastream.Stream.Read.{read, subscribe_round, subscribe_next, again, wait}
use durastream.Stream.Holds.{Holds}
use durastream.Stream.Append.{Appended, append_many-Appended}
use durastream.Stream.Range.{read-requested}
use durastream.Stream.Fetch.{Fetched}
use durastream.Stream.Recover.{Recovered, recover-Recovered}
use durastream.Stream.Crash.{append_many-survives, recover-torn}
use durastream.Stream.Outcome.{append_many-succeeds, append_many-refused}
use durastream.Stream.Told.{Told, append_many-Told}
use durastream.Stream.Close.{Closed, close-Closed}
use durastream.Stream.Tail.{Yields, subscribe_round-Yields, subscribe-repeats}

abbrev one : List Bytes
one = codes "a" ∷ []

abbrev batch : List Bytes
batch = codes "hi" ∷ codes "" ∷ []

abbrev stream : Stream
stream = record {
  name = codes "s";
  path = codes "d/s.log";
  content_type = codes "t";
  closed = false;
  listeners = record { lid = 1; callback = 7 } ∷ [];
  next_lid = 2;
  file = some 3;
  owner = true;
  pid = 1;
  index = 0 ∷ 9 ∷ [];
}

-- a machine whose next write is short
abbrev before : Machine
before = record {
  self = stream;
  log = record { bytes = encode one; durable = encode one };
  db = some [];
  os = short 3 ∷ [];
  getpid = 1;
  calls = [];
}

-- a machine whose disk is full
abbrev full : Machine
full = record before { os = short 3 ∷ fail ∷ done ∷ done ∷ [] }

before-Holds : Holds one before
before-Holds = record {
  fit = omega arith;
  index = refl;
  tail = [];
  bytes = sym (append-nil (encode one));
  clean = λ _ _. refl;
}

full-Holds : Holds one full
full-Holds = record {
  fit = omega arith;
  index = refl;
  tail = [];
  bytes = sym (append-nil (encode one));
  clean = λ _ _. refl;
}

is_writable : writable before ≡ true
unfolding writable
is_writable = refl

appended : (append_many batch before).0 ≡ ok 3
appended = append_many-succeeds one batch before before-Holds refl is_writable refl (omega arith) tt

append_many-succeeds_example : (append_many batch before).0 ≡ ok 3
append_many-succeeds_example =
    append_many-succeeds one batch before before-Holds refl is_writable refl (omega arith) tt

append_many-Appended_example : Appended one batch (append_many batch full)
append_many-Appended_example = append_many-Appended one batch full full-Holds

-- on the full disk the write is rolled back
full_disk :
    ((append_many batch full).1.log.bytes ≡ encode one)
    × (next_offset (append_many batch full).1.self ≡ 1)
unfolding append_many append_frames writable pack_frames pack_frame commit write_all fsync ftruncate
    join extend_index next_offset crc_32 pack_u32
full_disk = (refl, refl)

append_many-Told_example : Told full 1 batch (append_many batch full)
append_many-Told_example = append_many-Told one batch full full-Holds

append_many-refused_example :
    append_many batch (record before { self = record stream { closed = true } }) ≡ (
      err (stream_closed (codes "s")),
      notify 1 [] (record before { self = record stream { closed = true } }),
    )
unfolding next_offset
append_many-refused_example =
    append_many-refused batch (record before { self = record stream { closed = true } }) refl

read-requested_example : Fetched before (codes "a" ∷ []) (read (negsuc 4) (some (pos 9)) before)
read-requested_example = read-requested one before before-Holds refl (negsuc 4) (some (pos 9))

after_append : append_many batch before ≡ (ok 3, (append_many batch before).1)
after_append = λ i. (append_many-succeeds_part i, (append_many batch before).1)
  where
    append_many-succeeds_part : (append_many batch before).0 ≡ ok 3
    append_many-succeeds_part = appended

batch_ne : batch ≢ []
batch_ne e = cc

durable_after : (append_many batch before).1.log.durable ≡ encode (one ++ batch)
durable_after =
    (subst (Appended one batch) after_append (append_many-Appended one batch before before-Holds)).2
      batch_ne

-- a new process opens the log that a crash has left; three bytes of some later frame reached it
abbrev reopened : Machine
reopened = record before {
  self = new_stream (codes "s") (codes "d/s.log") (codes "t") false 5 true 2;
  log = record { bytes = encode (one ++ batch) ++ 0 ∷ 0 ∷ 0 ∷ []; durable = encode (one ++ batch) };
  os = [];
  getpid = 2;
}

reopened-AreBytes : AreBytes reopened.log.bytes
unfolding crc_32 pack_u32
reopened-AreBytes = omega arith

append_many-survives_example :
    ((recover reopened).0 ≡ ok tt)
    × Holds ((one ++ batch) ++ decode (0 ∷ 0 ∷ 0 ∷ [])) (recover reopened).1
append_many-survives_example =
    append_many-survives one batch before before-Holds batch_ne after_append reopened
      (0 ∷ 0 ∷ 0 ∷ []) (ap (λ d. d ++ 0 ∷ 0 ∷ 0 ∷ []) (sym durable_after)) reopened-AreBytes tt

recover-Recovered_example : Recovered reopened (recover reopened)
recover-Recovered_example = recover-Recovered reopened reopened-AreBytes

-- a crash in the middle of the batch: the frame of "hi" is whole, the next is not
abbrev torn : Machine
torn = record reopened {
  log = record { bytes = encode one ++ take 15 (encode batch); durable = encode one };
}

torn-AreBytes : AreBytes torn.log.bytes
unfolding crc_32 pack_u32
torn-AreBytes = omega arith

recover-torn_example : ((recover torn).0 ≡ ok tt) × Holds (one ++ whole 15 batch) (recover torn).1
recover-torn_example =
    recover-torn one batch 15 torn (omega arith) (omega arith) refl torn-AreBytes tt

subscribe_round-Yields_example :
    Yields before (codes "a" ∷ []) (pos 1) (subscribe_round (pos 0) before)
    × (subscribe_next (pos 1) stream ≡ wait)
subscribe_round-Yields_example = subscribe_round-Yields one before before-Holds refl 0 (omega arith)

subscribe-repeats_example :
    Yields before one (pos 0) (subscribe_round (negsuc 0) before)
    × (subscribe_next (pos 0) stream ≡ again)
    × Yields before one (pos 1) (subscribe_round (pos 0) before)
subscribe-repeats_example = subscribe-repeats one before before-Holds refl 0 (omega arith)

-- a machine whose table has a row of the stream and another
abbrev listed : Machine
listed = record before {
  db = some (
      record { name = codes "r"; content_type = codes "t"; closed = false; created_at = 5 }
      ∷ record { name = codes "s"; content_type = codes "t"; closed = false; created_at = 6 }
      ∷ []);
}

close-Closed_example : Closed listed (close listed)
close-Closed_example = close-Closed listed
