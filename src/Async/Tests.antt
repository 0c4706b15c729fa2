-- ===== src/Async/Tests.antt =====
-- A read with nothing new, and the hub of a stream that was deleted and created again.
use durastream.Common.{◌≡◌, refl, true, false, none, some, [], ◌∷◌, codes}
use durastream.Common.Int.{pos}
use durastream.Errors.{ok}
use durastream.Codec.Crc32.{zlib}
use durastream.Codec.Decode.{encode}
use durastream.Dict.{lookup, assign}
use durastream.Texts.{text_eq}
use durastream.Stream.Defs.{Stream, Machine, next_offset}
use durastream.Stream.Read.{read}
use durastream.Store.{World, enforced}
use durastream.Async.{AsyncStore, async_read, wrap}
use durastream.Async.Reading.{async_read-read}
use durastream.Async.Hubs.{Wraps, wrap-Wraps}

abbrev live : Stream
live = record {
  name = codes "s";
  path = codes "d/s.log";
  content_type = codes "t";
  closed = false;
  listeners = [];
  next_lid = 1;
  file = some 3;
  owner = true;
  pid = 1;
  index = 0 ∷ 9 ∷ [];
}

abbrev deleted : Stream
deleted = record live { closed = true; file = none }

abbrev machine : Machine
machine = record {
  self = deleted;
  log = record { bytes = encode (codes "a" ∷ []); durable = encode (codes "a" ∷ []) };
  db = some [];
  os = [];
  getpid = 1;
  calls = [];
}

-- a read of a closed stream, up to its first record
async_read-read_example :
    async_read (pos 0) (some (pos 0)) machine ≡ read (pos 0) (some (pos 0)) machine
async_read-read_example = async_read-read (pos 0) (some (pos 0)) machine

async_read_test : async_read (pos 1) none machine ≡ (ok [], machine)
unfolding async_read next_offset
async_read_test = refl

abbrev store : World
store = record {
  streams_dir = codes "d";
  opened = (codes "s", 1) ∷ [];
  heap = deleted ∷ live ∷ [];
  db = some [];
  dir = [];
  durable_dir = [];
  inodes = [];
  files = [];
  locking = enforced;
  read_only = false;
  os = [];
  getpid = 1;
  time = 0;
  calls = [];
}

abbrev async_store : AsyncStore
async_store = record { store = store; hubs = (codes "s", 0) ∷ []; hub_streams = 0 ∷ [] }

-- the old hub gives way
wrap_test :
    wrap 1 async_store
    ≡ (1, record async_store { hubs = (codes "s", 1) ∷ []; hub_streams = 0 ∷ 1 ∷ [] })
unfolding wrap lookup assign text_eq
wrap_test = refl

wrap-Wraps_example : Wraps 1 live (wrap 1 async_store)
wrap-Wraps_example = wrap-Wraps async_store 1 live ((0, refl, (deleted, refl, refl)), tt) refl
