-- ===== src/Restart/Tests.antt =====
-- Three records in two sessions.
use durastream.Common.{ℕ, ◌+◌, ◌≡◌, refl, true, false, none, some, [], ◌∷◌, Bytes, codes}
use durastream.Errors.{ok}
use durastream.Codec.{
  header_unpack, header_pack, iter_frames, pack_u32, pack_frames, pack_frame, join,
}
use durastream.Codec.Crc32.{zlib, crc_32}
use durastream.Disk.{write_all, fsync, ftruncate}
use durastream.Scan.{scan}
use durastream.Stream.Defs.{
  Machine, recover, open_for_scan, writable, new_stream, next_offset, repair,
}
use durastream.Stream.Write.{
  append_many, commit, append_frames, append_locked, close_fds, extend_index, notify,
}
use durastream.Stream.Read.{read}
use durastream.Restart.{
  Opening, main, run_sessions, open_log, append_batches, append_range, verify_all,
}
use durastream.Restart.Survive.{Survives, Undisturbed, main-Survives}

abbrev created : Machine
created = record {
  self = record {
    name = codes "events";
    path = codes "d/events.log";
    content_type = codes "text/plain";
    closed = true;
    listeners = [];
    next_lid = 1;
    file = none;
    owner = false;
    pid = 1;
    index = 0 ∷ [];
  };
  log = record { bytes = []; durable = [] };
  db = some [];
  os = [];
  getpid = 1;
  calls = [];
}

abbrev numbered : ℕ → Bytes
numbered i = (b'0' + i) ∷ []

abbrev first_opening : Opening
first_opening = record { owner = true; file = 3; pid = 7 }

abbrev second_opening : Opening
second_opening = record { owner = true; file = 4; pid = 8 }

main-Survives_example :
    Survives numbered
      (Undisturbed numbered 3 (first_opening ∷ second_opening ∷ []) created)
      3
      (main numbered 3 (first_opening ∷ second_opening ∷ []) first_opening created)
main-Survives_example =
    main-Survives numbered 3 first_opening (second_opening ∷ []) first_opening created refl

-- it returns
main_test :
    (main numbered 3 (first_opening ∷ second_opening ∷ []) first_opening created).0
    ≡ ok (some (codes "2"))
unfolding main run_sessions open_log recover open_for_scan scan append_many pack_frames pack_frame
    crc_32 writable commit write_all fsync join pack_u32 header_unpack header_pack iter_frames
    ftruncate append_batches append_range verify_all new_stream next_offset repair read
    append_frames append_locked close_fds extend_index notify
main_test = refl
