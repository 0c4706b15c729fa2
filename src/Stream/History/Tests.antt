-- ===== src/Stream/History/Tests.antt =====
-- A stream that is opened, appended to, and opened again after a crash.
use durastream.Common.{◌≡◌, ◌+◌, refl, true, false, some, [], ◌∷◌, codes, length, arith}
use durastream.Common.Int.{pos}
use durastream.Codec.{pack_frames, pack_frame, join, pack_u32, header_unpack}
use durastream.Codec.Crc32.{zlib, crc_32}
use durastream.Codec.Sound.{AreBytes}
use durastream.Disk.{write_all, fsync, ftruncate}
use durastream.Scan.{scan}
use durastream.Stream.Defs.{
  Machine, new_stream, recover, repair, open_for_scan, next_offset, writable,
}
use durastream.Stream.Write.{
  append_many, append_frames, append_locked, commit, extend_index, notify,
}
use durastream.Stream.Read.{read}
use durastream.Stream.Fetch.{Fetched}
use durastream.Stream.History.{
  Life, acknowledge, fresh, reopen, crash, Reached, found, then_step, opened, appended, crashed,
}
use durastream.Stream.History.Acked.{acked-kept}

abbrev empty_log : Machine
empty_log = record {
  self = new_stream (codes "s") (codes "d/s.log") (codes "t") false 3 true 1;
  log = record { bytes = []; durable = [] };
  db = some [];
  os = [];
  getpid = 1;
  calls = [];
}

abbrev first_open : Life
first_open = reopen (fresh (codes "s") (codes "d/s.log") (codes "t") false 3 true 1 [] empty_log) []

abbrev written : Life
written = record first_open {
  w = (append_many (codes "a" ∷ []) first_open.w).1;
  acked = acknowledge (codes "a" ∷ []) (append_many (codes "a" ∷ []) first_open.w).0 [];
}

-- a crash that leaves two bytes of the next frame
abbrev crashed_at : Life
crashed_at = record written { w = crash (0 ∷ 0 ∷ []) written.w; up = false }

abbrev second_open : Life
second_open =
    reopen (fresh (codes "s") (codes "d/s.log") (codes "t") false 4 true 2 [] crashed_at.w)
      crashed_at.acked

first_open_test : first_open.up ≡ true
unfolding recover open_for_scan scan new_stream
first_open_test = refl

second_open_test :
    (second_open.up ≡ true)
    × (second_open.w.self.index ≡ 0 ∷ 9 ∷ [])
    × (second_open.acked ≡ (0, codes "a" ∷ []) ∷ [])
unfolding append_many append_locked append_frames commit extend_index notify recover repair
    open_for_scan scan pack_frames pack_frame join write_all fsync ftruncate next_offset writable
    new_stream crc_32 pack_u32 header_unpack
second_open_test = (refl, refl, refl)

crashed_at-AreBytes : AreBytes crashed_at.w.log.bytes
unfolding append_many append_locked append_frames commit extend_index notify recover repair
    open_for_scan scan pack_frames pack_frame join write_all fsync ftruncate next_offset writable
    new_stream crc_32 pack_u32 header_unpack
crashed_at-AreBytes = omega arith

second_open-file : second_open.w.self.file ≡ some 4
unfolding append_many append_locked append_frames commit extend_index notify recover repair
    open_for_scan scan pack_frames pack_frame join write_all fsync ftruncate next_offset writable
    new_stream crc_32 pack_u32 header_unpack
second_open-file = refl

second_open-Reached : Reached second_open
second_open-Reached =
    then_step _ _
      (then_step _ _
        (then_step _ _
          (then_step _ _ (found empty_log) (
            opened (codes "s") (codes "d/s.log") (codes "t") false 3 true 1 []
              (record { w = empty_log; up = false; acked = [] }) tt))
          (appended (codes "a" ∷ []) first_open first_open_test))
        (crashed (0 ∷ 0 ∷ []) written))
      (opened (codes "s") (codes "d/s.log") (codes "t") false 4 true 2 [] crashed_at
        crashed_at-AreBytes)

acked-kept_example :
    Fetched second_open.w
      (codes "a" ∷ [])
      (read (pos 0) (some (pos (0 + length (codes "a" ∷ [])))) second_open.w)
acked-kept_example =
    acked-kept second_open second_open-Reached second_open_test.0 [] [] 0 (codes "a" ∷ [])
      second_open_test.2 second_open-file
