-- ===== src/Stream/Firm.antt =====
-- The durable start of a log, over the methods of `DurableStream` that write and their calls of the
-- system.
use durastream.Common.{
  ℕ, ◌-◌, ◌≤◌, ◌≡◌, sym, ap, ◌∙◌, subst, Bool, true, false, not, Option, none, some, List, [], ◌∷◌,
  ◌++◌, append_assoc, Bytes, length, take, if◌then◌else◌, take-append_ge,
}
use durastream.Errors.{Result, ok, err}
use durastream.Exec.{continue}
use durastream.Disk.{LogFile, Disk, write_all, fsync, cut, ftruncate}
use durastream.Disk.Laws.{
  Written, written, partial, write_all-fsync-Written, RolledBack, rolled_back, not_cut, not_synced,
  ftruncate-fsync-RolledBack,
}
use durastream.Codec.{Zlib, pack_frames, join}
use durastream.Stream.Defs.{Machine, log_end, writable}
use durastream.Stream.Write.{
  append_frames, append_open, append_locked, append_many, announce, commit, settle, after_rollback,
  roll_back, sync_write, notify,
}
use durastream.Stream.Commit.{on_disk-then}

abbrev pub Starts : Bytes → Bytes → Type 0
Starts p b = (t : Bytes) × (b ≡ p ++ t)

abbrev pub Firm : Bytes → LogFile → Type 0
Firm p f = Starts p f.bytes × Starts p f.durable

pub Starts-append : (p b c : Bytes) → Starts p b → Starts p (b ++ c)
Starts-append p b c (t, e) = (t ++ c, ap (λ x. x ++ c) e ∙ append_assoc p t c)

Starts-take : (n : ℕ) (p b : Bytes) → length p ≤ n → Starts p b → Starts p (take n b)
Starts-take n p b le (t, e) = (take (n - length p) t, ap (take n) e ∙ take-append_ge n p t le)

cut-Firm : (n : ℕ) (p : Bytes) (f : LogFile) → length p ≤ n → Firm p f → Firm p (cut n f)
cut-Firm n p f le h = (
  Starts-append p (take n f.bytes) _ (Starts-take n p f.bytes le h.0),
  Starts-take n p f.durable le h.1,
)

Written-Firm :
    (p view : Bytes) (f : LogFile) {r : Result (Unit {0}) × Disk}
    → Firm p f
    → Written view f r
    → Firm p r.1.log
Written-Firm p view f h (written os) =
    (Starts-append p f.bytes view h.0, Starts-append p f.bytes view h.0)
Written-Firm p view f h (partial e part rest os q) = (Starts-append p f.bytes part h.0, h.1)

pub RolledBack-Firm :
    (n : ℕ) (p : Bytes) (f : LogFile) {r : Result (Unit {0}) × Disk}
    → length p ≤ n
    → Firm p f
    → RolledBack n f r
    → Firm p r.1.log
RolledBack-Firm n p f le h (rolled_back os) = ((cut-Firm n p f le h).0, (cut-Firm n p f le h).0)
RolledBack-Firm n p f le h (not_cut e os) = h
RolledBack-Firm n p f le h (not_synced e os) = cut-Firm n p f le h

module _ (p : Bytes) where
  -- a result whose machine has a firm log
  abbrev pub FirmIn : {A : Type 0} → Result A × Machine → Type 0
  FirmIn (r, w) = Firm p w.log

  pub roll_back-Firm :
      (end : ℕ) (w : Machine) → length p ≤ end → Firm p w.log → FirmIn (roll_back end w)
  roll_back-Firm end w le h = subst FirmIn (sym (on_disk-then (ftruncate end) fsync w)) (
      RolledBack-Firm end p w.log le h
        (ftruncate-fsync-RolledBack end (record { log = w.log; os = w.os })))

  sync_write-Firm :
      (data_bytes : Bytes) (w : Machine) → Firm p w.log → FirmIn (sync_write data_bytes w)
  sync_write-Firm data_bytes w h =
      subst FirmIn (sym (on_disk-then (write_all data_bytes) fsync w)) (
        Written-Firm p data_bytes w.log h
          (write_all-fsync-Written data_bytes (record { log = w.log; os = w.os })))

  after_rollback-Firm : (r : Result (Unit {0}) × Machine) → FirmIn r → Firm p (after_rollback r).log
  after_rollback-Firm (ok t, w) h = h
  after_rollback-Firm (err e, w) h = h

  settle-Firm :
      (frames : List Bytes) (end : ℕ) (r : Result (Unit {0}) × Machine)
      → length p ≤ end
      → FirmIn r
      → FirmIn (settle frames end r)
  settle-Firm frames end (ok t, w) le h = h
  settle-Firm frames end (err e, w) le h =
      after_rollback-Firm (roll_back end w) (roll_back-Firm end w le h)

  append_open-Firm :
      (frames : List Bytes) (file : Option ℕ) (w : Machine)
      → length p ≤ log_end w.self
      → Firm p w.log
      → FirmIn (append_open frames file w)
  unfolding commit
  append_open-Firm [] file w le h = h
  append_open-Firm (f ∷ frames) none w le h = h
  append_open-Firm (f ∷ frames) (some fd) w le h =
      settle-Firm (f ∷ frames) (log_end w.self) _ le (sync_write-Firm (join (f ∷ frames)) w h)

  pub if-Firm :
      {A : Type 0} (b : Bool) (r q : Result A × Machine)
      → FirmIn r
      → FirmIn q
      → FirmIn (if b then r else q)
  if-Firm true r q h k = h
  if-Firm false r q h k = k

  append_frames-Firm :
      (frames : List Bytes) (w : Machine)
      → length p ≤ log_end w.self
      → Firm p w.log
      → FirmIn (append_frames frames w)
  unfolding append_frames
  append_frames-Firm frames w le h =
      if-Firm w.self.closed _ _ h
        (if-Firm (not (writable w)) _ _ h (append_open-Firm frames w.self.file w le h))

  announce-Firm :
      (records : List Bytes) (r : Result ℕ × Machine) → FirmIn r → FirmIn (announce records r)
  unfolding notify
  announce-Firm records (err e, w) h = h
  announce-Firm [] (ok end, w) h = h
  announce-Firm (r ∷ records) (ok end, w) h = h

  module _ ⦃z : Zlib⦄ where
    pub append_many-Firm :
        (payloads : List Bytes) (w : Machine)
        → length p ≤ log_end w.self
        → Firm p w.log
        → FirmIn (append_many payloads w)
    unfolding append_many append_locked
    append_many-Firm payloads w le h = announce-Firm payloads _ (by (pack_frames payloads))
      where
        by : (r : Result (List Bytes)) → FirmIn (continue append_frames (r, w))
        by (ok frames) = append_frames-Firm frames w le h
        by (err e) = h
