-- ===== src/Stream/Role.antt =====
-- The file, the role and the process of a stream, over its methods but `_close_fds`.
use durastream.Common.{
  ℕ, ◌≡◌, refl, ◌∙◌, Bool, true, false, not, ◌&&◌, Option, none, some, List, [], ◌∷◌, Bytes, length,
  last_or, ◌==◌, if◌then◌else◌,
}
use durastream.Errors.{Result, ok, err}
use durastream.Exec.{Exec, continue}
use durastream.Disk.{ftruncate}
use durastream.Codec.{Zlib, pack_frames, join}
use durastream.Scan.{scan}
use durastream.Stream.Defs.{
  Stream, Machine, on_disk, on_meta, log_end, writable, repair, recover, set_index, open_for_scan,
}
use durastream.Stream.Write.{
  append_frames, append_open, append_locked, append_many, announce, commit, settle, after_rollback,
  roll_back, sync_write, notify, close, close_locked,
}
use durastream.Meta.{update_closed}

abbrev pub SameRole : Stream → Stream → Type 0
SameRole s t = (t.file ≡ s.file) × (t.owner ≡ s.owner) × (t.pid ≡ s.pid)

abbrev pub KeepsRole : {A : Type 0} → Exec Machine A → Type 0
KeepsRole m = (w : Machine) → SameRole w.self (m w).1.self

same : (s : Stream) → SameRole s s
same s = (refl, refl, refl)

continue-Role :
    {A B : Type 0} (f : A → Exec Machine B) (r : Result A × Machine) (s : Stream)
    → SameRole s r.1.self
    → ((a : A) → KeepsRole (f a))
    → SameRole s (continue f r).1.self
continue-Role f (ok a, w) s h k = let q = k a w in (q.0 ∙ h.0, q.1 ∙ h.1, q.2 ∙ h.2)
continue-Role f (err e, w) s h k = h

after_rollback-Role :
    (r : Result (Unit {0}) × Machine) (s : Stream)
    → SameRole s r.1.self
    → SameRole s (after_rollback r).self
after_rollback-Role (ok t, w) s h = h
after_rollback-Role (err e, w) s h = h

roll_back-Role : (end : ℕ) → KeepsRole (roll_back end)
roll_back-Role end w =
    continue-Role _ (on_disk (ftruncate end) w) w.self (same w.self) (λ t v. same v.self)

settle-Role :
    (frames : List Bytes) (end : ℕ) (r : Result (Unit {0}) × Machine) (s : Stream)
    → SameRole s r.1.self
    → SameRole s (settle frames end r).1.self
settle-Role frames end (ok t, w) s h = h
settle-Role frames end (err e, w) s h =
    let q = after_rollback-Role (roll_back end w) w.self (roll_back-Role end w) in
    (q.0 ∙ h.0, q.1 ∙ h.1, q.2 ∙ h.2)

sync_write-Role : (data_bytes : Bytes) → KeepsRole (sync_write data_bytes)
sync_write-Role data_bytes w = continue-Role _ _ w.self (same w.self) (λ t v. same v.self)

commit-Role : (frames : List Bytes) → KeepsRole (commit frames)
unfolding commit
commit-Role frames w =
    settle-Role frames (log_end w.self) _ w.self (sync_write-Role (join frames) w)

append_open-Role : (frames : List Bytes) (file : Option ℕ) → KeepsRole (append_open frames file)
append_open-Role [] file w = same w.self
append_open-Role (f ∷ frames) none w = same w.self
append_open-Role (f ∷ frames) (some fd) w = commit-Role (f ∷ frames) w

if-Role :
    {A : Type 0} (b : Bool) (r q : Result A × Machine) (s : Stream)
    → SameRole s r.1.self
    → SameRole s q.1.self
    → SameRole s (if b then r else q).1.self
if-Role true r q s h k = h
if-Role false r q s h k = k

append_frames-Role : (frames : List Bytes) → KeepsRole (append_frames frames)
unfolding append_frames
append_frames-Role frames w =
    if-Role w.self.closed _ _ w.self (same w.self)
      (if-Role (not (writable w)) _ _ w.self (same w.self) (append_open-Role frames w.self.file w))

announce-Role :
    (records : List Bytes) (r : Result ℕ × Machine) (s : Stream)
    → SameRole s r.1.self
    → SameRole s (announce records r).1.self
unfolding notify
announce-Role records (err e, w) s h = h
announce-Role [] (ok end, w) s h = h
announce-Role (r ∷ records) (ok end, w) s h = h

close_locked-Role : KeepsRole close_locked
close_locked-Role w = if-Role (not (writable w)) _ _ w.self (same w.self) (
    continue-Role _ (on_meta (update_closed w.self.name) w) w.self (same w.self)
      (λ t v. same v.self))

pub close-Role : KeepsRole close
unfolding close notify
close-Role w = close_locked-Role w

module _ ⦃z : Zlib⦄ where
  pub append_many-Role : (payloads : List Bytes) → KeepsRole (append_many payloads)
  unfolding append_many append_locked
  append_many-Role payloads w = announce-Role payloads _ w.self (
      continue-Role append_frames (pack_frames payloads, w) w.self (same w.self) append_frames-Role)

  pub recover-Role : KeepsRole recover
  unfolding recover repair
  recover-Role w =
      let index = scan w.log.bytes (length w.log.bytes) in
      continue-Role (λ t. set_index index) _ w.self
        (continue-Role (λ t. repair index) (on_disk open_for_scan w) w.self (same w.self)
          (λ t v.
            if-Role (v.self.owner && not (last_or index 0 == length v.log.bytes)) _ _ v.self
              (roll_back-Role (last_or index 0) v) (same v.self)))
        (λ t v. same v.self)
