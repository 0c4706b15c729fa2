-- ===== src/Stream/Commit.antt =====
-- A committed batch is in the log, indexed and durable; one that fails leaves the records as they were.
use durastream.Common.{
  ℕ, ◌+◌, ◌≡◌, refl, sym, ap, ◌∙◌, List, [], ◌∷◌, ◌++◌, map, append-nil, Bytes, length,
  length-append,
}
use durastream.Errors.{Result, ok, err}
use durastream.Exec.{Exec, continue, ◌>>◌}
use native.Mathlib.Nat.{zero-add}
use durastream.Disk.{Answer, Disk, write_all, fsync, ftruncate, cut, extend}
use durastream.Disk.Laws.{
  Written, written, partial, write_all-fsync-Written, RolledBack, rolled_back, not_cut, not_synced,
  ftruncate-fsync-RolledBack, cut-append,
}
use durastream.Codec.{Zlib, join}
use durastream.Codec.Decode.{AllFit, ends, frame, encode}
use durastream.Codec.Frames.{join-frames}
use durastream.Stream.Defs.{Machine, on_disk, log_end}
use durastream.Stream.Write.{after_rollback, publish, settle, commit, extend_index}
use durastream.Stream.Holds.{
  Holds, AllFit-append, encode-append, ends-append, extend_index-eq, next_offset-Holds,
  log_end-Holds,
}

-- The machine after calls that changed its disk alone.
abbrev pub with_disk {ℓ} : {A : Type ℓ} → Machine → Result A × Disk → Result A × Machine
with_disk w (r, d) = (r, record w { log = d.log; os = d.os })

with_disk-then :
    (n : Exec Disk (Unit {0})) (w : Machine) (r : Result (Unit {0}) × Disk)
    → continue (λ _. on_disk n) (with_disk w r) ≡ with_disk w (continue (λ _. n) r)
with_disk-then n w (ok _, d) = refl
with_disk-then n w (err e, d) = refl

pub on_disk-then :
    (m n : Exec Disk (Unit {0})) (w : Machine)
    → (on_disk m >> on_disk n) w ≡ with_disk w ((m >> n) (record { log = w.log; os = w.os }))
on_disk-then m n w = with_disk-then n w (m (record { log = w.log; os = w.os }))

module _ ⦃z : Zlib⦄ where
  -- What a batch `ps` leaves of a stream that held `rs`, by its result.
  abbrev pub Committed : List Bytes → List Bytes → Result ℕ × Machine → Type 0
  Committed rs ps (ok n, w) =
      (n ≡ length rs + length ps)
      × Holds (rs ++ ps) w
      × (w.log.durable ≡ encode (rs ++ ps))
      × (w.log.bytes ≡ encode (rs ++ ps))
  Committed rs ps (err e, w) = Holds rs w

  module _ (rs ps : List Bytes) (w : Machine) (h : Holds rs w) (fits : AllFit ps)
      (bytes : w.log.bytes ≡ encode rs) where
    cut-Holds :
        (part : Bytes) → (cut (length (encode rs)) (extend w.log part)).bytes ≡ encode rs ++ []
    cut-Holds part =
        ap (λ b. (cut (length (encode rs)) (extend (record w.log { bytes = b }) part)).bytes) bytes
        ∙ cut-append (encode rs) part w.log.durable
        ∙ sym (append-nil (encode rs))

    -- the machine that a failed write leaves: part of the frames stands behind the records
    rollback-Holds :
        (part : Bytes) {r : Result (Unit {0}) × Disk}
        → RolledBack (length (encode rs)) (extend w.log part) r
        → Holds rs (after_rollback (with_disk w r))
    rollback-Holds part (rolled_back os) = record {
      fit = h.fit;
      index = h.index;
      tail = [];
      bytes = cut-Holds part;
      clean = λ _ _. refl;
    }
    rollback-Holds part (not_cut e os) = record {
      fit = h.fit;
      index = h.index;
      tail = part;
      bytes = ap (λ b. b ++ part) bytes;
      clean = λ c _. cc;
    }
    rollback-Holds part (not_synced e os) = record {
      fit = h.fit;
      index = h.index;
      tail = [];
      bytes = cut-Holds part;
      clean = λ _ _. refl;
    }

    new_bytes : w.log.bytes ++ join (map frame ps) ≡ encode (rs ++ ps)
    new_bytes =
        ap (λ b. b ++ join (map frame ps)) bytes
        ∙ ap (λ b. encode rs ++ b) (join-frames ps)
        ∙ sym (encode-append rs ps)

    new_index : extend_index (log_end w.self) (map frame ps) w.self.index ≡ 0 ∷ ends 0 (rs ++ ps)
    new_index =
        extend_index-eq (log_end w.self) ps w.self.index
        ∙ rw (log_end-Holds rs w h, h.index)
            (ap (λ t. 0 ∷ t)
              (ap (λ n. ends 0 rs ++ ends n ps) (sym (zero-add (length (encode rs))))
                ∙ sym (ends-append 0 rs ps)))

    published-Holds :
        (os : List Answer)
        → Holds (rs ++ ps) (
            publish (map frame ps) (record w {
              log = record {
                bytes = w.log.bytes ++ join (map frame ps);
                durable = w.log.bytes ++ join (map frame ps);
              };
              os = os;
            }))
    published-Holds os = record {
      fit = AllFit-append rs ps h.fit fits;
      index = new_index;
      tail = [];
      bytes = new_bytes ∙ sym (append-nil (encode (rs ++ ps)));
      clean = λ _ _. refl;
    }

    settle-Committed :
        {r : Result (Unit {0}) × Disk}
        → Written (join (map frame ps)) w.log r
        → Committed rs ps (settle (map frame ps) (length (encode rs)) (with_disk w r))
    settle-Committed (written os) = (
      next_offset-Holds (rs ++ ps) _ (published-Holds os) ∙ length-append rs ps,
      published-Holds os,
      new_bytes,
      new_bytes,
    )
    settle-Committed (partial e part rest os q) =
        rw
          (on_disk-then (ftruncate (length (encode rs))) fsync
            (record w { log = extend w.log part; os = os }))
          (rollback-Holds part (
            ftruncate-fsync-RolledBack (length (encode rs))
              (record { log = extend w.log part; os = os })))

    -- Whatever the system answers, a commit ends in one of the two ways.
    pub commit-Committed : Committed rs ps (commit (map frame ps) w)
    unfolding commit
    commit-Committed =
        rw (log_end-Holds rs w h, on_disk-then (write_all (join (map frame ps))) fsync w)
          (settle-Committed
            (write_all-fsync-Written (join (map frame ps)) (record { log = w.log; os = w.os })))
