-- ===== src/Stream/Crash.antt =====
-- What a crash leaves of a stream: all that was durable, and of a batch that was being written a
-- first part, in whole records.
use durastream.Common.{ℕ, ◌≡◌, ◌≢◌, ap, ◌∙◌, subst, List, [], ◌++◌, Bytes, take}
use durastream.Errors.{ok}
use durastream.Disk.Laws.{NoFail}
use durastream.Codec.{Zlib}
use durastream.Codec.Decode.{AllFit, encode, decode, decode-encode}
use durastream.Codec.Frames.{whole, decode-cut}
use durastream.Codec.Sound.{AreBytes}
use durastream.Stream.Defs.{Machine, recover}
use durastream.Stream.Write.{append_many}
use durastream.Stream.Holds.{Holds}
use durastream.Stream.Append.{Appended, append_many-Appended}
use durastream.Stream.Recover.{recover-Holds}

module _ ⦃z : Zlib⦄ where
  reopened :
      (w : Machine) (rs : List Bytes)
      → AreBytes w.log.bytes
      → NoFail w.os
      → decode w.log.bytes ≡ rs
      → ((recover w).0 ≡ ok tt) × Holds rs (recover w).1
  reopened w rs b h e =
      let r = recover-Holds w b h in (r.0, subst (λ l. Holds l (recover w).1) e r.1)

  -- After an append of a batch that is not empty has returned, a log that begins with what was
  -- durable, whatever stands behind it, opens if no system call fails, and the stream then holds all
  -- records of before and of the batch first, in their order.
  pub append_many-survives :
      (rs ps : List Bytes) (w : Machine) {n : ℕ} {w' : Machine}
      → Holds rs w
      → ps ≢ []
      → append_many ps w ≡ (ok n, w')
      → (after : Machine) (junk : Bytes) → after.log.bytes ≡ w'.log.durable ++ junk
      → AreBytes after.log.bytes
      → NoFail after.os
      → ((recover after).0 ≡ ok tt) × Holds ((rs ++ ps) ++ decode junk) (recover after).1
  append_many-survives rs ps w {n} {w'} h ne e after junk left b calls =
      let (_, holds, durable) = subst (Appended rs ps) e (append_many-Appended rs ps w h) in
      reopened after ((rs ++ ps) ++ decode junk) b calls (
        ap decode (left ∙ ap (λ d. d ++ junk) (durable ne))
        ∙ decode-encode (rs ++ ps) junk holds.fit)

  -- If of a batch that was being written behind the records rs only the first k bytes of the frames
  -- reached the file, then the log opens if no system call fails, and the stream holds rs and those
  -- records of the batch whose frames are whole.
  pub recover-torn :
      (rs ps : List Bytes) (k : ℕ) (w : Machine)
      → AllFit rs
      → AllFit ps
      → w.log.bytes ≡ encode rs ++ take k (encode ps)
      → AreBytes w.log.bytes
      → NoFail w.os
      → ((recover w).0 ≡ ok tt) × Holds (rs ++ whole k ps) (recover w).1
  recover-torn rs ps k w fr fp e b h = reopened w (rs ++ whole k ps) b h (
      ap decode e
      ∙ decode-encode rs (take k (encode ps)) fr
      ∙ ap (λ t. rs ++ t) (decode-cut ps k fp))
