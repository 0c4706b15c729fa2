-- ===== src/Disk/Laws.antt =====
-- What the calls leave in the file, whatever the system answers.
use durastream.Common.{
  ℕ, ◌-◌, ◌≡◌, refl, sym, ap, ◌∙◌, List, [], ◌∷◌, ◌++◌, append-nil, append_assoc, Bytes, length,
  take, drop, take-append-drop, take-append, length-append, subst, arith,
}
use durastream.Errors.{Error, Result, ok, err, os_error}
use durastream.Exec.{continue, ◌>>◌}
use durastream.Disk.{
  Answer, done, fail, short, LogFile, Disk, extend, write_rounds, write_all, fsync, cut, ftruncate,
}

-- After `view` was written and synced: all of it is in the file and durable, or a part of it was
-- written and the file is as durable as before.
pub data Written (view : Bytes) (f : LogFile) : Result (Unit {0}) × Disk → Type 0 where
  written :
      (os : List Answer)
      → Written view f (
        ok tt,
        record { log = record { bytes = f.bytes ++ view; durable = f.bytes ++ view }; os = os },
      )
  partial :
      (e : Error) (written rest : Bytes) (os : List Answer)
      → written ++ rest ≡ view
      → Written view f (err e, record { log = extend f written; os = os })

-- the same of the writes alone
data Wrote (view : Bytes) (f : LogFile) : Result (Unit {0}) × Disk → Type 0 where
  wrote : (os : List Answer) → Wrote view f (ok tt, record { log = extend f view; os = os })
  gave_up :
      (e : Error) (written rest : Bytes) (os : List Answer)
      → written ++ rest ≡ view
      → Wrote view f (err e, record { log = extend f written; os = os })

extend-extend : (f : LogFile) (a b : Bytes) → extend f (a ++ b) ≡ extend (extend f a) b
extend-extend f a b = ap (λ c. record f { bytes = c }) (sym (append_assoc f.bytes a b))

Wrote-later :
    (f : LogFile) (a b view : Bytes) {r : Result (Unit {0}) × Disk}
    → a ++ b ≡ view
    → Wrote b (extend f a) r
    → Wrote view f r
Wrote-later f a b view e (wrote os) =
    subst (λ g. Wrote view f (ok tt, record { log = g; os = os }))
      (ap (λ v. extend f v) (sym e) ∙ extend-extend f a b) (wrote os)
Wrote-later f a b view e (gave_up x w rest os q) =
    subst (λ g. Wrote view f (err x, record { log = g; os = os })) (extend-extend f a w)
      (gave_up x (a ++ w) rest os (append_assoc a w rest ∙ ap (λ v. a ++ v) q ∙ e))

write_rounds-Wrote :
    (os : List Answer) (view : Bytes) (f : LogFile) → Wrote view f (write_rounds os view f)
unfolding write_rounds
write_rounds-Wrote [] view f = wrote []
write_rounds-Wrote (a ∷ os) [] f =
    subst (λ g. Wrote [] f (ok tt, record { log = g; os = a ∷ os }))
      (ap (λ c. record f { bytes = c }) (append-nil f.bytes)) (wrote (a ∷ os))
write_rounds-Wrote (done ∷ os) (b ∷ view) f = wrote os
write_rounds-Wrote (fail ∷ os) (b ∷ view) f =
    subst (λ g. Wrote (b ∷ view) f (err os_error, record { log = g; os = os }))
      (ap (λ c. record f { bytes = c }) (append-nil f.bytes))
      (gave_up os_error [] (b ∷ view) os refl)
write_rounds-Wrote (short k ∷ os) (b ∷ view) f =
    Wrote-later f (take k (b ∷ view)) (drop k (b ∷ view)) (b ∷ view) (take-append-drop k (b ∷ view))
      (write_rounds-Wrote os (drop k (b ∷ view)) (extend f (take k (b ∷ view))))

fsync-after :
    (view : Bytes) (f : LogFile) (os : List Answer)
    → Written view f (fsync (record { log = extend f view; os = os }))
unfolding fsync
fsync-after view f [] = written []
fsync-after view f (fail ∷ os) = partial os_error view [] os (append-nil view)
fsync-after view f (done ∷ os) = written os
fsync-after view f (short k ∷ os) = written os

sync-after :
    (view : Bytes) (f : LogFile) {r : Result (Unit {0}) × Disk}
    → Wrote view f r
    → Written view f (continue (λ _. fsync) r)
sync-after view f (wrote os) = fsync-after view f os
sync-after view f (gave_up e w rest os q) = partial e w rest os q

-- A write and a sync, whatever the system answers.
pub write_all-fsync-Written :
    (view : Bytes) (d : Disk) → Written view d.log ((write_all view >> fsync) d)
unfolding write_all
write_all-fsync-Written view d = sync-after view d.log (write_rounds-Wrote d.os view d.log)

-- After a cut and a sync: the file is cut and durable, or one of the calls failed.
pub data RolledBack (n : ℕ) (f : LogFile) : Result (Unit {0}) × Disk → Type 0 where
  rolled_back :
      (os : List Answer)
      → RolledBack n f (
        ok tt,
        record { log = record { bytes = (cut n f).bytes; durable = (cut n f).bytes }; os = os },
      )
  not_cut : (e : Error) (os : List Answer) → RolledBack n f (err e, record { log = f; os = os })
  not_synced :
      (e : Error) (os : List Answer) → RolledBack n f (err e, record { log = cut n f; os = os })

fsync-cut :
    (n : ℕ) (f : LogFile) (os : List Answer)
    → RolledBack n f (fsync (record { log = cut n f; os = os }))
unfolding fsync
fsync-cut n f [] = rolled_back []
fsync-cut n f (fail ∷ os) = not_synced os_error os
fsync-cut n f (done ∷ os) = rolled_back os
fsync-cut n f (short k ∷ os) = rolled_back os

ftruncate-cut :
    (n : ℕ) (f : LogFile) (os : List Answer)
    → RolledBack n f ((ftruncate n >> fsync) (record { log = f; os = os }))
unfolding ftruncate
ftruncate-cut n f [] = fsync-cut n f []
ftruncate-cut n f (fail ∷ os) = not_cut os_error os
ftruncate-cut n f (done ∷ os) = fsync-cut n f os
ftruncate-cut n f (short k ∷ os) = fsync-cut n f os

pub ftruncate-fsync-RolledBack : (n : ℕ) (d : Disk) → RolledBack n d.log ((ftruncate n >> fsync) d)
ftruncate-fsync-RolledBack n d = ftruncate-cut n d.log d.os

-- A cut at a length that the file has drops what stands behind it.
pub cut-append :
    (front back durable : Bytes)
    → (cut (length front) (record { bytes = front ++ back; durable = durable })).bytes ≡ front
cut-append front back durable =
    rw (take-append (length front) front back refl, no_room front back) (append-nil front)
  where
    no_room : (a b : Bytes) → length a - length (a ++ b) ≡ 0
    no_room a b = omega (arith, length-append a b)

-- No call fails.
abbrev pub NoFail : List Answer → Type 0
NoFail [] = Unit
NoFail (done ∷ os) = NoFail os
NoFail (fail ∷ os) = ⊥
NoFail (short k ∷ os) = NoFail os

fsync-NoFail :
    (f : LogFile) (os : List Answer) → NoFail os → (fsync (record { log = f; os = os })).0 ≡ ok tt
unfolding fsync
fsync-NoFail f [] h = refl
fsync-NoFail f (done ∷ os) h = refl
fsync-NoFail f (fail ∷ os) h = absurd h
fsync-NoFail f (short k ∷ os) h = refl

write_rounds-NoFail :
    (os : List Answer) (view : Bytes) (f : LogFile)
    → NoFail os
    → (continue (λ _. fsync) (write_rounds os view f)).0 ≡ ok tt
unfolding write_rounds
write_rounds-NoFail [] view f h = fsync-NoFail (extend f view) [] h
write_rounds-NoFail (a ∷ os) [] f h = fsync-NoFail f (a ∷ os) h
write_rounds-NoFail (done ∷ os) (b ∷ view) f h = fsync-NoFail (extend f (b ∷ view)) os h
write_rounds-NoFail (fail ∷ os) (b ∷ view) f h = absurd h
write_rounds-NoFail (short k ∷ os) (b ∷ view) f h =
    write_rounds-NoFail os (drop k (b ∷ view)) (extend f (take k (b ∷ view))) h

pub write_all-fsync-NoFail :
    (view : Bytes) (d : Disk) → NoFail d.os → ((write_all view >> fsync) d).0 ≡ ok tt
unfolding write_all
write_all-fsync-NoFail view d h = write_rounds-NoFail d.os view d.log h

pub ftruncate-fsync-NoFail :
    (n : ℕ) (f : LogFile) (os : List Answer)
    → NoFail os
    → ((ftruncate n >> fsync) (record { log = f; os = os })).0 ≡ ok tt
unfolding ftruncate
ftruncate-fsync-NoFail n f [] h = fsync-NoFail (cut n f) [] h
ftruncate-fsync-NoFail n f (done ∷ os) h = fsync-NoFail (cut n f) os h
ftruncate-fsync-NoFail n f (fail ∷ os) h = absurd h
ftruncate-fsync-NoFail n f (short k ∷ os) h = fsync-NoFail (cut n f) os h
