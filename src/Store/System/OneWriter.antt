-- ===== src/Store/System/OneWriter.antt =====
-- The rule of one writer per stream.
use durastream.Common.{ℕ, ◌≡◌, sym, ap, ◌∙◌, true, some, get_elem?, set, arith}
use durastream.Exec.{Exec}
use durastream.Codec.{Zlib}
use durastream.Stream.Defs.{Stream, Machine, writable}
use durastream.Stream.Write.{append_many, close}
use durastream.Stream.Role.{KeepsRole, append_many-Role, close-Role}
use durastream.Store.{World, as_machine}
use durastream.Store.Ops.{log_of}
use durastream.Store.Methods.{is_writer}
use durastream.Store.Locks.{set-Inv, writers-eq}
use durastream.Store.Locks.Calls.{Sound, Any}
use durastream.Store.Locks.Methods.{
  create-Gives, open_existing-Gives, delete-Gives, close-Sound, close_object-Sound, put_log-Sound,
  Gives-Sound,
}
use durastream.Store.System.{
  log_inode, on_stream, Step, entered, created, opened, deleted, store_closed, appended,
  stream_closed, dropped, Reached, booted, then_step, WritesTo,
}

on_stream-Sound :
    {A : Type 0} (m : Exec Machine A)
    → KeepsRole m
    → (o : ℕ) (s : Stream) (w : World) → get_elem? w.heap o ≡ some s
    → Sound w
    → Sound (on_stream o s m w).1
on_stream-Sound m keeps o s w e sound =
    let before = as_machine w s (log_of (log_inode s w) w) in
    let v = (m before).1 in
    let role = keeps before in
    put_log-Sound (log_inode s w) v.log
      (record w { heap = set w.heap o v.self; db = v.db; os = v.os; calls = v.calls })
      (
        sound.0,
        set-Inv w.dir w.heap w.files w.inodes sound.1 o s v.self e (λ f q. sym role.0 ∙ q)
            (λ q. sym role.1 ∙ q),
      )

module _ ⦃z : Zlib⦄ where
  Step-Sound : {w v : World} → Step w v → Sound w → Sound v
  Step-Sound (entered c w) s = s
  Step-Sound (created name content_type w) s =
      Gives-Sound Any _ (create-Gives name content_type w s)
  Step-Sound (opened name w) s = Gives-Sound Any _ (open_existing-Gives name w s)
  Step-Sound (deleted name w) s = Gives-Sound Any _ (delete-Gives name w s)
  Step-Sound (store_closed w) s = close-Sound w s
  Step-Sound (appended o t payloads w e) s =
      on_stream-Sound (append_many payloads) (append_many-Role payloads) o t w e s
  Step-Sound (stream_closed o t w e) s = on_stream-Sound close close-Role o t w e s
  Step-Sound (dropped o w) s = close_object-Sound o w s

  pub Reached-Sound : {w : World} → Reached w → Sound w
  Reached-Sound (booted w locking heap files unheld below) = (
    locking,
    record {
      entries = below;
      inos = λ f ino e. absurd (cc (sym e ∙ ap (λ l. get_elem? l f) files));
      bounded = λ ino f e. absurd (cc (sym e ∙ unheld ino));
      known = λ o s f e q. absurd (cc (sym e ∙ ap (λ l. get_elem? l o) heap));
      held = λ o s f e q v. absurd (cc (sym e ∙ ap (λ l. get_elem? l o) heap));
      distinct = λ o p s t f e e' q q'. absurd (cc (sym e ∙ ap (λ l. get_elem? l o) heap));
    },
  )
  Reached-Sound (then_step w v reached step) = Step-Sound step (Reached-Sound reached)

  pub is_writer-owner : (s : Stream) (w : World) → is_writer (some s) w ≡ true → s.owner ≡ true
  unfolding writable
  is_writer-owner s w e = ground arith

  -- However stores create, open, close and delete streams, append to them and drop them, in any number
  -- of processes, where the file system has locks: two objects that may write to one log, each in some
  -- process, are the same object.
  pub one_writer :
      (w : World) → Reached w → (o p ino i j : ℕ) → WritesTo o ino i w → WritesTo p ino j w → o ≡ p
  one_writer w reached o p ino i j (s, e, can, (f, q, at)) (t, e', can', (g, q', at')) =
      writers-eq w.dir w.heap w.files w.inodes (Reached-Sound reached).1 o p s t f g e e' q q'
        (is_writer-owner s (record w { getpid = i }) can)
        (is_writer-owner t (record w { getpid = j }) can') (at ∙ sym at')
