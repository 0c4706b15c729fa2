-- ===== src/Hub.antt =====
-- `_Hub` of src/durastream/aio.py: the subscribers of one stream in the event loop, and the listener that
-- feeds them.
pub mod Listens
pub mod OneListener
mod Tests
use durastream.Common.{
  ℕ, ◌+◌, ◌≡◌, Bool, true, false, Option, none, some, List, [], ◌∷◌, ◌++◌, map, Bytes, ◌==◌,
  if◌then◌else◌,
}
use durastream.Errors.{Result, ok, err, runtime_error}
use durastream.Exec.{Exec}
use durastream.Stream.Defs.{Listener, Stream}
use durastream.Stream.Write.{add_listener, remove_listener}
use durastream.Sub
use durastream.Sub.{Sub, new_sub}

-- Event loops are numbered; `subs` are the subscribers by their numbers, and `callback` is the number of
-- this hub's `_on_change`.
pub record Hub : Type 0 where
  pub callback : ℕ
  pub subs : List (ℕ × Sub)
  pub next_sub : ℕ
  pub lid : Option ℕ
  pub loop : Option ℕ

-- A hub and the stream object that it listens to.
pub record Fan : Type 0 where
  pub hub : Hub
  pub stream : Stream

-- Subscribers of a loop that is closed are dropped; the listener is kept.
abbrev pub drop_dead : ℕ → (ℕ → Bool) → Option ℕ → Hub → Hub
drop_dead running is_closed none h = h
drop_dead running is_closed (some l) h =
    if is_closed l then record h { subs = []; loop = some running } else h

abbrev pub add_sub : Exec Fan ℕ
add_sub f = (
  ok f.hub.next_sub,
  record f {
    hub = record f.hub {
      subs = f.hub.subs ++ (f.hub.next_sub, new_sub) ∷ [];
      next_sub = f.hub.next_sub + 1;
    };
  },
)

abbrev pub same_loop : ℕ → Option ℕ → Bool
same_loop running none = false
same_loop running (some l) = l == running

-- The first subscriber registers the hub with the stream.
abbrev pub attach : ℕ → Option ℕ → Exec Fan ℕ
attach running none f =
    let (lid, stream) = add_listener f.hub.callback f.stream in
    add_sub (record { hub = record f.hub { lid = some lid; loop = some running }; stream = stream })
attach running (some lid) f =
    if same_loop running f.hub.loop then add_sub f else (err runtime_error, f)

unfoldable pub join : ℕ → (ℕ → Bool) → Exec Fan ℕ
unfolding add_listener
join running is_closed f =
    let hub = drop_dead running is_closed f.hub.loop f.hub in
    attach running hub.lid (record f { hub = hub })

unfoldable pub discard : ℕ → List (ℕ × Sub) → List (ℕ × Sub)
discard n [] = []
discard n ((k, s) ∷ subs) = let rest = discard n subs in if k == n then rest else (k, s) ∷ rest

-- The last subscriber to leave takes the hub off the stream.
abbrev pub detach : List (ℕ × Sub) → Option ℕ → Fan → Fan
detach [] (some lid) f = record {
  hub = record f.hub { lid = none; loop = none };
  stream = (remove_listener lid f.stream).1;
}
detach _ _ f = f

unfoldable pub leave : ℕ → Fan → Fan
unfolding discard remove_listener
leave n f =
    let subs = discard n f.hub.subs in
    detach subs f.hub.lid (record f { hub = record f.hub { subs = subs } })

-- A delivery that a loop is to make.
pub record Job : Type 0 where
  pub loop : ℕ
  pub start : ℕ
  pub records : List Bytes

-- `_on_change`, on the writer's thread: a loop that is closed takes nothing.
abbrev pub post : Option ℕ → (ℕ → Bool) → ℕ → List Bytes → List Job → List Job
post none is_closed start records jobs = jobs
post (some l) is_closed start records jobs =
    if is_closed l then jobs else jobs ++ record { loop = l; start = start; records = records } ∷ []

unfoldable pub on_change : Hub → (ℕ → Bool) → ℕ → List Bytes → List Job → List Job
on_change h = post h.loop

unfoldable pub deliver : ℕ → List Bytes → Hub → Hub
deliver start records h = record h {
  subs = map (λ (p : ℕ × Sub). (p.0, Sub.deliver start records p.1)) h.subs;
}
