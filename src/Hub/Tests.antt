-- ===== src/Hub/Tests.antt =====
-- A hub with two subscribers, one of which leaves, on a stream that has a listener of another's.
use durastream.Common.{ℕ, ◌≡◌, refl, Bool, true, false, none, some, [], ◌∷◌, length, codes, arith}
use durastream.Errors.{err, runtime_error}
use durastream.Stream.Defs.{Stream}
use durastream.Stream.Write.{add_listener, remove_listener, pop_listener}
use durastream.Sub.{new_sub}
use durastream.Hub.{Hub, Fan, join, discard, leave, on_change}
use durastream.Hub.Listens.{mine}
use durastream.Hub.OneListener.{Reached, made, then_step, joins, leaves, one_listener}

abbrev stream : Stream
stream = record {
  name = codes "s";
  path = codes "d/s.log";
  content_type = codes "t";
  closed = false;
  listeners = record { lid = 1; callback = 7 } ∷ [];
  next_lid = 2;
  file = some 3;
  owner = true;
  pid = 1;
  index = 0 ∷ 9 ∷ [];
}

abbrev new_hub : Hub
new_hub = record { callback = 8; subs = []; next_sub = 0; lid = none; loop = none }

abbrev alone : Fan
alone = record { hub = new_hub; stream = stream }

abbrev running : ℕ → Bool
running l = false

-- in loop 5
abbrev joined_twice : Fan
joined_twice = (join 5 running (join 5 running alone).1).1

abbrev one_left : Fan
one_left = leave 0 joined_twice

joined_test : joined_twice.hub.subs ≡ (0, new_sub) ∷ (1, new_sub) ∷ []
unfolding join add_listener
joined_test = refl

-- the last to leave takes the hub off
left_test : (leave 1 one_left).stream.listeners ≡ stream.listeners
unfolding leave join add_listener discard remove_listener pop_listener
left_test = refl

-- a subscriber in another loop
refused_test : (join 6 running joined_twice).0 ≡ err runtime_error
unfolding join add_listener
refused_test = refl

-- a loop that is closed gives way
replaced_test : (join 6 (λ l. true) joined_twice).1.hub.subs ≡ (2, new_sub) ∷ []
unfolding join add_listener
replaced_test = refl

posted_test :
    on_change joined_twice.hub running 1 [] [] ≡ record { loop = 5; start = 1; records = [] } ∷ []
unfolding on_change join add_listener
posted_test = refl

one_left-Reached : Reached one_left
unfolding mine
one_left-Reached =
    then_step _ _
      (then_step _ _ (then_step _ _ (made 8 stream (omega arith, tt) refl) (joins 5 running alone))
        (joins 5 running _))
      (leaves 0 joined_twice)

one_listener_example : length (mine 8 one_left.stream.listeners) ≡ 1
unfolding leave join add_listener discard remove_listener pop_listener
one_listener_example = (one_listener one_left one_left-Reached).1 (λ e. absurd (cc e))
