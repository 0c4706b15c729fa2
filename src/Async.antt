-- ===== src/Async.antt =====
-- The calls of src/durastream/aio.py that do more than pass on to a thread: `AsyncDurableStream.read`, and
-- `AsyncStore`, which gives each stream object the hub that it shares with others of its name. A method is
-- one function here; what other tasks do while it waits for its thread comes before it or after it.
pub mod Hubs
pub mod Reading
mod Tests
use durastream.Common.{
  ℕ, Bool, true, false, not, ◌||◌, Option, none, some, List, [], ◌∷◌, ◌++◌, Bytes, Text, length,
  get_elem?, ◌==◌, if◌then◌else◌,
}
use durastream.Common.Int.{ℤ, pos, lebℤ, maxℤ}
use durastream.Errors.{Result, ok, err}
use durastream.Exec.{Exec}
use durastream.Codec.{Zlib}
use durastream.Dict.{Dict, lookup, assign, remove}
use durastream.Stream.Defs.{Stream, Machine, next_offset}
use durastream.Stream.Read.{read}
use durastream.Store.{World}
use durastream.Store.Methods.{create, open_existing, delete}
use durastream.Store.Methods

abbrev pub nothing_new : ℕ → ℤ → Option ℤ → Bool
nothing_new last start none = lebℤ (pos last) start
nothing_new last start (some e) = lebℤ (pos last) start || lebℤ e start

-- A hub is known by its number: `hubs` gives the hub of a name, and `hub_streams` the object of each hub.
pub record AsyncStore : Type 0 where
  pub store : World
  pub hubs : Dict
  pub hub_streams : List ℕ

abbrev pub is_closed : Option Stream → Bool
is_closed none = true
is_closed (some s) = s.closed

-- Whether a hub is kept for the object `o`: unless its stream is another that is closed.
abbrev pub keeps : ℕ → Option ℕ → World → Bool
keeps o none w = false
keeps o (some p) w = (p == o) || not (is_closed (get_elem? w.heap p))

abbrev pub new_hub : Text → ℕ → AsyncStore → ℕ × AsyncStore
new_hub name o a = (
  length a.hub_streams,
  record a {
    hubs = assign name (length a.hub_streams) a.hubs;
    hub_streams = a.hub_streams ++ o ∷ [];
  },
)

abbrev pub hub_for : Text → ℕ → Option ℕ → AsyncStore → ℕ × AsyncStore
hub_for name o none a = new_hub name o a
hub_for name o (some h) a =
    if keeps o (get_elem? a.hub_streams h) a.store then (h, a) else new_hub name o a

abbrev pub name_of : Option Stream → Text
name_of none = []
name_of (some s) = s.name

-- `_wrap`: the hub of the object `o`
unfoldable pub wrap : ℕ → AsyncStore → ℕ × AsyncStore
wrap o a = let name = name_of (get_elem? a.store.heap o) in hub_for name o (lookup name a.hubs) a

abbrev pub in_store : {A : Type 0} → Exec World A → Exec AsyncStore A
in_store m a = let (r, w) = m a.store in (r, record a { store = w })

-- An object with its hub, which an `AsyncDurableStream` is.
abbrev pub wrapped : Result ℕ × AsyncStore → Result (ℕ × ℕ) × AsyncStore
wrapped (ok o, a) = let (h, a') = wrap o a in (ok (o, h), a')
wrapped (err e, a) = (err e, a)

abbrev pub forget_hub : Text → Result (Unit {0}) × AsyncStore → Result (Unit {0}) × AsyncStore
forget_hub name (ok tt, a) = (ok tt, record a { hubs = remove name a.hubs })
forget_hub name (err e, a) = (err e, a)

module _ ⦃z : Zlib⦄ where
  unfoldable pub async_read : ℤ → Option ℤ → Exec Machine (List Bytes)
  unfolding next_offset
  async_read offset end w =
      if nothing_new (next_offset w.self) (maxℤ offset (pos 0)) end
      then (ok [], w)
      else read offset end w

  unfoldable pub async_create : Text → Option Text → Exec AsyncStore (ℕ × ℕ)
  unfolding wrap
  async_create name content_type a = wrapped (in_store (create name content_type) a)

  unfoldable pub async_open : Text → Exec AsyncStore (ℕ × ℕ)
  unfolding wrap
  async_open name a = wrapped (in_store (open_existing name) a)

  unfoldable pub async_delete : Text → Exec AsyncStore (Unit {0})
  async_delete name a = forget_hub name (in_store (delete name) a)

unfoldable pub async_close : AsyncStore → AsyncStore
async_close a = record a { store = Methods.close a.store; hubs = [] }
