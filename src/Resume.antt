-- ===== src/Resume.antt =====
-- The generator sse_stream of demos/fastapi_resume.py, for one connection, beside the other users of its
-- stream, and generate, which appends the text. What a client makes of the bytes is left out.
pub mod Generated
pub mod Going
pub mod InOrder
pub mod Sending
mod Tests
use durastream.Common.{
  ℕ, ◌+◌, ◌≡◌, Bool, true, false, none, List, [], ◌∷◌, ◌++◌, Bytes, Text, codes, length,
  if◌then◌else◌,
}
use durastream.Common.Int.{ℤ, pos, lebℤ, add_ℕ}
use durastream.Errors.{Error, Result, ok, err, value_error, key_error}
use durastream.Exec.{Exec, ◌>>=◌}
use durastream.Disk.{Answer}
use durastream.Token.{to_token, from_token}
use durastream.Codec.{Zlib}
use durastream.Stream.Defs.{Machine, next_offset}
use durastream.Stream.Write.{append, append_many, close, close_fds}
use durastream.Stream.Holds.{Holds}
use durastream.Async.{async_read}

-- The deltas of the completion are appended, those that are empty left out, and then the stream is closed.
module _ ⦃z : Zlib⦄ where
  unfoldable pub generate : List Bytes → Exec Machine (Unit {0})
  generate [] w = close w
  generate ([] ∷ deltas) w = generate deltas w
  generate ((b ∷ delta) ∷ deltas) w = (append (b ∷ delta) >>= λ _. generate deltas) w

-- What the generator yields: a record with its id, the token of the next offset, and the end.
pub data Event : Type 0 where
  message : Text → Bytes → Event
  next_token : Text → Event
  stream_end : Event

-- Where the generator is: before the read, in the loop over a batch with the number of records sent and
-- those left, before each of the two tests, in the wait, and at the end.
pub data Place : Type 0 where
  reading looking comparing waiting returned cancelled : Place
  sending : ℕ → List Bytes → Place
  raised : Error → Place

pub record Sse : Type 0 where
  pub w : Machine
  pub place : Place
  pub offset : ℤ
  pub yielded : List Bytes

-- `json_dumps` is what json.dumps makes of the dictionary with the next offset's token.
module _ (json_dumps : Text → Text) where
  -- The bytes of an event. The texts are of ASCII characters, and `encode` of a record that `decode` has
  -- accepted gives the record again.
  abbrev pub chunk_of : Event → Bytes
  chunk_of (message id r) = codes "id: " ++ (id ++ 10 ∷ (codes "data: " ++ (r ++ 10 ∷ 10 ∷ [])))
  chunk_of (next_token t) =
      codes "event: control" ++ 10 ∷ (codes "data: " ++ (json_dumps t ++ 10 ∷ 10 ∷ []))
  chunk_of stream_end =
      codes "event: control" ++ 10 ∷ (codes "data: {\"streamClosed\": true}" ++ 10 ∷ 10 ∷ [])

  abbrev pub send : Event → Place → Sse → Sse
  send e p c = record c { yielded = c.yielded ++ chunk_of e ∷ []; place = p }

  abbrev pub send_message : Result Text → Bytes → Place → Sse → Sse
  send_message (ok id) r p c = send (message id r) p c
  send_message (err e) r p c = record c { place = raised e }

  abbrev pub send_next : Result Text → Sse → Sse
  send_next (ok t) c = send (next_token t) waiting c
  send_next (err e) c = record c { place = raised e }

  abbrev pub tell_next : Sse → Sse
  tell_next c = send_next (to_token c.offset) c

-- the records that the read has returned
abbrev pub arrived : Sse → Result (List Bytes) × Machine → Sse
arrived c (ok records, w) = record c { w = w; place = sending 0 records }
arrived c (err e, w) = record c { w = w; place = raised e }

abbrev pub begin_at : Result ℤ → Sse → Sse
begin_at (ok offset) c = record c { offset = offset; place = reading }
begin_at (err e) c = record c { place = raised e }

-- Before its loop: the stream is opened, and the offset is read from its token.
module _ (json_dumps : Text → Text) where
  abbrev pub begin : Result (Unit {0}) → Text → Sse → Sse
  begin (ok _) token c = begin_at (from_token token (next_offset c.w.self)) c
  begin (err (key_error k)) token c = send json_dumps stream_end returned c
  begin (err e) token c = record c { place = raised e }

-- `is_text` tells whether `decode` of a record succeeds.
module _ ⦃z : Zlib⦄ (json_dumps : Text → Text) (is_text : Bytes → Bool) where
  -- The generator goes on to its next test, yield, or read. What `wait` returns is not looked at.
  abbrev pub go_from : Place → Sse → Sse
  go_from reading c = arrived c (async_read c.offset none c.w)
  go_from (sending i []) c = record c { offset = add_ℕ c.offset i; place = looking }
  go_from (sending i (r ∷ records)) c =
      if is_text r
      then send_message json_dumps (to_token (add_ℕ c.offset i)) r (sending (i + 1) records) c
      else record c { place = raised value_error }
  go_from looking c =
      if c.w.self.closed then record c { place = comparing } else tell_next json_dumps c
  go_from comparing c =
      if lebℤ (pos (next_offset c.w.self)) c.offset
      then send json_dumps stream_end returned c
      else tell_next json_dumps c
  go_from waiting c = record c { place = reading }
  go_from returned c = c
  go_from cancelled c = c
  go_from (raised e) c = c

  pub data Step : Sse → Sse → Type 0 where
    appended :
        (payloads : List Bytes) (c : Sse) → Step c (record c { w = (append_many payloads c.w).1 })
    closed : (c : Sse) → Step c (record c { w = (close c.w).1 })
    released : (c : Sse) → Step c (record c { w = record c.w { self = close_fds c.w.self } })
    answers : (os : List Answer) (c : Sse) → Step c (record c { w = record c.w { os = os } })
    goes : (c : Sse) → Step c (go_from c.place c)
    -- the client has gone
    left : (c : Sse) → Step c (record c { place = cancelled })

  -- Connections with a token that is read as the offset `start`.
  pub data Reached (token : Text) (start : ℕ) : Sse → Type 0 where
    connected :
        (w : Machine) (rs : List Bytes)
        → Holds rs w
        → from_token token (next_offset w.self) ≡ ok (pos start)
        → Reached token start (
            begin json_dumps
              (ok tt)
              token
              (record { w = w; place = reading; offset = pos 0; yielded = [] }))
    then_step : (c d : Sse) → Reached token start c → Step c d → Reached token start d
