-- ===== src/Ledger.antt =====
-- The account of demos/ledger.py: its events are records of a stream, and its balance is what they come
-- to.
pub mod Balance
pub mod Audit
mod Tests
use durastream.Common.{
  ℕ, zero, suc, ◌+◌, ◌-◌, ◌%◌, ◌/◌, Bool, true, false, not, ◌||◌, Option, none, some, List, [], ◌∷◌,
  ◌++◌, map, Bytes, length, leb, ◌==◌, if◌then◌else◌,
}
use durastream.Common.Int.{ℤ, pos, negsuc, lebℤ, add_ℕ}
use durastream.Errors.{Result, ok, err}
use durastream.Exec.{Exec, pure, ◌>>=◌, ◌>>◌}
use durastream.Codec.{Zlib}
use durastream.Stream.Defs.{Machine}
use durastream.Stream.Write.{append_many}
use durastream.Stream.Read.{read}

pub data Op : Type 0 where
  deposit withdraw : Op

pub record Event : Type 0 where
  pub op : Op
  pub amount : ℕ

abbrev pub sub_ℕ : ℤ → ℕ → ℤ
sub_ℕ (pos a) n = if leb n a then pos (a - n) else negsuc (n - a - 1)
sub_ℕ (negsuc a) n = negsuc (a + n)

abbrev pub amount_of : ℕ → ℕ
amount_of i = 10 + i % 90

-- A deposit on evens, a withdrawal on odds if funds allow.
unfoldable pub event : ℕ → ℤ → Event
event i balance =
    if i % 2 == 0 || not (lebℤ (pos (amount_of i)) balance)
    then record { op = deposit; amount = amount_of i }
    else record { op = withdraw; amount = amount_of i }

abbrev pub apply_op : Op → ℤ → ℕ → ℤ
apply_op deposit balance amount = add_ℕ balance amount
apply_op withdraw balance amount = sub_ℕ balance amount

unfoldable pub apply : ℤ → Event → ℤ
apply balance ev = apply_op ev.op balance ev.amount

-- `BATCH`
abbrev pub batch_size : ℕ
batch_size = 1000

-- The stream of the account, and the variables of the loop.
pub record Ledger : Type 0 where
  pub acct : Machine
  pub live : ℤ
  pub mid_balance : ℤ
  pub batch : List Bytes

abbrev pub on_acct : {A : Type 0} → Exec Machine A → Exec Ledger A
on_acct m l = let (r, acct) = m l.acct in (r, record l { acct = acct })

module _ ⦃z : Zlib⦄ where
  abbrev pub append_batch : Exec Ledger (Unit {0})
  append_batch l = (on_acct (append_many l.batch) >>= λ _. λ k. (ok tt, record k { batch = [] })) l

  -- A batch that is full is appended.
  abbrev pub if_full : Exec Ledger (Unit {0})
  if_full l = if length l.batch == batch_size then append_batch l else (ok tt, l)

  -- what is left of the last batch
  abbrev pub append_rest : List Bytes → Exec Ledger (Unit {0})
  append_rest [] l = (ok tt, l)
  append_rest (r ∷ batch) l = append_batch l

module _ ⦃z : Zlib⦄ (jdump : Event → Bytes) where
  -- Event number `i`; `mid` is the number of events that come before the middle balance.
  abbrev pub enter_event : ℕ → ℕ → Ledger → Ledger
  enter_event mid i l =
      let ev = event i l.live in
      let live = apply l.live ev in
      record l {
        live = live;
        mid_balance = if suc i == mid then live else l.mid_balance;
        batch = l.batch ++ jdump ev ∷ [];
      }

  -- The loop over `n` events from number `i` on.
  unfoldable pub append_events : ℕ → ℕ → ℕ → Exec Ledger (Unit {0})
  unfolding event apply
  append_events mid zero i l = (ok tt, l)
  append_events mid (suc n) i l = (if_full >> append_events mid n (suc i)) (enter_event mid i l)

  unfoldable pub ingest : ℕ → Exec Ledger (Unit {0})
  unfolding append_events
  ingest n l = (append_events (n / 2) n 0 >> (λ k. append_rest k.batch k)) l

abbrev pub replay : (Bytes → Event) → ℤ → List Bytes → ℤ
replay loads balance [] = balance
replay loads balance (raw ∷ raws) = replay loads (apply balance (loads raw)) raws

-- The balance after the events of a range, from the stream.
module _ ⦃z : Zlib⦄ (loads : Bytes → Event) where
  unfoldable pub rebuild : Option ℤ → Exec Machine ℤ
  rebuild end = read (pos 0) end >>= λ records. pure (replay loads (pos 0) records)
