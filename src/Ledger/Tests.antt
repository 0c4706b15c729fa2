-- ===== src/Ledger/Tests.antt =====
-- An account of two events, with each event as two bytes.
use durastream.Common.{
  ℕ, zero, suc, ◌≡◌, refl, sym, append-nil, true, false, some, List, [], ◌∷◌, Bytes, codes, arith,
}
use durastream.Common.Int.{pos}
use durastream.Codec.Crc32.{zlib}
use durastream.Codec.Decode.{encode}
use durastream.Stream.Defs.{Stream, Machine}
use durastream.Stream.Holds.{Holds}
use durastream.Ledger.{Op, deposit, withdraw, Event, event, apply, Ledger, ingest}
use durastream.Ledger.Balance.{balance, entries}
use durastream.Ledger.Audit.{Audited, ingest-Audited}

abbrev tag : Op → ℕ
tag deposit = 0
tag withdraw = 1

abbrev jdump : Event → Bytes
jdump ev = tag ev.op ∷ ev.amount ∷ []

abbrev loads_tag : ℕ → ℕ → Event
loads_tag zero amount = record { op = deposit; amount = amount }
loads_tag (suc n) amount = record { op = withdraw; amount = amount }

abbrev loads : Bytes → Event
loads (t ∷ a ∷ raw) = loads_tag t a
loads _ = record { op = deposit; amount = 0 }

loads-tag : (o : Op) (amount : ℕ) → loads_tag (tag o) amount ≡ record { op = o; amount = amount }
loads-tag deposit amount = refl
loads-tag withdraw amount = refl

abbrev records : List Bytes
records = (0 ∷ 10 ∷ []) ∷ (0 ∷ 11 ∷ []) ∷ []

entries_test : entries jdump 2 ≡ records
unfolding entries balance event apply
entries_test = refl

-- funds do not allow the first withdrawal, and allow the second
withdraw_test : event 3 (pos 33) ≡ record { op = withdraw; amount = 13 }
unfolding event
withdraw_test = refl

abbrev account : Stream
account = record {
  name = codes "account.123";
  path = codes "d/account.123.log";
  content_type = codes "t";
  closed = false;
  listeners = [];
  next_lid = 1;
  file = some 3;
  owner = true;
  pid = 1;
  index = 0 ∷ [];
}

abbrev empty_account : Ledger
empty_account = record {
  acct = record {
    self = account;
    log = record { bytes = []; durable = [] };
    db = some [];
    os = [];
    getpid = 1;
    calls = [];
  };
  live = pos 0;
  mid_balance = pos 0;
  batch = [];
}

empty-Holds : Holds [] empty_account.acct
empty-Holds = record { fit = tt; index = refl; tail = []; bytes = refl; clean = λ c o. refl }

-- another handle
abbrev reopened : Machine
reopened = record {
  self = record account { owner = false; index = 0 ∷ 10 ∷ 20 ∷ [] };
  log = record { bytes = encode records; durable = encode records };
  db = some [];
  os = [];
  getpid = 2;
  calls = [];
}

reopened-Holds : Holds (entries jdump 2) reopened
unfolding entries balance event apply
reopened-Holds = record {
  fit = (omega arith, (omega arith, tt));
  index = refl;
  tail = [];
  bytes = sym (append-nil (encode records));
  clean = λ c o. refl;
}

ingest-Audited_example : Audited jdump loads 2 reopened (ingest jdump 2 empty_account)
ingest-Audited_example =
    ingest-Audited jdump loads (λ ev. loads-tag ev.op ev.amount) 2 empty_account reopened
      (omega arith) empty-Holds refl refl reopened-Holds refl
