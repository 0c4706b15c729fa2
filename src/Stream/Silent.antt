-- ===== src/Stream/Silent.antt =====
-- A read where the system has no more failures to give.
use durastream.Common.{
  ℕ, ◌-◌, ◌≡◌, sym, ap, ◌∙◌, subst, Option, none, some, List, [], Bytes, Text, length, drop, leb,
  if◌then◌else◌, if-true, if-false, Bool-cases, inl, inr,
}
use durastream.Common.Int.{ℤ, pos, pos_part, lebℤ, minℤ, maxℤ}
use durastream.Errors.{Result, ok, err}
use durastream.Exec.{continue, lift}
use durastream.Disk.{Answer}
use durastream.Codec.{Zlib}
use durastream.Stream.Defs.{Machine, next_offset}
use durastream.Stream.Read.{read_rounds, read_bytes, check_records, read_range, read_open, read}

-- no answer is left
abbrev Silent : {A : Type 0} → Result A × Machine → Type 0
Silent (r, w) = w.os ≡ []

read_rounds-Silent :
    (name : Text) (left : Bytes) (want : ℕ) → (read_rounds name [] left want).1 ≡ []
unfolding read_rounds
read_rounds-Silent name left want = elim (Bool-cases (leb want (length left))) [
  | inl a ↦ ap (λ (r : Result Bytes × List Answer). r.1) (if-true _ _ a)
  | inr a ↦ ap (λ (r : Result Bytes × List Answer). r.1) (if-false _ _ a)
]

read_bytes-Silent : (start want : ℕ) (w : Machine) → w.os ≡ [] → Silent (read_bytes start want w)
unfolding read_bytes
read_bytes-Silent start want w e =
    ap (λ os. (read_rounds w.self.name os (drop start w.log.bytes) want).1) e
    ∙ read_rounds-Silent w.self.name (drop start w.log.bytes) want

module _ ⦃z : Zlib⦄ where
  checked-Silent :
      (f : Bytes → Result (List Bytes)) (r : Result Bytes × Machine)
      → Silent r
      → Silent (continue (λ bytes. lift (f bytes)) r)
  checked-Silent f (ok bytes, w) h = h
  checked-Silent f (err e, w) h = h

  read_open-Silent :
      (file : Option ℕ) (start stop : ℕ) (w : Machine)
      → w.os ≡ []
      → Silent (read_open file start stop w)
  unfolding read_range
  read_open-Silent none start stop w e = e
  read_open-Silent (some fd) start stop w e =
      checked-Silent (check_records w.self.name (stop - start)) _ (read_bytes-Silent _ _ w e)

  pub read-silent :
      (offset : ℤ) (end : Option ℤ) (w : Machine) → w.os ≡ [] → (read offset end w).1.os ≡ []
  unfolding read
  read-silent offset end w e =
      by (elim end [ none ↦ pos (next_offset w.self) | some x ↦ minℤ x (pos (next_offset w.self)) ])
        (maxℤ offset (pos 0))
    where
      by :
          (stop start : ℤ)
          → Silent (
              if lebℤ stop start
              then (ok [], w)
              else read_open w.self.file (pos_part start) (pos_part stop) w)
      by stop start = elim (Bool-cases (lebℤ stop start)) [
        | inl a ↦ subst Silent (sym (if-true _ _ a)) e
        | inr a ↦
            subst Silent (sym (if-false _ _ a))
              (read_open-Silent w.self.file (pos_part start) (pos_part stop) w e)
      ]
