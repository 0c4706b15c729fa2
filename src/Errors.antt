-- ===== src/Errors.antt =====
-- src/durastream/errors.py: the exceptions, and the result of a call that may raise one. The
-- exceptions of the standard library that the program raises or passes on stand beside them.
use durastream.Common.{◌⊎◌, inl, inr, Text, ◌≡◌, refl, Bool, true, false}

pub data Error : Type 0 where
  durastream_error : Error
  stream_closed : Text → Error
  stream_locked : Text → Error
  corrupt_stream : Text → Error
  value_error : Error
  key_error : Text → Error
  struct_error : Error
  os_error : Error
  runtime_error : Error
  index_error : Error

pub data Result {ℓ} (A : Type ℓ) : Type ℓ where
  err : Error → Result A
  ok : A → Result A

-- An exception ends a chain of calls.
infixl 10 ◌>>=◌
abbrev pub ◌>>=◌ {ℓ κ} : {V : Type ℓ} {W : Type κ} → Result V → (V → Result W) → Result W
err raised >>= next_call = err raised
ok v >>= next_call = next_call v

pub Result-cases {ℓ} :
    {A : Type ℓ} (r : Result A) → ((a : A) × (r ≡ ok a)) ⊎ ((e : Error) × (r ≡ err e))
Result-cases (ok a) = inl (a, refl)
Result-cases (err e) = inr (e, refl)

-- What `except DurastreamError` catches: the class and its three subclasses.
unfoldable pub is_durastream_error : Error → Bool
is_durastream_error durastream_error = true
is_durastream_error (stream_closed n) = true
is_durastream_error (stream_locked n) = true
is_durastream_error (corrupt_stream n) = true
is_durastream_error _ = false
