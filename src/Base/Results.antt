-- ===== src/Base/Results.antt =====
-- What a Go call ends in.
use Prim.Native.String.{String}
use mathlib.Core.List.{List}
use marblerun.Base.Text.{Str}

-- gRPC status codes that the source returns
pub data Code : Type 0 where
  failed_precondition unauthenticated invalid_argument internal resource_exhausted : Code

-- Error values: what the store, the sealer and gRPC tell apart, and the formatted ones with the
-- format string and its string arguments. `foreign` is an error of a package outside the source.
pub data Error : Type 0 where
  unset : Str → Error
  encryption_key : Error
  not_exist : Error
  errorf : String → List Str → Error
  status : Code → String → Error
  foreign : String → Error

-- A call returns a value, returns an error, panics, or blocks for ever on a mutex.
pub data Result {ℓ} (A : Type ℓ) : Type ℓ where
  ok : A → Result A
  err : Error → Result A
  panic : String → Result A
  deadlock : Result A

abbrev pub IsErr {ℓ} : {A : Type ℓ} → Result A → Type 0
IsErr (err e) = Unit
IsErr _ = ⊥

abbrev pub IsOk {ℓ} : {A : Type ℓ} → Result A → Type 0
IsOk (ok a) = Unit
IsOk _ = ⊥

-- a call whose error is wrapped in another
abbrev pub or_error {ℓ} : {A : Type ℓ} → Result A → Error → Result A
or_error (ok a) e = ok a
or_error (err x) e = err e
or_error (panic m) e = panic m
or_error deadlock e = deadlock
