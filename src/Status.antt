-- ===== src/Status.antt =====
-- include/streamforge/Status.hpp: the outcome of an operation. Messages are not modelled.
pub data StatusCode : Type 0 where
  ok not_found invalid_argument offset_out_of_range corrupt io_error already_exists : StatusCode
  record_too_large : StatusCode

-- A status beside a value. `fault` is no value of the program: memory outside a buffer was read.
pub data Result {ℓ} (A : Type ℓ) : Type ℓ where
  done : A → Result A
  error : StatusCode → Result A
  fault : Result A

infixl 5 ◌>>=◌
abbrev pub ◌>>=◌ {ℓ κ} : {A : Type ℓ} {B : Type κ} → Result A → (A → Result B) → Result B
done a >>= f = f a
error s >>= f = error s
fault >>= f = fault
