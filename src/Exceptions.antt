-- ===== src/Exceptions.antt =====
-- owtf/lib/exceptions.py, and the exceptions of Python and of the mapper that the managers let
-- through. A function that may raise returns a `Result`.
use owtf.Base.{◌≡◌, refl, ◌⊎◌, inl, inr}

pub data Error : Type 0 where
  invalid_work_reference : Error
  invalid_worker_reference : Error
  invalid_session_reference : Error
  invalid_target_reference : Error
  unresolvable_target : Error
  invalid_parameter_type : Error
  db_integrity : Error
  framework_abort : Error
  key_error : Error
  value_error : Error
  type_error : Error
  attribute_error : Error
  runtime_error : Error
  api_error : Error
  flush_error : Error
  -- psutil.NoSuchProcess
  no_such_process : Error
  invalid_transaction_reference : Error
  index_error : Error
  database_error : Error

pub data Result {ℓ} (Value : Type ℓ) : Type ℓ where
  -- what the function returns
  ok : Value → Result Value
  -- what it raises
  err : Error → Result Value

module _ {ℓ} {Value : Type ℓ} where
  pub Result-cases :
      (r : Result Value) → ((v : Value) × (r ≡ ok v)) ⊎ ((raised : Error) × (r ≡ err raised))
  Result-cases (ok v) = inl (v, refl)
  Result-cases (err raised) = inr (raised, refl)

module _ {ℓ κ} {Value : Type ℓ} {Next : Type κ} where
  infixl 10 ◌>>=◌
  -- An exception skips the rest of a function.
  abbrev pub ◌>>=◌ : Result Value → (Value → Result Next) → Result Next
  ok v >>= rest = rest v
  err raised >>= rest = err raised

  -- A function that returns has had a value at each of its calls.
  pub parts_of_ok :
      (first : Result Value) (rest : Value → Result Next) {r : Next}
      → (first >>= rest) ≡ ok r
      → (v : Value) × (first ≡ ok v) × (rest v ≡ ok r)
  parts_of_ok (ok v) rest returns = (v, refl, returns)
  parts_of_ok (err raised) rest returns = absurd (cc)
