-- ===== src/Result.antt =====
-- Exceptions as values: internal/command/errors.py, and the built-in exceptions that the code
-- can meet. A pure function that may raise returns a `Result`.
use mini_redis_test_app.Prelude.{String, ◌≡◌, ◌⊎◌, inl, inr, refl}

-- `CommandError` has two subclasses; both carry a message.
pub data CommandError : Type 0 where
  validation_error : String → CommandError
  parse_error : String → CommandError

pub data Error : Type 0 where
  command_error : CommandError → Error
  value_error index_error overflow_error recursion_error connection_error type_error runtime_error
        unicode_encode_error :
      Error

pub data Result {ℓ} (A : Type ℓ) : Type ℓ where
  ok : A → Result A
  raise : Error → Result A

infixl 5 ◌>>=◌ ◌>>◌
abbrev pub ◌>>=◌ {ℓ κ} : {A : Type ℓ} {B : Type κ} → Result A → (A → Result B) → Result B
ok a >>= f = f a
raise e >>= f = raise e

abbrev pub ◌>>◌ {ℓ κ} : {A : Type ℓ} {B : Type κ} → Result A → Result B → Result B
m >> k = m >>= λ _. k

pub Result-either {ℓ} :
    {A : Type ℓ} (r : Result A) → ((a : A) × (r ≡ ok a)) ⊎ ((e : Error) × (r ≡ raise e))
Result-either (ok a) = inl (a, refl)
Result-either (raise e) = inr (e, refl)
