-- ===== src/Domain/Error.antt =====
-- backend/crates/ferum-domain/src/error.rs: the errors, and the result of a fallible call.
use ferum_board.Prelude.{ℕ, String, Option, none, some}

pub data AppError : Type 0 where
  unauthorized : AppError
  forbidden : String → AppError
  not_found : AppError
  conflict : String → AppError
  unprocessable_entity : String → AppError
  too_many_requests : ℕ → AppError
  internal : String → AppError
  plugin_blocked : (reason error_code : String) → AppError

pub data Result {ℓ} (A : Type ℓ) : Type ℓ where
  ok : A → Result A
  err : AppError → Result A

-- The operator `?` on a result.
infixl 10 ◌>>=◌
abbrev pub ◌>>=◌ {ℓ κ} : {X : Type ℓ} {Y : Type κ} → Result X → (X → Result Y) → Result Y
ok x >>= next = next x
err refusal >>= next = err refusal

infixl 10 ◌>>◌
abbrev pub ◌>>◌ {ℓ} : {B : Type ℓ} → Result (Unit {0}) → Result B → Result B
m >> k = m >>= λ _. k

-- `OptionExt::or_not_found`.
abbrev pub or_not_found {ℓ} : {A : Type ℓ} → Option A → Result A
or_not_found none = err not_found
or_not_found (some a) = ok a

-- The HTTP status and the machine-readable code of an error.
unfoldable pub status_and_code : AppError → ℕ × String
status_and_code unauthorized = (401, "unauthorized")
status_and_code (forbidden code) = (403, code)
status_and_code not_found = (404, "not_found")
status_and_code (conflict code) = (409, code)
status_and_code (unprocessable_entity _) = (422, "validation_error")
status_and_code (too_many_requests _) = (429, "rate_limit_exceeded")
status_and_code (internal _) = (500, "internal_error")
status_and_code (plugin_blocked _ error_code) = (403, error_code)
