-- ===== src/Common/Result.antt =====
-- backend/errors.py: an operation that may raise returns a `Result`. Only the errors that the
-- modelled code raises are listed; a message's arguments are not modelled.
use mathlib.Core.Bool.{Bool, true, false}

pub data ClientError : Type 0 where
  resource_not_found stale_claim job_not_failed invalid_memory_path link_would_cycle : ClientError
  invalid_project_merge upload_digest_mismatch chunk_too_large blob_incomplete : ClientError
  upload_offset_mismatch note_was_purged : ClientError
  -- of `AuthNError`
  signin_throttled signin_failed invalid_api_key : ClientError
  -- `FileNotFoundError`
  file_not_found : ClientError
  -- the database refuses a row that breaks a unique constraint
  integrity_error : ClientError

-- What a request answers: a value, or the error that it raises.
pub data Result {ℓ} (Answer : Type ℓ) : Type ℓ where
  raised : ClientError → Result Answer
  ok : Answer → Result Answer

module _ {ℓ κ} {Answer : Type ℓ} {Next : Type κ} where
  infixl 5 ◌>>=◌ ◌>>◌
  abbrev pub ◌>>=◌ : Result Answer → (Answer → Result Next) → Result Next
  raised error >>= continue = raised error
  ok answer >>= continue = continue answer

  abbrev pub ◌>>◌ : Result Answer → Result Next → Result Next
  first >> then_run = first >>= λ _. then_run

-- `if test: ….raise_()`
abbrev pub raise_if : Bool → ClientError → Result (Unit {0})
raise_if true e = raised e
raise_if false e = ok tt

-- What a `Result` says when it is a success with a property.
abbrev pub Returns {ℓ} : {A : Type ℓ} → (A → Type 0) → Result A → Type 0
Returns P (ok a) = P a
Returns P (raised e) = ⊥
