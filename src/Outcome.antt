-- ===== src/Outcome.antt =====
-- Results of the driver's Go functions: a value, an error or a panic. Of a gRPC status the code is
-- kept and the message left out; an error of gopowerstore keeps the answers of its methods.
use test_powerstore_automati.Base.{Bool, true, false, Option, none, some, String}

-- google.golang.org/grpc/codes
pub data Code : Type 0 where
  invalid_argument not_found already_exists failed_precondition aborted out_of_range : Code
  unimplemented internal unknown resource_exhausted : Code

-- The methods of `gopowerstore.APIError` that the driver asks.
pub data ApiFact : Type 0 where
  not_found volume_name_in_use fs_name_in_use snapshot_name_in_use volume_attached_to_host : ApiFact
  host_not_exist volume_not_attached host_not_attached volume_detached : ApiFact
  host_removed_from_export host_present_in_export volume_removed_from_group : ApiFact
  replication_session_created unable_to_failover : ApiFact

pub record ApiError : Type 0 where
  pub holds : ApiFact → Bool
  pub message : String

-- A Go `error`: made by `status.Error`, an `APIError` of the client, or any other.
pub data Error : Type 0 where
  status : Code → Error
  api : ApiError → Error
  other : String → Error

-- `apiError, ok := err.(gopowerstore.APIError); ok && apiError.Fact()`
abbrev pub says : ApiFact → Error → Bool
says fact (api e) = e.holds fact
says fact (status c) = false
says fact (other m) = false

pub data Outcome {ℓ} (A : Type ℓ) : Type ℓ where
  ok : A → Outcome A
  err : Error → Outcome A
  panic : Outcome A

-- The gRPC error with this code.
abbrev pub fail {ℓ} : {A : Type ℓ} → Code → Outcome A
fail c = err (status c)

infixl 5 ◌>>=◌ ◌>>◌
abbrev pub ◌>>=◌ {ℓ κ} : {A : Type ℓ} {B : Type κ} → Outcome A → (A → Outcome B) → Outcome B
ok a >>= f = f a
err e >>= f = err e
panic >>= f = panic

abbrev pub ◌>>◌ {ℓ} : {B : Type ℓ} → Outcome (Unit {0}) → Outcome B → Outcome B
m >> k = m >>= λ _. k

-- `if !test { return err }`
abbrev pub guard : Bool → Code → Outcome (Unit {0})
guard true c = ok tt
guard false c = fail c

-- An index into a slice.
abbrev pub or_panic {ℓ} : {A : Type ℓ} → Option A → Outcome A
or_panic none = panic
or_panic (some a) = ok a
