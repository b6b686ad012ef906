-- ===== src/Health/Model.antt =====
-- controlplane/internal/health/model.go: the health response and its validation. A time is the
-- number of nanoseconds behind the zero time; `trim_space` is strings.TrimSpace.
pub mod Accepted
use vcpe.Common.{
  nat_eq, [], length, contains, ltb, string_eq, not, ◌||◌, ◌∷◌, ◌==◌, Bool, List, String, ℕ,
}
use vcpe.Common.Result.{◌>>◌, fail_if, ok, Result}
use Prim.Native.String.{len}

abbrev pub schema_version : String
schema_version = "vcpe.dev/health/v1"

abbrev pub max_checks : ℕ
max_checks = 64

abbrev pub max_message_length : ℕ
max_message_length = 256

abbrev pub status_healthy : String
status_healthy = "healthy"

abbrev pub status_starting : String
status_starting = "starting"

abbrev pub status_unhealthy : String
status_unhealthy = "unhealthy"

pub record Check : Type 0 where
  pub name : String
  pub status : String
  pub message : String

pub record Response : Type 0 where
  pub schema : String
  pub status : String
  pub observed_at : ℕ
  pub checks : List Check

pub data HealthError : Type 0 where
  unsupported_schema : String → HealthError
  invalid_status : String → HealthError
  no_observation_time : HealthError
  too_many_checks : ℕ → HealthError
  no_check_name : HealthError
  duplicate_check : String → HealthError
  invalid_check_status : String → String → HealthError
  message_too_long : String → HealthError

-- Status.valid
abbrev pub valid_status : String → Bool
valid_status s = s == status_healthy || (s == status_starting || s == status_unhealthy)

-- The loop over the checks, with the names that were met before.
unfoldable pub validate_checks :
    (String → String) → List String → List Check → Result HealthError (Unit {0})
validate_checks trim_space seen [] = ok tt
validate_checks trim_space seen (c ∷ checks) =
    fail_if (trim_space c.name == "") no_check_name
    >> fail_if (contains seen c.name) (duplicate_check c.name)
    >> fail_if (not (valid_status c.status)) (invalid_check_status c.name c.status)
    >> fail_if (ltb max_message_length (len c.message)) (message_too_long c.name)
    >> validate_checks trim_space (c.name ∷ seen) checks

-- Validate
unfoldable pub validate : (String → String) → Response → Result HealthError (Unit {0})
unfolding validate_checks
validate trim_space r =
    fail_if (not (r.schema == schema_version)) (unsupported_schema r.schema)
    >> fail_if (not (valid_status r.status)) (invalid_status r.status)
    >> fail_if (r.observed_at == 0) no_observation_time
    >> fail_if (ltb max_checks (length r.checks)) (too_many_checks (length r.checks))
    >> validate_checks trim_space [] r.checks
