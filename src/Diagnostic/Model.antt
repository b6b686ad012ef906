-- ===== src/Diagnostic/Model.antt =====
-- controlplane/internal/diagnostic/model.go: edges, observations and their states.
-- A time is a number with 0 for Go's zero time, and a state is the text that was decoded.
use vcpe.Common.{string_eq, ◌||◌, ℕ, ◌==◌, Bool, List, String}

abbrev pub state_passed : String
state_passed = "passed"

abbrev pub state_failed : String
state_failed = "failed"

abbrev pub state_unknown : String
state_unknown = "unknown"

abbrev pub state_skipped : String
state_skipped = "skipped"

-- State.valid
unfoldable pub valid_state : String → Bool
valid_state s =
    s == state_passed || (s == state_failed || (s == state_unknown || s == state_skipped))

pub record Edge : Type 0 where
  pub id : String
  pub from : String
  pub to : String
  pub label : String
  pub blocks_following : Bool

pub record Evidence : Type 0 where
  pub key : String
  pub value : String

pub record Observation : Type 0 where
  pub edge_id : String
  pub state : String
  pub reason_id : String
  pub remediation_id : String
  pub message : String
  pub evidence : List Evidence
  pub observed_at : ℕ
