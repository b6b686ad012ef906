-- ===== src/Health/Collector.antt =====
-- controlplane/internal/health/collector.go: the collection of health over HTTP. What the HTTP client
-- and the JSON decoder answer for a target is a function of the target; the worker goroutines are
-- steps of a pool.
pub mod Trust
pub mod Workers
pub mod Sorted
use vcpe.Common.{
  nat_eq, map, string_eq, ◌&&◌, List, not, some, ◌==◌, Bool, Option, if◌then◌else◌, none, String, ℕ,
}
use vcpe.Common.Int.{pos_part, pos, ltb_ℤ, ℤ}
use vcpe.Common.Result.{ok, Result, err}
use vcpe.Health.Model.{Response, HealthError, validate}
use vcpe.Common.Sort.{sort, text_before}
use vcpe.Health.Model

pub record Target : Type 0 where
  pub deployment : String
  pub service : String
  pub replica : ℤ
  pub host : String
  pub port : ℤ

pub data CollectError : Type 0 where
  invalid_endpoint : CollectError
  not_built : String → CollectError
  not_sent : String → CollectError
  bad_code : ℕ → CollectError
  not_decoded : String → CollectError
  not_valid : HealthError → CollectError

pub record Observation : Type 0 where
  pub target : Target
  pub state : String
  pub observed_at : ℕ
  pub response : Option Response
  pub error : Option CollectError

-- The answer to `GET /health`.
pub data Reply : Type 0 where
  build_failed : String → Reply
  request_failed : String → Reply
  status : ℕ → Result String Response → Reply

-- What NewCollector makes of its arguments, in nanoseconds.
pub record Collector : Type 0 where
  pub timeout : ℕ
  pub concurrency : ℕ

unfoldable pub new_collector : ℤ → ℤ → Collector
new_collector timeout concurrency = record {
  timeout = if ltb_ℤ (pos 0) timeout then pos_part timeout else 2000000000;
  concurrency = if ltb_ℤ (pos 0) concurrency then pos_part concurrency else 4;
}

module _ (trim_space : String → String) (reply : Target → Reply) (now : ℕ) where
  abbrev pub unknown : Target → CollectError → Observation
  unknown target e = record {
    target = target;
    state = "unknown";
    observed_at = now;
    response = none;
    error = some e;
  }

  -- What follows the response's status.
  unfoldable pub observe : Target → Response → Observation
  unfolding validate
  observe target body = elim (validate trim_space body) [
    | err e ↦ unknown target (not_valid e)
    | ok done ↦ record {
      target = target;
      state = body.status;
      observed_at = now;
      response = some body;
      error = none;
    }
  ]

  unfoldable pub receive : Target → Reply → Observation
  unfolding observe
  receive target (build_failed text) = unknown target (not_built text)
  receive target (request_failed text) = unknown target (not_sent text)
  receive target (status code (err text)) =
      if not (code == 200)
      then unknown target (bad_code code)
      else unknown target (not_decoded text)
  receive target (status code (ok body)) =
      if not (code == 200) then unknown target (bad_code code) else observe target body

  abbrev pub is_loopback : Target → Bool
  is_loopback target =
      target.host == "127.0.0.1"
      && (not (ltb_ℤ target.port (pos 1)) && not (ltb_ℤ (pos 65535) target.port))

  -- collectOne
  unfoldable pub collect_one : Target → Observation
  unfolding receive
  collect_one target =
      if not (is_loopback target)
      then unknown target invalid_endpoint
      else receive target (reply target)

  -- The order of the observations: by service, then by replica.
  unfoldable pub observed_before : Observation → Observation → Bool
  unfolding text_before
  observed_before a b =
      if not (a.target.service == b.target.service)
      then text_before a.target.service b.target.service
      else ltb_ℤ a.target.replica b.target.replica

  -- Collect, where the workers have filled every slot.
  unfoldable pub collect : List Target → List Observation
  unfolding collect_one observed_before sort
  collect targets = sort observed_before (map collect_one targets)
