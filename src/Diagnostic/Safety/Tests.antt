-- ===== src/Diagnostic/Safety/Tests.antt =====
-- A result of two edges, evaluated, sanitised and classified.
use vcpe.Diagnostic.Model.{state_passed, Edge, Observation, Evidence}
use vcpe.Common.{
  All, ◌↔◌, string_eq, false, refl, none, some, [], true, ◌==◌, ◌∷◌, ◌≡◌, List, String,
  if◌then◌else◌, some_where, take,
}
use vcpe.Diagnostic.Evaluate.{skipped, apply_causality}
use vcpe.Common.Result.{ok}
use vcpe.Diagnostic.Safety.{
  sanitize_evidence, sanitize, redacted, redact, clean_evidence, replace_each, truncate,
}
use vcpe.Diagnostic.Formats.{Formats, bytes}
use vcpe.Diagnostic.Document.{Report, EndpointIdentity, Node}
use vcpe.Diagnostic.Safety.Redacted.{sanitize-Clean, CleanReport}
use vcpe.Diagnostic.Classify.{classify, classify-passed_iff, outcome_passed}
use vcpe.Diagnostic.Validate.Causal.{apply_causality-validates, Checked}
use vcpe.Diagnostic.Validate.{check_observation, check_observations, validate_report}
use vcpe.Common.Text.{all_codes, has_part}
use vcpe.Common.Int.{pos}

-- Plain ASCII, and no pattern that matches.
abbrev pub formats : Formats
formats = record {
  trim_space = λ s. s;
  to_lower = λ s. if s == redacted then "[redacted]" else s;
  atoi = λ s. if s == "200" then some (pos 200) else none;
  parse_time = λ s. none;
  parse_duration = λ s. none;
  media_type = λ s. some s;
  parse_url = λ s. some (record {
    scheme = "http";
    user = none;
    host = "sink";
    host_name = "sink";
    port = "";
    path = "/";
    raw_query = "";
    force_query = false;
    fragment = "";
  });
  print_url = λ u. u.path;
  join_host_port = λ host port. host;
  print_int = λ n. "200";
  replace_all = λ pattern value by. value;
}

abbrev identity : EndpointIdentity
identity = record { deployment = "lab"; service = "cpe"; type = "cpe"; replica = pos 0 }

abbrev node : String → Node
node id = record { id = id; label = id; kind = "service" }

abbrev edge : String → String → String → Edge
edge id from to = record { id = id; from = from; to = to; label = id; blocks_following = true }

abbrev edges : List Edge
edges = edge "talaria-dns" "cpe" "dns" ∷ edge "talaria-transport" "dns" "webpa" ∷ []

abbrev observation : String → String → String → List Evidence → Observation
observation id state message evidence = record {
  edge_id = id;
  state = state;
  reason_id = "";
  remediation_id = "";
  message = message;
  evidence = evidence;
  observed_at = 7;
}

abbrev evidence : List Evidence
evidence = record { key = "http-status"; value = "200" } ∷ record { key = "env"; value = "x" } ∷ []

abbrev report : List Observation → String → Report
report os first = record {
  schema = "vcpe.dev/diagnostic/v1";
  journey = "cpe-webpa";
  source = identity;
  target = identity;
  metadata = [];
  nodes = node "cpe" ∷ node "dns" ∷ node "webpa" ∷ [];
  edges = edges;
  observations = os;
  parodus_clients = none;
  parodus_clients_truncated = none;
  webhook_registrations = none;
  talaria_devices = none;
  first_failure = first;
  observed_at = 7;
}

abbrev passed : List Observation
passed =
    observation "talaria-dns" "passed" "the token is 5" evidence
    ∷ observation "talaria-transport" "passed" "" []
    ∷ []

abbrev hidden : List Observation
hidden =
    observation "talaria-dns" "passed" "[REDACTED]"
      (record { key = "http-status"; value = "200" } ∷ [])
    ∷ observation "talaria-transport" "passed" "" []
    ∷ []

-- A message with a marker is replaced, and a key that is not allowed is dropped.
sanitize-passed : sanitize formats (report passed "") ≡ ok (report hidden "")
unfolding sanitize sanitize_evidence clean_evidence redact replace_each truncate validate_report
    bytes all_codes some_where has_part take
sanitize-passed = refl

sanitize-Clean_example : CleanReport formats (report passed "") (report hidden "")
sanitize-Clean_example = sanitize-Clean formats (report passed "") refl sanitize-passed

classify-hidden : classify formats (report hidden "") ≡ ok outcome_passed
unfolding classify validate_report bytes all_codes some_where
classify-hidden = refl

classify-passed_iff_example : (classify formats (report hidden "") ≡ ok outcome_passed) ↔ (
    (validate_report formats (report hidden "") ≡ ok tt) × All (λ o. o.state ≡ state_passed) hidden)
classify-passed_iff_example = classify-passed_iff formats (report hidden "")

abbrev failed_first : List Observation
failed_first =
    observation "talaria-dns" "failed" "" [] ∷ observation "talaria-transport" "passed" "" [] ∷ []

abbrev normal : List Observation
normal =
    observation "talaria-dns" "failed" "" []
    ∷ skipped "prerequisite-failed" (observation "talaria-transport" "passed" "" [])
    ∷ []

normal-Checked : Checked formats edges normal
unfolding check_observation bytes all_codes
normal-Checked = (refl, (refl, tt))

evaluate_failed : apply_causality 9 edges failed_first 8 ≡ ok (normal, "talaria-dns")
unfolding apply_causality
evaluate_failed = refl

apply_causality-validates_example :
    check_observations formats edges normal "" false ≡ ok "talaria-dns"
apply_causality-validates_example =
    apply_causality-validates formats 9 8 edges failed_first evaluate_failed normal-Checked
