-- ===== src/Diagnostic/Tests.antt =====
-- Runs of the evaluation, and its theorems at concrete data.
use vcpe.Diagnostic.Evaluate.Causality.{apply_causality_lem, causal_failure, normalized}
use vcpe.Common.{refl, true, Bool, [], ◌∷◌, ◌≡◌, List, String}
use vcpe.Common.Result.{ok}
use vcpe.Diagnostic.Model.{valid_state, Edge, Observation}
use vcpe.Diagnostic.Evaluate.{apply_causality}

abbrev edge : String → Bool → Edge
edge id stops = record { id = id; from = "cpe"; to = "webpa"; label = id; blocks_following = stops }

abbrev path : List Edge
path = edge "dns" true ∷ edge "transport" true ∷ edge "registration" true ∷ []

abbrev observation : String → String → Observation
observation id state = record {
  edge_id = id;
  state = state;
  reason_id = "";
  remediation_id = "";
  message = "";
  evidence = [];
  observed_at = 0;
}

abbrev seen : List Observation
seen =
    observation "dns" "passed"
    ∷ observation "transport" "failed"
    ∷ observation "registration" "passed"
    ∷ []

abbrev at_time : Observation → Observation
at_time o = record o { observed_at = 7 }

abbrev evaluated : List Observation
evaluated =
    at_time (observation "dns" "passed")
    ∷ at_time (observation "transport" "failed")
    ∷ record (observation "registration" "skipped") {
      reason_id = "prerequisite-failed";
      message = "not evaluated because a prerequisite was unresolved";
      observed_at = 7;
    }
    ∷ []

run : apply_causality 9 path seen 7 ≡ ok (evaluated, "transport")
unfolding apply_causality
run = refl

apply_causality_lem_example : apply_causality 9 path seen 7 ≡ ok (evaluated, "transport")
unfolding normalized causal_failure valid_state
apply_causality_lem_example =
    apply_causality_lem 9 path seen 7 (refl, (refl, (refl, tt)))
      (refl, refl, (refl, refl, (refl, refl, tt))) (refl, λ _. (refl, λ h. cc))
