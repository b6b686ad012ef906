-- ===== src/Diagnostic/Evaluate.antt =====
-- controlplane/internal/diagnostic/evaluate.go: ApplyCausality.
pub mod Causality
use vcpe.Common.{not, string_eq, ◌∷◌, nat_eq, [], length, ◌==◌, if◌then◌else◌, List, String, ℕ}
use vcpe.Diagnostic.Model.{
  state_unknown, state_failed, state_skipped, Observation, Edge, valid_state,
}
use vcpe.Common.Result.{◌>>=◌, err, ok, Result}

abbrev pub reason_prerequisite_failed : String
reason_prerequisite_failed = "prerequisite-failed"

abbrev pub reason_prerequisite_unknown : String
reason_prerequisite_unknown = "prerequisite-unknown"

pub data EvaluateError : Type 0 where
  count_mismatch : EvaluateError
  wrong_edge : String → String → EvaluateError
  invalid_state : String → EvaluateError
  skipped_without_prerequisite : String → EvaluateError

-- An observation behind a blocked edge.
abbrev pub skipped : String → Observation → Observation
skipped reason o = record o {
  state = state_skipped;
  reason_id = reason;
  remediation_id = "";
  message = "not evaluated because a prerequisite was unresolved";
  evidence = [];
}

-- `if observation.ObservedAt.IsZero() { observation.ObservedAt = observedAt }`
abbrev pub timed : ℕ → Observation → Observation
timed observed_at o = record o {
  observed_at = if o.observed_at == 0 then observed_at else o.observed_at;
}

-- The first failure after an observation that nothing blocked.
abbrev pub next_failure : String → Observation → String
next_failure first o =
    if o.state == state_failed then (if first == "" then o.edge_id else first) else first

-- The blocking reason after an observation that nothing blocked.
abbrev pub next_blocked : Edge → Observation → String
next_blocked e o =
    if o.state == state_failed
    then (if e.blocks_following then reason_prerequisite_failed else "")
    else if o.state == state_unknown
    then (if e.blocks_following then reason_prerequisite_unknown else "")
    else ""

-- The loop, from the first failure and the blocking reason so far.
unfoldable pub causality_loop :
    List Edge
    → List Observation
    → ℕ
    → String
    → String
    → Result EvaluateError (List Observation × String)
unfolding valid_state
causality_loop [] [] at first blocked = ok ([], first)
causality_loop [] (o ∷ os) at first blocked = err count_mismatch
causality_loop (e ∷ es) [] at first blocked = err count_mismatch
causality_loop (e ∷ es) (o ∷ os) at first blocked =
    let behind = causality_loop es os at first blocked in
    let after = causality_loop es os at (next_failure first o) (next_blocked e o) in
    if not (o.edge_id == e.id)
    then err (wrong_edge o.edge_id e.id)
    else if not (valid_state o.state)
    then err (invalid_state o.edge_id)
    else if not (blocked == "")
    then (do (rest, failure) ← behind; ok (skipped blocked (timed at o) ∷ rest, failure))
    else if o.state == state_skipped
    then err (skipped_without_prerequisite o.edge_id)
    else (do (rest, failure) ← after; ok (timed at o ∷ rest, failure))

-- ApplyCausality; `now` is the clock, read when no observation time is given.
unfoldable pub apply_causality :
    ℕ → List Edge → List Observation → ℕ → Result EvaluateError (List Observation × String)
unfolding causality_loop
apply_causality now edges observations observed_at =
    if length edges == length observations
    then causality_loop edges observations (if observed_at == 0 then now else observed_at) "" ""
    else err count_mismatch
