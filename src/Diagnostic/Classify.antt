-- ===== src/Diagnostic/Classify.antt =====
-- controlplane/internal/diagnostic/evaluate.go: Classify.
use vcpe.Common.{
  nat_beq_iff, nat_eq, ap, ◌∙◌, inl, sym, eq_iff, inr, Bool-cases, arith, ltb, not, refl, [],
  if◌then◌else◌, string_eq, ◌||◌, false, length, true, ◌↔◌, ◌∷◌, All, ◌==◌, Bool, List, String,
  some_where, ◌≡◌,
}
use vcpe.Common.Result.{fail_if-not-ok, >>=-ok, ok-injective, >>-ok, fail_if-ok, ◌>>◌, Result, ok}
use vcpe.Diagnostic.Document.{bad_id, bad_state, max_id_length, Report, DocumentError}
use vcpe.Diagnostic.Formats.{stable_id_pattern, byte_length, Formats}
use vcpe.Diagnostic.Validate.{
  block_after, check_nodes, failure_after, check_edges, check_observation, check_observations,
  validate_report,
}
use vcpe.Diagnostic.Model.{
  state_skipped, state_failed, state_passed, state_unknown, valid_state, Edge, Observation,
}
use vcpe.Diagnostic.Fields.{validate_id}

pub data Outcome : Type 0 where
  outcome_passed : Outcome
  outcome_failed : Outcome
  outcome_inconclusive : Outcome

abbrev pub is_open : Observation → Bool
is_open o = o.state == state_unknown || o.state == state_skipped

abbrev pub outcome_of : Report → Outcome
outcome_of r =
    if not (r.first_failure == "")
    then outcome_failed
    else if some_where is_open r.observations
    then outcome_inconclusive
    else outcome_passed

-- Classify
unfoldable pub classify : Formats → Report → Result DocumentError Outcome
classify f r = validate_report f r >> ok (outcome_of r)

validate_id-ne : (name value : String) → validate_id name value ≡ ok tt → (value == "") ≡ false
unfolding validate_id
validate_id-ne name value h =
    let passed =
      fail_if-ok
        (value == "" || (ltb max_id_length (byte_length value) || not (stable_id_pattern value)))
        (bad_id name value) h in
    ground (arith, passed)

abbrev HaveIds : List Edge → Type 0
HaveIds = All (λ e. (e.id == "") ≡ false)

check_edges-HaveIds :
    (f : Formats) (nodes seen : List String) (edges : List Edge)
    → check_edges f nodes seen edges ≡ ok tt
    → HaveIds edges
unfolding check_edges
check_edges-HaveIds f nodes seen [] h = tt
check_edges-HaveIds f nodes seen (e ∷ edges) h =
    let (front, later) = >>-ok _ _ h in
    let (fourth, label) = >>-ok _ _ front in
    let (third, to) = >>-ok _ _ fourth in
    let (second, from) = >>-ok _ _ third in
    let (named, fresh) = >>-ok _ _ second in
    (validate_id-ne "edge" e.id named, check_edges-HaveIds f nodes (e.id ∷ seen) edges later)

check_observation-valid :
    (f : Formats) (e : Edge) (o : Observation)
    → check_observation f e o ≡ ok tt
    → valid_state o.state ≡ true
unfolding check_observation
check_observation-valid f e o h =
    let (seventh, evidence) = >>-ok _ _ h in
    let (sixth, few) = >>-ok _ _ seventh in
    let (fifth, message) = >>-ok _ _ sixth in
    let (fourth, remediation) = >>-ok _ _ fifth in
    let (third, reason) = >>-ok _ _ fourth in
    let (second, timed) = >>-ok _ _ third in
    let (edge, known) = >>-ok _ _ second in
    let passed = fail_if-ok (not (valid_state o.state)) (bad_state e.id o.state) known in
    ground (arith, passed)

failure_after-none :
    (o : Observation) (e : Edge) (first : String)
    → (e.id == "") ≡ false
    → failure_after o e first ≡ ""
    → (first ≡ "") × ((o.state == state_failed) ≡ false)
failure_after-none o e first named h = elim (Bool-cases (o.state == state_failed)) [
  | inr other ↦ (simp other at h, other)
  | inl failed ↦ elim (Bool-cases (first == "")) [
    | inl empty ↦ cc (sym named ∙ (eq_iff e.id "").1 (simp (failed, empty) at h))
    | inr taken ↦ cc (sym taken ∙ (eq_iff first "").1 (simp (failed, taken) at h))
  ]
]

-- A first failure that is empty stands for no failure.
check_observations-None :
    (f : Formats) (es : List Edge) (os : List Observation) (first : String) (blocked : Bool)
    → HaveIds es
    → length os ≡ length es
    → check_observations f es os first blocked ≡ ok ""
    → (first ≡ "")
      × All (λ o. (valid_state o.state ≡ true) × ((o.state == state_failed) ≡ false)) os
unfolding check_observations check_observation valid_state
check_observations-None f [] [] first blocked ids same h = (ok-injective _ _ h, tt)
check_observations-None f [] (o ∷ os) first blocked ids same h = absurd (omega (arith, same))
check_observations-None f (e ∷ es) [] first blocked ids same h = absurd (omega (arith, same))
check_observations-None f (e ∷ es) (o ∷ os) first blocked ids same h =
    let (front, later) = >>-ok _ _ h in
    let (checked, held) = >>-ok _ _ front in
    let (none_after, rest) =
      check_observations-None f es os (failure_after o e first) (block_after o e blocked) ids.1
        (omega (arith, same)) later in
    let (none_before, ran) = failure_after-none o e first ids.0 none_after in
    (none_before, ((check_observation-valid f e o checked, ran), rest))

-- What a valid report went through.
validate_report-graph :
    (f : Formats) (r : Report)
    → validate_report f r ≡ ok tt
    → (nodes : List String) × (failure : String) × (check_edges f nodes [] r.edges ≡ ok tt)
      × (length r.observations ≡ length r.edges)
      × (check_observations f r.edges r.observations "" false ≡ ok failure)
      × (r.first_failure ≡ failure)
unfolding validate_report
validate_report-graph f r h =
    let (fourth, talaria) = >>-ok _ _ h in
    let (third, causal) = >>-ok _ _ fourth in
    let (second, graph) = >>-ok _ _ third in
    let (first, metadata) = >>-ok _ _ second in
    let (zeroth, few) = >>-ok _ _ first in
    let (start, paired) = >>-ok _ _ zeroth in
    let (nodes, edges, named) = >>=-ok (check_nodes f [] r.nodes) _ graph in
    let (failure, same, checked) =
      >>=-ok (check_observations f r.edges r.observations "" false) _ causal in
    let matched = fail_if-not-ok (length r.observations == length r.edges) _ paired in
    let is = fail_if-not-ok (r.first_failure == failure) _ same in
    (
      nodes,
      failure,
      edges,
      (nat_beq_iff (length r.observations) (length r.edges)).0 matched,
      checked,
      (eq_iff r.first_failure failure).0 is,
    )

some_where-all :
    (os : List Observation)
    → All (λ o. (valid_state o.state ≡ true) × ((o.state == state_failed) ≡ false)) os
    → some_where is_open os ≡ false
    → All (λ o. o.state ≡ state_passed) os
unfolding some_where valid_state
some_where-all [] each h = tt
some_where-all (o ∷ os) (known, rest) h = (
  ground (arith, known, h, eq_iff o.state state_passed),
  some_where-all os rest (ground (arith, h)),
)

some_where-none :
    (os : List Observation) → All (λ o. o.state ≡ state_passed) os → some_where is_open os ≡ false
unfolding some_where
some_where-none [] each = refl
some_where-none (o ∷ os) (passed, rest) = rw passed (some_where-none os rest)

-- Observations that all passed leave the first failure as it is.
check_observations-passed :
    (f : Formats) (es : List Edge) (os : List Observation) (first : String) (blocked : Bool)
    {failure : String}
    → All (λ o. o.state ≡ state_passed) os
    → check_observations f es os first blocked ≡ ok failure
    → failure ≡ first
unfolding check_observations
check_observations-passed f [] os first blocked each h = sym (ok-injective _ _ h)
check_observations-passed f (e ∷ es) [] first blocked each h = sym (ok-injective _ _ h)
check_observations-passed f (e ∷ es) (o ∷ os) first blocked (passed, each) h =
    let (front, later) = >>-ok _ _ h in
    let same : failure_after o e first ≡ first = rw passed refl in
    check_observations-passed f es os (failure_after o e first) (block_after o e blocked) each later
    ∙ same

passed-all :
    (f : Formats) (r : Report)
    → validate_report f r ≡ ok tt
    → outcome_of r ≡ outcome_passed
    → All (λ o. o.state ≡ state_passed) r.observations
passed-all f r valid h = elim (Bool-cases (r.first_failure == "")) [
  | inr given ↦ cc (simp given at h)
  | inl empty ↦ elim (Bool-cases (some_where is_open r.observations)) [
    | inl open_one ↦ cc (simp (empty, open_one) at h)
    | inr settled ↦
        let (nodes, failure, edges, same, checked, is) = validate_report-graph f r valid in
        let none_failed =
          check_observations-None f r.edges r.observations "" false
            (check_edges-HaveIds f nodes [] r.edges edges) same
            (checked ∙ ap ok (sym is ∙ (eq_iff r.first_failure "").0 empty)) in
        some_where-all r.observations none_failed.1 settled
  ]
]

-- Classify says that a journey passed exactly when its result is valid and every observation of it
-- passed.
pub classify-passed_iff :
    (f : Formats) (r : Report)
    → (classify f r ≡ ok outcome_passed)
      ↔ ((validate_report f r ≡ ok tt) × All (λ o. o.state ≡ state_passed) r.observations)
unfolding classify
classify-passed_iff f r = (
  λ h.
      let (valid, settled) = >>-ok (validate_report f r) (ok (outcome_of r)) h in
      (valid, passed-all f r valid (ok-injective _ _ settled)),
  λ (valid, each).
      let (nodes, failure, edges, same, checked, is) = validate_report-graph f r valid in
      let kept = check_observations-passed f r.edges r.observations "" false each checked in
      rw (valid, is ∙ kept, some_where-none r.observations each) refl,
)
