-- ===== src/Health/Collector/Trust.antt =====
-- controlplane/internal/health/collector.go: when an observation reports a state.
use vcpe.Common.{
  arith, nat_eq, ap, ◌∙◌, nat_beq_iff, refl, ◌==◌, inl, some, inr, true, Bool-cases, none, ◌≡◌, ℕ,
  String,
}
use vcpe.Health.Model.Accepted.{validate_iff, IsProtocol}
use vcpe.Health.Collector.{
  not_valid, bad_code, not_decoded, not_sent, request_failed, status, not_built, build_failed,
  invalid_endpoint, CollectError, is_loopback, observe, Observation, collect_one, receive, Reply,
  Target,
}
use vcpe.Health.Model.{validate, Response}
use vcpe.Common.Result.{Result-cases, err, ok}

module _ (trim_space : String → String) (reply : Target → Reply) (now : ℕ) where
  -- Unknown with an error and no response; or the state of a valid response with HTTP status 200 from a
  -- loopback endpoint.
  pub data IsTrusted (t : Target) (o : Observation) : Type 0 where
    nothing :
        o.state ≡ "unknown"
        → o.response ≡ none
        → (e : CollectError) → o.error ≡ some e
        → IsTrusted t o
    reported :
        (body : Response)
        → is_loopback trim_space reply now t ≡ true
        → reply t ≡ status 200 (ok body)
        → IsProtocol trim_space body
        → o.state ≡ body.status
        → o.response ≡ some body
        → o.error ≡ none
        → IsTrusted t o

  receive-IsTrusted :
      (t : Target) (r : Reply)
      → is_loopback trim_space reply now t ≡ true
      → reply t ≡ r
      → IsTrusted t (receive trim_space reply now t r)
  unfolding receive observe
  receive-IsTrusted t (build_failed text) local e = nothing refl refl (not_built text) refl
  receive-IsTrusted t (request_failed text) local e = nothing refl refl (not_sent text) refl
  receive-IsTrusted t (status code (err text)) local e = elim (Bool-cases (code == 200)) [
    | inl fine ↦ rw fine (nothing refl refl (not_decoded text) refl)
    | inr bad ↦ rw bad (nothing refl refl (bad_code code) refl)
  ]
  receive-IsTrusted t (status code (ok body)) local e = elim (Bool-cases (code == 200)) [
    | inr bad ↦ rw bad (nothing refl refl (bad_code code) refl)
    | inl fine ↦ elim (Result-cases (validate trim_space body)) [
      | inl (problem, invalid) ↦
          rw (fine, observe, invalid) (nothing refl refl (not_valid problem) refl)
      | inr (done, valid) ↦
          let same : (code ≡ 200) = (nat_beq_iff code 200).0 fine in
          rw (fine, observe, valid)
            (reported body local (e ∙ ap (λ (n : ℕ). status n (ok body)) same)
              ((validate_iff trim_space body).0 valid) refl refl refl)
    ]
  ]

  receive-target : (t : Target) (r : Reply) → (receive trim_space reply now t r).target ≡ t
  unfolding receive observe
  receive-target t (build_failed text) = refl
  receive-target t (request_failed text) = refl
  receive-target t (status code (err text)) = ground arith
  receive-target t (status code (ok body)) = ground arith

  -- Every observation is about its target; it is unknown with an error, or it reports the status of a
  -- response that the target's loopback endpoint sent with HTTP status 200 and that is valid.
  pub collect_one-IsTrusted :
      (t : Target)
      → ((collect_one trim_space reply now t).target ≡ t)
        × IsTrusted t (collect_one trim_space reply now t)
  unfolding collect_one
  collect_one-IsTrusted t = elim (Bool-cases (is_loopback trim_space reply now t)) [
    | inr far ↦ rw (far, collect_one) (refl, nothing refl refl invalid_endpoint refl)
    | inl local ↦
        rw (local, collect_one)
          (receive-target t (reply t), receive-IsTrusted t (reply t) local refl)
  ]
