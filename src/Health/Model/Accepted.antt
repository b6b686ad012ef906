-- ===== src/Health/Model/Accepted.antt =====
-- controlplane/internal/health/model.go: exactly which responses are valid.
use vcpe.Common.{
  nat_eq, All-weaken, not, eq_iff, arith, ltb, length, refl, string_eq, ◌≢◌, ◌≤◌, [], map, true,
  NoRepeat, ◌↔◌, ◌∷◌, contains, false, All, ◌==◌, ◌≡◌, List, String,
}
use vcpe.Health.Model.{
  no_check_name, no_observation_time, duplicate_check, too_many_checks, invalid_status,
  message_too_long, invalid_check_status, unsupported_schema, max_checks, max_message_length,
  valid_status, schema_version, Check, Response, validate, validate_checks,
}
use vcpe.Common.Result.{fail_if-ok, >>-ok, ok}
use Prim.Native.String.{len}

pub record CheckFits (trim_space : String → String) (c : Check) : Type 0 where
  pub named : (trim_space c.name == "") ≡ false
  pub status : valid_status c.status ≡ true
  pub short : len c.message ≤ max_message_length

-- The conditions that the protocol states.
pub record IsProtocol (trim_space : String → String) (r : Response) : Type 0 where
  pub schema : r.schema ≡ schema_version
  pub status : valid_status r.status ≡ true
  pub observed : r.observed_at ≢ 0
  pub few : length r.checks ≤ max_checks
  pub distinct : NoRepeat (map (λ (c : Check). c.name) r.checks)
  pub checks : All (CheckFits trim_space) r.checks

names-absent :
    (name : String) (checks : List Check)
    → All (λ (c : Check). (name == c.name) ≡ false) checks
    → contains (map (λ (c : Check). c.name) checks) name ≡ false
names-absent name [] h = refl
names-absent name (c ∷ checks) h =
    ground (arith, names-absent name checks h.1, h.0, eq_iff name c.name, eq_iff c.name name)

absent-names :
    (name : String) (checks : List Check)
    → contains (map (λ (c : Check). c.name) checks) name ≡ false
    → All (λ (c : Check). (name == c.name) ≡ false) checks
absent-names name [] h = tt
absent-names name (c ∷ checks) h = (
  ground (arith, h, eq_iff name c.name, eq_iff c.name name),
  absent-names name checks (ground (arith, h)),
)

both-absent :
    (name : String) (seen : List String) (checks : List Check)
    → All (λ (c : Check). contains seen c.name ≡ false) checks
    → All (λ (c : Check). (name == c.name) ≡ false) checks
    → All (λ (c : Check). contains (name ∷ seen) c.name ≡ false) checks
both-absent name seen [] h k = tt
both-absent name seen (c ∷ checks) h k =
    (ground (arith, h.0, k.0), both-absent name seen checks h.1 k.1)

no_names : (checks : List Check) → All (λ (c : Check). contains [] c.name ≡ false) checks
no_names [] = tt
no_names (c ∷ checks) = (refl, no_names checks)

module _ (trim_space : String → String) where
  -- What the loop checks of the rest, behind the names that were met.
  abbrev Rest : List String → List Check → Type 0
  Rest seen checks =
      All (λ (c : Check). contains seen c.name ≡ false) checks
      × NoRepeat (map (λ (c : Check). c.name) checks)
      × All (CheckFits trim_space) checks

  validate_checks-ok :
      (seen : List String) (checks : List Check)
      → validate_checks trim_space seen checks ≡ ok tt
      → Rest seen checks
  unfolding validate_checks
  validate_checks-ok seen [] h = (tt, tt, tt)
  validate_checks-ok seen (c ∷ checks) h =
      let (front, later) = >>-ok _ _ h in
      let (third, short) = >>-ok _ _ front in
      let (second, known) = >>-ok _ _ third in
      let (named, new) = >>-ok _ _ second in
      let (fresh, distinct, fit) = validate_checks-ok (c.name ∷ seen) checks later in
      let status =
        fail_if-ok (not (valid_status c.status)) (invalid_check_status c.name c.status) known in
      let size =
        fail_if-ok (ltb max_message_length (len c.message)) (message_too_long c.name) short in
      (
        (
          fail_if-ok (contains seen c.name) (duplicate_check c.name) new,
          All-weaken _ _ checks (λ d f. ground (arith, f)) fresh,
        ),
        (
          names-absent c.name checks (All-weaken _ _ checks (λ d f. ground (arith, f)) fresh),
          distinct,
        ),
        (
          record {
            named = fail_if-ok (trim_space c.name == "") no_check_name named;
            status = ground (arith, status);
            short = ground (arith, size);
          },
          fit,
        ),
      )

  ok-validate_checks :
      (seen : List String) (checks : List Check)
      → Rest seen checks
      → validate_checks trim_space seen checks ≡ ok tt
  unfolding validate_checks
  ok-validate_checks seen [] h = refl
  ok-validate_checks seen (c ∷ checks) h =
      let (fresh, distinct, fit) = h in
      let size : ltb max_message_length (len c.message) ≡ false = ground (arith, fit.0.short) in
      simp (fit.0.named, fresh.0, fit.0.status, size)
        (ok-validate_checks (c.name ∷ seen) checks (
          both-absent c.name seen checks fresh.1 (absent-names c.name checks distinct.0),
          distinct.1,
          fit.1,
        ))

  -- A response is valid exactly when it has the version, a known status, an observation time and at
  -- most 64 checks with distinct names that are not blank, known statuses and messages of at most 256
  -- bytes.
  pub validate_iff : (r : Response) → (validate trim_space r ≡ ok tt) ↔ IsProtocol trim_space r
  unfolding validate
  validate_iff r = (
    λ h.
        let (front, checks) = >>-ok _ _ h in
        let (third, few) = >>-ok _ _ front in
        let (second, timed) = >>-ok _ _ third in
        let (version, status) = >>-ok _ _ second in
        let rest = validate_checks-ok [] r.checks checks in
        let versioned =
          fail_if-ok (not (r.schema == schema_version)) (unsupported_schema r.schema) version in
        let known = fail_if-ok (not (valid_status r.status)) (invalid_status r.status) status in
        let bounded =
          fail_if-ok (ltb max_checks (length r.checks)) (too_many_checks (length r.checks)) few in
        let at_time = fail_if-ok (r.observed_at == 0) no_observation_time timed in
        record {
          schema = ground (arith, versioned, eq_iff r.schema schema_version);
          status = ground (arith, known);
          observed = λ zero_time. ground (arith, at_time, zero_time);
          few = ground (arith, bounded);
          distinct = rest.1;
          checks = rest.2;
        },
    λ p.
        let version : (r.schema == schema_version) ≡ true =
          ground (arith, p.schema, eq_iff r.schema schema_version) in
        let timed : (r.observed_at == 0) ≡ false = ground (arith, p.observed) in
        let bounded : ltb max_checks (length r.checks) ≡ false = ground (arith, p.few) in
        simp (version, p.status, timed, bounded)
          (ok-validate_checks [] r.checks (no_names r.checks, p.distinct, p.checks)),
  )
