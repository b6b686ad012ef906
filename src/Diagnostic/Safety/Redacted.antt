-- ===== src/Diagnostic/Safety/Redacted.antt =====
-- controlplane/internal/diagnostic/safety.go: what Sanitize keeps out of a result.
use vcpe.Common.Result.{ok-injective, >>-ok, ok}
use vcpe.Common.{
  subst, some, Option-cases, ap, none, length-take, All-weaken, eq_iff, refl, take, [], arith,
  if◌then◌else◌, false, ◌∷◌, string_eq, ◌||◌, ◌==◌, inr, contains, inl, All, Bool-cases, NoRepeat,
  some_where, not, true, ◌≤◌, Bool, length, map, ◌≡◌, List, String,
}
use vcpe.Diagnostic.Document.{
  max_message_length, max_invocation_text_length, WebhookRegistration, max_evidence_value_length,
  max_evidence_per_edge, Report,
}
use vcpe.Diagnostic.Safety.{
  sanitize_registration, sanitize, sanitize_observation, sanitize_webhook_patterns, sanitized,
  truncate, clean_evidence, clean_value, sanitize_evidence, sensitive_value_patterns, replace_each,
  redact, markers, mentions, redacted,
}
use vcpe.Diagnostic.Validate.{validate_report}
use vcpe.Common.Text.{has_part}
use vcpe.Diagnostic.Fields.{allowed_evidence_keys}
use vcpe.Common.Sort.{text_before, All-sort}
use vcpe.Diagnostic.Formats.{Formats}
use vcpe.Diagnostic.Model.{Evidence, Observation}

module _ (f : Formats) where
  -- A text without a marker of a secret.
  abbrev pub hides : String → Bool
  hides value = not (some_where (mentions f value) markers)

  chosen-hides :
      (clean : String)
      → f.to_lower redacted ≡ "[redacted]"
      → hides (if some_where (mentions f clean) markers then redacted else clean) ≡ true
  unfolding some_where has_part
  chosen-hides clean lower = elim (Bool-cases (some_where (mentions f clean) markers)) [
    | inl found ↦ rw (found, lower) refl
    | inr quiet ↦ rw (quiet, quiet) refl
  ]

  redact-hides :
      (value : String) → f.to_lower redacted ≡ "[redacted]" → hides (redact f value) ≡ true
  unfolding redact
  redact-hides value lower = chosen-hides (replace_each f sensitive_value_patterns value) lower

  abbrev pub keys : List Evidence → List String
  keys entries = map (λ e. e.key) entries

  -- Bounded evidence with distinct keys that are allowed, and values that hide secrets; a fingerprint is
  -- checked by its form instead.
  pub record CleanEvidence (entries : List Evidence) : Type 0 where
    pub bounded : length entries ≤ max_evidence_per_edge
    pub distinct : NoRepeat (keys entries)
    pub clean :
        All
          (λ e.
            (contains allowed_evidence_keys e.key ≡ true)
            × ((e.key == "registration-fingerprint" || hides e.value) ≡ true))
          entries

  fresh-keys :
      (key : String) (seen : List String) (entries : List Evidence)
      → All (λ e. contains (key ∷ seen) e.key ≡ false) entries
      → contains (keys entries) key ≡ false
  fresh-keys key seen [] each = refl
  fresh-keys key seen (e ∷ entries) (fresh, each) =
      ground (arith, fresh, eq_iff key e.key, eq_iff e.key key, fresh-keys key seen entries each)

  clean_value-hides :
      (e : Evidence)
      → f.to_lower redacted ≡ "[redacted]"
      → (e.key == "registration-fingerprint" || hides (clean_value f e)) ≡ true
  clean_value-hides e lower = elim (Bool-cases (e.key == "registration-fingerprint")) [
    | inl print ↦ rw print refl
    | inr other ↦ rw other (redact-hides (truncate e.value max_evidence_value_length) lower)
  ]

  -- The loop of sanitizeEvidence, from the keys that it has seen.
  record Cleaned (seen : List String) (entries cleaned : List Evidence) : Type 0 where
    shorter : length cleaned ≤ length entries
    once : NoRepeat (keys cleaned)
    each :
        All
          (λ e.
            (contains allowed_evidence_keys e.key ≡ true)
            × ((e.key == "registration-fingerprint" || hides e.value) ≡ true))
          cleaned
    unseen : All (λ e. contains seen e.key ≡ false) cleaned

  Cleaned-drop :
      (seen : List String) (e : Evidence) (entries cleaned : List Evidence)
      → Cleaned seen entries cleaned
      → Cleaned seen (e ∷ entries) cleaned
  Cleaned-drop seen e entries cleaned c = record {
    shorter = omega (arith, c.shorter);
    once = c.once;
    each = c.each;
    unseen = c.unseen;
  }

  Cleaned-keep :
      (seen : List String) (e : Evidence) (entries cleaned : List Evidence)
      → f.to_lower redacted ≡ "[redacted]"
      → contains allowed_evidence_keys e.key ≡ true
      → contains seen e.key ≡ false
      → Cleaned (e.key ∷ seen) entries cleaned
      → Cleaned seen (e ∷ entries) (record { key = e.key; value = clean_value f e } ∷ cleaned)
  Cleaned-keep seen e entries cleaned lower allowed fresh c = record {
    shorter = omega (arith, c.shorter);
    once = (fresh-keys e.key seen cleaned c.unseen, c.once);
    each = ((allowed, clean_value-hides e lower), c.each);
    unseen = (
      fresh,
      All-weaken (λ x. contains (e.key ∷ seen) x.key ≡ false) (λ x. contains seen x.key ≡ false)
          cleaned (λ x here. ground (arith, here)) c.unseen,
    );
  }

  clean_evidence-Cleaned :
      (seen : List String) (entries : List Evidence)
      → f.to_lower redacted ≡ "[redacted]"
      → Cleaned seen entries (clean_evidence f seen entries)
  unfolding clean_evidence
  clean_evidence-Cleaned seen [] lower = record {
    shorter = omega arith;
    once = tt;
    each = tt;
    unseen = tt;
  }
  clean_evidence-Cleaned seen (e ∷ entries) lower =
      let drop = Cleaned-drop seen e entries _ (clean_evidence-Cleaned seen entries lower) in
      elim (Bool-cases (contains allowed_evidence_keys e.key)) [
        | inr foreign_key ↦ rw (clean_evidence, foreign_key) drop
        | inl allowed ↦ elim (Bool-cases (contains seen e.key)) [
          | inl again ↦ rw (clean_evidence, allowed, again) drop
          | inr fresh ↦
              rw (clean_evidence, allowed, fresh)
                (Cleaned-keep seen e entries _ lower allowed fresh
                  (clean_evidence-Cleaned (e.key ∷ seen) entries lower))
        ]
      ]

  sanitize_evidence-Clean :
      (entries : List Evidence)
      → f.to_lower redacted ≡ "[redacted]"
      → CleanEvidence (sanitize_evidence f entries)
  unfolding sanitize_evidence
  sanitize_evidence-Clean entries lower =
      let c = clean_evidence-Cleaned [] (take max_evidence_per_edge entries) lower in
      record {
        bounded = omega (arith, c.shorter, length-take max_evidence_per_edge entries);
        distinct = c.once;
        clean = c.each;
      }

  All-map {ℓ κ μ} :
      {A : Type ℓ} {B : Type κ} (P : B → Type μ) (g : A → B) (xs : List A)
      → ((x : A) → P (g x))
      → All P (map g xs)
  All-map P g [] each = tt
  All-map P g (x ∷ xs) each = (each x, All-map P g xs each)

  sanitize_webhook_patterns-hides :
      (patterns : List String)
      → f.to_lower redacted ≡ "[redacted]"
      → All (λ p. hides p ≡ true) (sanitize_webhook_patterns f patterns)
  sanitize_webhook_patterns-hides patterns lower =
      All-sort text_before (λ p. hides p ≡ true) _
        (All-map (λ p. hides p ≡ true) (λ p. redact f (truncate p max_invocation_text_length))
          patterns (λ p. redact-hides (truncate p max_invocation_text_length) lower))

  abbrev pub registrations_of : Report → List WebhookRegistration
  registrations_of r = elim r.webhook_registrations [ none ↦ [] | some list ↦ list ]

  -- A result that hides secrets, keeps the limits of evidence, and says of every edge what the first one
  -- says.
  pub record CleanReport (r clean : Report) : Type 0 where
    pub valid : validate_report f clean ≡ ok tt
    pub metadata : CleanEvidence clean.metadata
    pub observations :
        All (λ o. (hides o.message ≡ true) × CleanEvidence o.evidence) clean.observations
    pub patterns :
        All
          (λ w.
            All (λ p. hides p ≡ true) w.event_filters × All (λ p. hides p ≡ true) w.device_matchers)
          (registrations_of clean)
    pub graph : (clean.nodes ≡ r.nodes) × (clean.edges ≡ r.edges)
    pub states : map (λ o. o.state) clean.observations ≡ map (λ o. o.state) r.observations
    pub failure : clean.first_failure ≡ r.first_failure

  same-states :
      (os : List Observation)
      → map (λ o. o.state) (map (sanitize_observation f) os) ≡ map (λ o. o.state) os
  same-states [] = refl
  same-states (o ∷ os) = ap (◌∷◌ o.state) (same-states os)

  clean-registrations :
      (r : Report)
      → f.to_lower redacted ≡ "[redacted]"
      → All
          (λ w.
            All (λ p. hides p ≡ true) w.event_filters × All (λ p. hides p ≡ true) w.device_matchers)
          (registrations_of (sanitized f r))
  clean-registrations r lower = elim (Option-cases r.webhook_registrations) [
    | inl absent ↦ rw absent tt
    | inr (list, given) ↦ rw given (
        All-map
          (λ w.
            All (λ p. hides p ≡ true) w.event_filters × All (λ p. hides p ≡ true) w.device_matchers)
          (sanitize_registration f) list
          (λ w. (
            sanitize_webhook_patterns-hides w.event_filters lower,
            sanitize_webhook_patterns-hides w.device_matchers lower,
          )))
  ]

  -- A result that Sanitize returns is valid; its messages, its registration patterns and its evidence
  -- other than fingerprints contain no marker of a secret; its evidence is bounded, with allowed
  -- and distinct keys; and its nodes, edges, states and first failure are those it had before.
  -- strings.ToLower is assumed to lower the text `[REDACTED]`.
  pub sanitize-Clean :
      (r : Report) {clean : Report}
      → f.to_lower redacted ≡ "[redacted]"
      → sanitize f r ≡ ok clean
      → CleanReport r clean
  unfolding sanitize
  sanitize-Clean r lower h =
      let (front, made) = >>-ok _ _ h in
      let (fits, valid) = >>-ok _ _ front in
      let cleaned : CleanReport r (sanitized f r) = record {
        valid = valid;
        metadata = sanitize_evidence-Clean r.metadata lower;
        observations =
            All-map (λ o. (hides o.message ≡ true) × CleanEvidence o.evidence)
              (sanitize_observation f) r.observations
              (λ o. (
                redact-hides (truncate o.message max_message_length) lower,
                sanitize_evidence-Clean o.evidence lower,
              ));
        patterns = clean-registrations r lower;
        graph = (refl, refl);
        states = same-states r.observations;
        failure = refl;
      } in
      subst (CleanReport r) (ok-injective _ _ made) cleaned
