-- ===== src/Diagnostic/Invocation.antt =====
-- controlplane/internal/diagnostic: Invocation.ValidateFor of model.go, WebhookSubscriberIntent.Validate and
-- ValidateRepresentativeSelection of webhook.go, and Receipt.validate of client.go.
use vcpe.Diagnostic.Fields.{
  validate_optional_id, validate_text, is_status, validate_correlation_id, validate_id,
  validate_client_service, when_some, has_value, validate_invocation_text, Check,
}
use vcpe.Diagnostic.Document.{
  max_invocation_text_length, not_allowed, journey_talaria_devices, max_callback_url_length,
  journey_argus_webhooks, journey_parodus_clients, unsupported_journey, webhook_active_caduceus,
  journey_cpe_webpa_callback, journey_webhook_subscriber, webhook_active_direct, missing,
  unsupported_schema, invalid, journey_cpe_webpa, journey_webhook, schema_version, only_for,
  Invocation, WebhookSubscriberIntent,
}
use vcpe.Diagnostic.Formats.{
  normalize_callback_identity, byte_length, device_identity_pattern, event_destination_pattern,
  Formats,
}
use vcpe.Common.{
  nat_eq, ltb, [], true, string_eq, ◌&&◌, ◌∷◌, false, some, ◌==◌, List, if◌then◌else◌, none, not,
  ◌||◌, Bool, Option, ℕ, String,
}
use vcpe.Common.Result.{◌>>◌, err, fail_if}
use vcpe.Common.Int.{ℤ}

pub record Receipt : Type 0 where
  pub schema : String
  pub correlation_id : String
  pub source : String
  pub accepted_at : ℕ
  pub http_status : ℤ

-- Receipt.validate
unfoldable pub validate_receipt : String → Receipt → Check
validate_receipt correlation_id r =
    fail_if (not (r.schema == schema_version)) (unsupported_schema r.schema)
    >> fail_if (not (r.correlation_id == correlation_id)) (invalid "correlation ID")
    >> validate_correlation_id r.correlation_id
    >> validate_id "receipt source" r.source
    >> fail_if
        (not (r.source == webhook_active_direct) && not (r.source == webhook_active_caduceus))
        (invalid "receipt source")
    >> fail_if (r.accepted_at == 0) (missing "receipt accepted time")
    >> fail_if (not (is_status (some r.http_status))) (invalid "receipt HTTP status")

-- A field other than the client service and the subscriber.
abbrev pub has_webhook_fields : Invocation → Bool
has_webhook_fields i =
    i.allow_active_callback || (has_value i.subscriber_intent || not (i.active_phase == ""))

abbrev pub has_event_fields : Invocation → Bool
has_event_fields i =
    i.allow_active_event
    || (not (i.event == "") || (not (i.device_id == "") || not (i.correlation_id == "")))

-- No journey but the one for the client service takes it alone.
abbrev pub has_fields : Invocation → Bool
has_fields i =
    not (i.client_service == "")
    || (not (i.subscriber == "") || (has_webhook_fields i || has_event_fields i))

module _ (f : Formats) where
  -- A callback URL without user, query or fragment.
  abbrev pub is_plain_url : String → Bool
  is_plain_url text = elim (f.parse_url text) [
    | none ↦ false
    | some u ↦ not (has_value u.user) && (u.raw_query == "" && u.fragment == "")
  ]

  -- WebhookSubscriberIntent.Validate
  unfoldable pub validate_intent : WebhookSubscriberIntent → Check
  validate_intent i =
      fail_if (not (i.schema == schema_version)) (unsupported_schema i.schema)
      >> fail_if (not (i.journey == journey_webhook_subscriber)) (unsupported_journey i.journey)
      >> fail_if (i.observed_at == 0) (missing "subscriber intent observation time")
      >> fail_if (i.callback_url == "" || ltb max_callback_url_length (byte_length i.callback_url))
          (invalid "subscriber callback URL")
      >> fail_if (not (is_plain_url i.callback_url)) (invalid "subscriber callback URL")
      >> fail_if (not (has_value (normalize_callback_identity f i.callback_url)))
          (invalid "subscriber callback URL")
      >> validate_text f "subscriber event filter" i.event_filter max_invocation_text_length true
      >> validate_text f "subscriber device matcher" i.device_matcher max_invocation_text_length
          true
      >> fail_if
          (not (has_value (f.media_type i.content_type)) || f.trim_space i.content_type == "")
          (invalid "subscriber content type")
      >> validate_optional_id "subscriber last error category" i.last_error_category

  -- The part of the webhook journey behind its consent.
  abbrev pub validate_active_callback : Invocation → Check
  validate_active_callback i =
      validate_invocation_text "event" i.event event_destination_pattern
      >> validate_invocation_text "device identity" i.device_id device_identity_pattern
      >> fail_if
          (not (i.active_phase == "")
            && (not (i.active_phase == webhook_active_direct)
                && not (i.active_phase == webhook_active_caduceus)))
          (invalid "active webhook phase")
      >> fail_if (has_value i.subscriber_intent && i.active_phase == "")
          (missing "active webhook phase")

  abbrev pub validate_webhook : Invocation → Check
  validate_webhook i =
      fail_if
        (not (i.client_service == "")
          || (not (i.subscriber == "") || (i.allow_active_event || not (i.correlation_id == ""))))
        (only_for journey_cpe_webpa)
      >> when_some validate_intent i.subscriber_intent
      >> (if not i.allow_active_callback
          then fail_if
              (not (i.event == "") || (not (i.device_id == "") || not (i.active_phase == "")))
              (missing "active callback consent")
          else validate_active_callback i)

  abbrev pub validate_cpe_callback : Invocation → Check
  validate_cpe_callback i =
      fail_if (has_webhook_fields i) (only_for journey_webhook)
      >> fail_if (not i.allow_active_event) (missing "active event consent")
      >> validate_client_service i.client_service
      >> validate_id "subscriber" i.subscriber
      >> validate_invocation_text "event" i.event event_destination_pattern
      >> validate_invocation_text "device identity" i.device_id device_identity_pattern
      >> validate_correlation_id i.correlation_id

  -- Invocation.ValidateFor
  unfoldable pub validate_for : String → Invocation → Check
  validate_for journey i =
      if journey == journey_cpe_webpa
      then fail_if (not (i.subscriber == "") || (has_webhook_fields i || has_event_fields i))
          (only_for journey_webhook)
        >> validate_client_service i.client_service
      else if journey == journey_webhook
      then validate_webhook i
      else if journey == journey_cpe_webpa_callback
      then validate_cpe_callback i
      else if journey == journey_parodus_clients
          || (journey == journey_argus_webhooks || journey == journey_talaria_devices)
      then fail_if (has_fields i) (not_allowed "invocation fields")
      else err (unsupported_journey journey)

-- matchesWebhookRegex; `regex` compiles a pattern and matches a value, or fails.
unfoldable pub matches_webhook_regex :
    (String → String → Option Bool) → List String → String → Option Bool
matches_webhook_regex regex [] value = some false
matches_webhook_regex regex (pattern ∷ patterns) value =
    let rest = matches_webhook_regex regex patterns value in
    elim (regex pattern value) [ none ↦ none | some matched ↦ if matched then some true else rest ]

-- ValidateRepresentativeSelection, of filters and matchers.
unfoldable pub validate_representative_selection :
    (String → String → Option Bool) → List String → List String → String → String → Check
validate_representative_selection regex filters matchers event device =
    elim (matches_webhook_regex regex filters event) [
      | none ↦ err (invalid "event filter")
      | some event_matches ↦
          fail_if (not event_matches) (invalid "event")
          >> elim (matches_webhook_regex regex matchers device) [
            | none ↦ err (invalid "device matcher")
            | some device_matches ↦ fail_if (not device_matches) (invalid "device")
          ]
    ]
