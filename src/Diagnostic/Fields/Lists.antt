-- ===== src/Diagnostic/Fields/Lists.antt =====
-- controlplane/internal/diagnostic/model.go: the lists that single journeys carry, each bounded and sorted.
use vcpe.Diagnostic.Document.{
  max_talaria_devices, max_webhook_registrations, max_parodus_clients, too_many, missing, only_for,
  invalid, max_invocation_text_length, max_webhook_registration_filters, not_sorted,
  journey_argus_webhooks, journey_parodus_clients, journey_talaria_devices, WebhookRegistration,
  TalariaDevice,
}
use vcpe.Common.{
  nat_eq, [], length, some_where, ◌&&◌, ltb, string_eq, ◌∷◌, if◌then◌else◌, not, ◌==◌, some, List,
  false, none, true, ◌||◌, Bool, Option, String,
}
use vcpe.Diagnostic.Fields.{
  when_some, has_value, Check, validate_invocation_text, validate_text, validate_client_service,
}
use vcpe.Diagnostic.Model.{state_passed, Observation}
use vcpe.Common.Result.{◌>>◌, fail_if, ok}
use vcpe.Diagnostic.Formats.{
  registration_id_pattern, device_identity_pattern, normalize_callback_identity, Formats,
}
use vcpe.Common.Int.{ltb_ℤ, pos, ℤ}
use vcpe.Common.Sort.{text_before}

-- `index > 0 && values[index-1] > value`, and `>=`
abbrev pub behind_last : Option String → String → Bool
behind_last none value = false
behind_last (some previous) value = text_before value previous

abbrev pub not_before : Option String → String → Bool
not_before none value = false
not_before (some previous) value = not (text_before previous value)

unfoldable pub check_clients : Option String → List String → Check
unfolding validate_client_service
check_clients previous [] = ok tt
check_clients previous (client ∷ clients) =
    validate_client_service client
    >> fail_if (behind_last previous client) (not_sorted "Parodus client list")
    >> check_clients (some client) clients

-- validateParodusClientList
unfoldable pub validate_parodus_client_list : String → Option (List String) → Option Bool → Check
unfolding check_clients
validate_parodus_client_list journey clients truncated =
    if not (journey == journey_parodus_clients)
    then fail_if (has_value clients || has_value truncated) (only_for journey_parodus_clients)
    else elim clients [
      | none ↦ fail_if (has_value truncated) (missing "Parodus client list")
      | some list ↦
          fail_if (not (has_value truncated)) (missing "Parodus truncation state")
          >> fail_if (ltb max_parodus_clients (length list))
              (too_many "Parodus client list" (length list))
          >> check_clients none list
    ]

-- An int64 that is negative.
abbrev pub is_negative : ℤ → Bool
is_negative n = ltb_ℤ n (pos 0)

-- TalariaDevice.validate; the counters are tested in no fixed order.
abbrev pub negative_counter : TalariaDevice → Bool
negative_counter d =
    is_negative d.pending
    || (is_negative d.bytes_sent
        || (is_negative d.messages_sent
            || (is_negative d.bytes_received
                || (is_negative d.messages_received || is_negative d.duplications))))

module _ (f : Formats) where
  unfoldable pub check_patterns : String → Option String → List String → Check
  unfolding validate_text
  check_patterns name previous [] = ok tt
  check_patterns name previous (value ∷ values) =
      validate_text f name value max_invocation_text_length true
      >> fail_if (behind_last previous value) (not_sorted name)
      >> check_patterns name (some value) values

  -- validateWebhookPatterns
  unfoldable pub validate_webhook_patterns : String → List String → Check
  unfolding check_patterns
  validate_webhook_patterns name values =
      fail_if (ltb max_webhook_registration_filters (length values)) (too_many name (length values))
      >> check_patterns name none values

  -- `err != nil || mediaType == ""`
  abbrev pub is_media_type : String → Bool
  is_media_type text = elim (f.media_type text) [ none ↦ false | some media ↦ not (media == "") ]

  abbrev pub is_identity : String → Bool
  is_identity url = elim (normalize_callback_identity f url) [
    | none ↦ false
    | some normal ↦ normal == url
  ]

  abbrev pub is_ttl : Option ℤ → Bool
  is_ttl none = true
  is_ttl (some ttl) = not (is_negative ttl)

  -- WebhookRegistration.validate
  unfoldable pub validate_registration : WebhookRegistration → Check
  unfolding normalize_callback_identity validate_webhook_patterns
  validate_registration r =
      fail_if (not (registration_id_pattern r.fingerprint)) (invalid "fingerprint")
      >> fail_if (not (is_identity r.callback_url)) (invalid "callback URL")
      >> validate_webhook_patterns "event filter" r.event_filters
      >> validate_webhook_patterns "device matcher" r.device_matchers
      >> fail_if (not (is_media_type r.content_type)) (invalid "content type")
      >> fail_if (r.until == 0) (missing "expiry time")
      >> fail_if (not (is_ttl r.ttl_seconds)) (invalid "TTL seconds")

  unfoldable pub check_registrations : Option String → List WebhookRegistration → Check
  unfolding validate_registration
  check_registrations previous [] = ok tt
  check_registrations previous (r ∷ registrations) =
      validate_registration r
      >> fail_if (not_before previous r.fingerprint) (not_sorted "webhook registration list")
      >> check_registrations (some r.fingerprint) registrations

  -- validateWebhookRegistrationList
  unfoldable pub validate_webhook_registration_list :
      String → Option (List WebhookRegistration) → Check
  unfolding check_registrations
  validate_webhook_registration_list journey registrations =
      if not (journey == journey_argus_webhooks)
      then fail_if (has_value registrations) (only_for journey_argus_webhooks)
      else when_some
          (λ list.
            fail_if (ltb max_webhook_registrations (length list))
              (too_many "webhook registration list" (length list))
            >> check_registrations none list)
          registrations

  abbrev pub is_uptime : String → Bool
  is_uptime text = elim (f.parse_duration text) [ none ↦ false | some d ↦ not (is_negative d) ]

  -- TalariaDevice.validate
  unfoldable pub validate_device : TalariaDevice → Check
  unfolding validate_invocation_text
  validate_device d =
      validate_invocation_text "device ID" d.id device_identity_pattern
      >> fail_if (negative_counter d) (invalid "device counter")
      >> fail_if (d.connected_at == 0) (missing "connection time")
      >> fail_if (not (is_uptime d.uptime)) (invalid "uptime")

  unfoldable pub check_devices : Option String → List TalariaDevice → Check
  unfolding validate_device
  check_devices previous [] = ok tt
  check_devices previous (d ∷ devices) =
      validate_device d
      >> fail_if (not_before previous d.id) (not_sorted "Talaria device inventory")
      >> check_devices (some d.id) devices

  -- validateTalariaDeviceList
  unfoldable pub validate_talaria_device_list : String → Option (List TalariaDevice) → Check
  unfolding check_devices
  validate_talaria_device_list journey devices =
      if not (journey == journey_talaria_devices)
      then fail_if (has_value devices) (only_for journey_talaria_devices)
      else when_some
          (λ list.
            fail_if (ltb max_talaria_devices (length list))
              (too_many "Talaria device inventory" (length list))
            >> check_devices none list)
          devices

-- validateTalariaDeviceCollection
unfoldable pub validate_talaria_device_collection :
    String → Option (List TalariaDevice) → List Observation → Check
validate_talaria_device_collection journey devices observations =
    fail_if
      (journey == journey_talaria_devices
        && (not (has_value devices)
            && some_where (λ o. o.edge_id == "talaria-device-inventory" && o.state == state_passed)
                observations))
      (missing "Talaria device list")
