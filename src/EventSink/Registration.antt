-- ===== src/EventSink/Registration.antt =====
-- services/event-sink/internal/registration/registration.go: the registration of the webhook with Argus,
-- and its refresh. What Argus answers, and when the context ends, is a list of events; `to_lower` is
-- strings.ToLower. The client of Argus is built by the library ancla, which may fail.
pub mod Backoff
use vcpe.Common.{
  ◌*◌, ◌+◌, ltb, none, ◌<>◌, ◌||◌, ◌∷◌, Bool, List, [], if◌then◌else◌, some, Option, String, ℕ,
}
use vcpe.Common.Text.{codes, has_part, starts_with}
use vcpe.EventSink.State

pub record Config : Type 0 where
  pub argus_url : String
  pub argus_basic_auth : String
  pub webhook_url : String
  pub events_regex : String
  pub device_matcher : String
  pub webhook_secret : String

-- The registration that is sent.
pub record Webhook : Type 0 where
  pub url : String
  pub content_type : String
  pub secret : String
  pub alternative_urls : List String
  pub events : List String
  pub device_id : List String
  pub duration : ℕ
  pub until : ℕ

-- In seconds.
abbrev pub hook_duration : ℕ
hook_duration = 43200

abbrev pub hook_until_offset : ℕ
hook_until_offset = 2592000

abbrev pub max_retry_delay : ℕ
max_retry_delay = 30

-- The Authorization header that newAnclaService sends.
unfoldable pub basic_auth : Config → String
unfolding starts_with
basic_auth cfg =
    if starts_with (codes cfg.argus_basic_auth) (codes "Basic ")
    then cfg.argus_basic_auth
    else "Basic " <> cfg.argus_basic_auth

-- buildHook
unfoldable pub build_hook : Config → ℕ → Webhook
build_hook cfg now = record {
  url = cfg.webhook_url;
  content_type = "application/json";
  secret = cfg.webhook_secret;
  alternative_urls = [];
  events = cfg.events_regex ∷ [];
  device_id = cfg.device_matcher ∷ [];
  duration = hook_duration;
  until = now + hook_until_offset;
}

-- registrationErrorCategory, for an error that is there.
unfoldable pub registration_error_category : (String → String) → String → String
unfolding has_part starts_with
registration_error_category to_lower text =
    let message = codes (to_lower text) in
    if has_part message (codes "authentication")
      || (has_part message (codes "status 401") || has_part message (codes "status 403"))
    then "argus-authentication-failed"
    else if has_part message (codes "context canceled")
        || has_part message (codes "deadline exceeded")
    then "argus-request-cancelled"
    else "argus-registration-failed"

-- One pass of the retry loop, as the world answers it: the error of Add, if any, the times at which the
-- state is written, and whether the context ends during the wait.
pub record Attempt : Type 0 where
  pub error : Option String
  pub now : ℕ
  pub cancelled : Bool

pub data Outcome : Type 0 where
  registered : Outcome
  init_failed : String → Outcome
  context_done : Outcome
  -- the events end while the loop still runs
  waiting : Outcome

-- `if state != nil { ... }`
abbrev pub on_state : (State.Store → State.Store) → Option State.Store → Option State.Store
on_state f none = none
on_state f (some store) = some (f store)

-- The next delay.
unfoldable pub next_delay : ℕ → ℕ
next_delay delay =
    if ltb delay max_retry_delay
    then (if ltb max_retry_delay (delay * 2) then max_retry_delay else delay * 2)
    else delay

-- The loop of RegisterWithState, with the delays that it waits for.
unfoldable pub register_loop :
    (String → String)
    → ℕ
    → List Attempt
    → Option State.Store
    → Outcome × List ℕ × Option State.Store
unfolding registration_error_category next_delay
register_loop to_lower delay [] state = (waiting, [], state)
register_loop to_lower delay (a ∷ attempts) state = elim a.error [
  | none ↦ (registered, [], on_state (State.record_initial_success a.now a.now) state)
  | some text ↦
      let failed =
        on_state
          (State.record_initial_failure a.now a.now (registration_error_category to_lower text))
          state in
      let rest = register_loop to_lower (next_delay delay) attempts failed in
      if a.cancelled then (context_done, delay ∷ [], failed) else (rest.0, delay ∷ rest.1, rest.2)
]

-- RegisterWithState; `created` is the error of newAnclaService, if any.
unfoldable pub register_with_state :
    (String → String)
    → Option String
    → ℕ
    → List Attempt
    → Option State.Store
    → Outcome × List ℕ × Option State.Store
unfolding register_loop
register_with_state to_lower created now attempts state = elim created [
  | some text ↦ (
    init_failed text,
    [],
    on_state (State.record_initial_failure now now (registration_error_category to_lower text))
        state,
  )
  | none ↦ register_loop to_lower 1 attempts state
]

-- The ticks of RefreshLoopWithState, each with the error of Add, if any.
unfoldable pub refresh_loop :
    (String → String) → List Attempt → Option State.Store → Option State.Store
unfolding registration_error_category
refresh_loop to_lower [] state = state
refresh_loop to_lower (a ∷ ticks) state =
    let refreshed : Option State.Store = elim a.error [
      | some text ↦
          on_state
            (State.record_refresh_failure a.now a.now a.now
              (registration_error_category to_lower text))
            state
      | none ↦ on_state (State.record_refresh_success a.now a.now) state
    ] in
    let rest = refresh_loop to_lower ticks refreshed in if a.cancelled then state else rest

-- RefreshLoopWithState
unfoldable pub refresh_loop_with_state :
    (String → String) → Option String → ℕ → List Attempt → Option State.Store → Option State.Store
unfolding refresh_loop
refresh_loop_with_state to_lower created now ticks state = elim created [
  | some text ↦
      on_state
        (State.record_refresh_failure now now now (registration_error_category to_lower text)) state
  | none ↦ refresh_loop to_lower ticks state
]
