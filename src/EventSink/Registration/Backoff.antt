-- ===== src/EventSink/Registration/Backoff.antt =====
-- services/event-sink/internal/registration/registration.go: the delays of the retries, and what the
-- state keeps of an error.
use vcpe.Common.{
  true, false, Bool, none, some, Bool-cases, inr, inl, refl, Option-cases, arith, true, zero, ◌^◌,
  Option, ltb, suc, ◌∷◌, ◌⊎◌, [], if◌then◌else◌, ◌≡◌, List, String, ℕ,
}
use vcpe.EventSink.Registration.{
  on_state, register_with_state, Attempt, next_delay, register_loop, registration_error_category,
}
use vcpe.Common.Text.{codes, all_codes}
use vcpe.EventSink.State.{is_stable_id}
use vcpe.EventSink.State

-- The attempts that fail before the first one that does not, or up to the one that is cancelled.
abbrev pub failures : List Attempt → ℕ
failures [] = 0
failures (a ∷ attempts) = elim a.error [
  | none ↦ 0
  | some text ↦ if a.cancelled then 1 else suc (failures attempts)
]

-- The wait behind attempt k, from 0: 1, 2, 4, 8 and 16 seconds, then 30.
abbrev pub backoff : ℕ → ℕ
backoff k = if ltb k 5 then 2 ^ k else 30

abbrev pub backoffs : ℕ → ℕ → List ℕ
backoffs k zero = []
backoffs k (suc n) = backoff k ∷ backoffs (suc k) n

next_delay-backoff : (k : ℕ) → next_delay (backoff k) ≡ backoff (suc k)
unfolding next_delay
next_delay-backoff zero = refl
next_delay-backoff (suc zero) = refl
next_delay-backoff (suc (suc zero)) = refl
next_delay-backoff (suc (suc (suc zero))) = refl
next_delay-backoff (suc (suc (suc (suc zero)))) = refl
next_delay-backoff (suc (suc (suc (suc (suc k))))) = ground arith

register_loop-delays :
    (to_lower : String → String) (k : ℕ) (attempts : List Attempt) (state : Option State.Store)
    → (register_loop to_lower (backoff k) attempts state).1 ≡ backoffs k (failures attempts)
unfolding register_loop
register_loop-delays to_lower k [] state = refl
register_loop-delays to_lower k (a ∷ attempts) state = elim (Option-cases a.error) [
  | inl added ↦ simp (added, register_loop)
  | inr (text, failed) ↦ elim (Bool-cases a.cancelled) [
    | inl stop ↦ simp (failed, stop, register_loop)
    | inr go ↦ simp (
      failed,
      go,
      register_loop,
      next_delay-backoff k,
      register_loop-delays to_lower (suc k) attempts,
    )
  ]
]

-- What the state may show of an error: nothing, or one of three fixed words.
abbrev pub IsCategory : String → Type 0
IsCategory c =
    (c ≡ "argus-authentication-failed")
    ⊎ ((c ≡ "argus-request-cancelled") ⊎ (c ≡ "argus-registration-failed"))

chosen-IsCategory :
    (b c : Bool)
    → IsCategory (
        if b
        then "argus-authentication-failed"
        else if c
        then "argus-request-cancelled"
        else "argus-registration-failed")
chosen-IsCategory true c = inl refl
chosen-IsCategory false true = inr (inl refl)
chosen-IsCategory false false = inr (inr refl)

registration_error_category-IsCategory :
    (to_lower : String → String) (text : String)
    → IsCategory (registration_error_category to_lower text)
unfolding registration_error_category
registration_error_category-IsCategory to_lower text = chosen-IsCategory _ _

category-is_stable_id : (c : String) → IsCategory c → is_stable_id (codes c) ≡ true
unfolding is_stable_id all_codes
category-is_stable_id c (inl h) = rw h refl
category-is_stable_id c (inr (inl h)) = rw h refl
category-is_stable_id c (inr (inr h)) = rw h refl

-- The state shows no error text.
abbrev pub IsSafe : Option State.Store → Type 0
IsSafe none = Unit
IsSafe (some store) =
    (store.snapshot.last_error_category ≡ "") ⊎ IsCategory store.snapshot.last_error_category

on_failure-IsSafe :
    (to_lower : String → String) (now : ℕ) (text : String) (state : Option State.Store)
    → IsSafe (
        on_state
          (State.record_initial_failure now now (registration_error_category to_lower text))
          state)
unfolding State.record_initial_failure State.record_failure_locked
on_failure-IsSafe to_lower now text none = tt
on_failure-IsSafe to_lower now text (some store) =
    let named = registration_error_category-IsCategory to_lower text in
    inr (rw (category-is_stable_id _ named) named)

on_success-IsSafe :
    (now : ℕ) (state : Option State.Store)
    → IsSafe (on_state (State.record_initial_success now now) state)
unfolding State.record_initial_success
on_success-IsSafe now none = tt
on_success-IsSafe now (some store) = inl refl

register_loop-IsSafe :
    (to_lower : String → String) (delay : ℕ) (attempts : List Attempt) (state : Option State.Store)
    → IsSafe state
    → IsSafe (register_loop to_lower delay attempts state).2
unfolding register_loop
register_loop-IsSafe to_lower delay [] state h = h
register_loop-IsSafe to_lower delay (a ∷ attempts) state h = elim (Option-cases a.error) [
  | inl added ↦ simp (added, register_loop) (on_success-IsSafe a.now state)
  | inr (text, failed) ↦
      let safe = on_failure-IsSafe to_lower a.now text state in
      elim (Bool-cases a.cancelled) [
        | inl stop ↦ simp (failed, stop, register_loop) safe
        | inr go ↦
            simp (failed, go, register_loop)
              (register_loop-IsSafe to_lower (next_delay delay) attempts _ safe)
      ]
]

-- RegisterWithState waits 1, 2, 4, 8 and 16 seconds and then 30 each, once for each attempt that fails
-- up to the first that does not or is cancelled.
pub register_with_state-delays :
    (to_lower : String → String) (now : ℕ) (attempts : List Attempt) (state : Option State.Store)
    → (register_with_state to_lower none now attempts state).1 ≡ backoffs 0 (failures attempts)
unfolding register_with_state
register_with_state-delays to_lower now attempts state =
    register_loop-delays to_lower 0 attempts state

-- Whatever Argus and the library answer, RegisterWithState leaves in the state no error text, only one
-- of three fixed words or nothing, if that was so before.
pub register_with_state-IsSafe :
    (to_lower : String → String) (created : Option String) (now : ℕ) (attempts : List Attempt)
    (state : Option State.Store)
    → IsSafe state
    → IsSafe (register_with_state to_lower created now attempts state).2
unfolding register_with_state
register_with_state-IsSafe to_lower none now attempts state h =
    register_loop-IsSafe to_lower 1 attempts state h
register_with_state-IsSafe to_lower (some text) now attempts state h =
    on_failure-IsSafe to_lower now text state
