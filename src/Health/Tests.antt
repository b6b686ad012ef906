-- ===== src/Health/Tests.antt =====
-- A healthy gateway, and two instances that are observed.
use vcpe.Common.{
  ◌*◌, ◌≤◌, true, string_eq, arith, none, ◌==◌, if◌then◌else◌, refl, ◌↔◌, ◌⊎◌, [], length, ◌+◌, ◌∷◌,
  List, String, ℕ, ◌≡◌,
}
use vcpe.Health.Collector.Workers.{
  later, here, take, finish, close, leave, wait, steps, worker_count, Step, Reach-slots, write,
  slot_of, Pool, Reach, start,
}
use vcpe.Health.Collector.{status, Reply, Target, collect_one}
use vcpe.Health.Collector.Workers.Ends.{Reach-ends}
use vcpe.Health.Model.Accepted.{validate_iff, IsProtocol}
use vcpe.Health.Collector.Trust.{collect_one-IsTrusted, IsTrusted}
use vcpe.Health.Model.{duplicate_check, Response, validate}
use vcpe.Common.Result.{err, ok}
use vcpe.Common.Int.{pos, ℤ}

abbrev body : Response
body = record {
  schema = "vcpe.dev/health/v1";
  status = "healthy";
  observed_at = 7;
  checks = record { name = "dns"; status = "healthy"; message = "" } ∷ [];
}

abbrev same_text : String → String
same_text text = text

valid_body : validate same_text body ≡ ok tt
unfolding validate
valid_body = refl

refuses_twice :
    validate same_text (record body {
      checks =
          record { name = "dns"; status = "healthy"; message = "" }
          ∷ record { name = "dns"; status = "starting"; message = "" }
          ∷ [];
    })
    ≡ err (duplicate_check "dns")
unfolding validate
refuses_twice = refl

validate_iff_example : (validate same_text body ≡ ok tt) ↔ IsProtocol same_text body
validate_iff_example = validate_iff same_text body

abbrev target : String → ℤ → Target
target service replica = record {
  deployment = "lab";
  service = service;
  replica = replica;
  host = "127.0.0.1";
  port = pos 47000;
}

abbrev reply : Target → Reply
reply t = if t.service == "gateway" then status 200 (ok body) else status 503 (err "starting")

abbrev targets : List Target
targets = target "webpa" (pos 0) ∷ target "gateway" (pos 1) ∷ target "gateway" (pos 0) ∷ []

observes : (collect_one same_text reply 9 (target "gateway" (pos 0))).state ≡ "healthy"
unfolding collect_one validate
observes = refl

collect_one-IsTrusted_example :
    ((collect_one same_text reply 9 (target "webpa" (pos 0))).target ≡ target "webpa" (pos 0))
    × IsTrusted same_text reply 9
        (target "webpa" (pos 0))
        (collect_one same_text reply 9 (target "webpa" (pos 0)))
collect_one-IsTrusted_example = collect_one-IsTrusted same_text reply 9 (target "webpa" (pos 0))

-- Two workers, of which the second is the first to be done.
abbrev double : ℕ → ℕ
double n = n + n

abbrev inputs : List ℕ
inputs = 3 ∷ 4 ∷ []

abbrev finished : Pool double inputs 4
finished = record {
  next = 2;
  closed = true;
  held = [];
  exited = 2;
  returned = true;
  slots = write double inputs 4 0 (write double inputs 4 1 (λ i. none));
}

-- Both workers take a target, the second is done first, and both leave.
crossed : Reach double inputs 4 (start double inputs 4) finished
unfolding worker_count
crossed =
    later
      (later
        (later
          (later
            (later
              (later
                (later (later here (take refl (omega arith) (omega arith)))
                  (take refl (omega arith) (omega arith)))
                (finish [] (0 ∷ []) 1 refl))
              (finish [] [] 0 refl))
            (close refl refl))
          (leave refl (omega arith)))
        (leave refl (omega arith)))
      (wait refl refl refl)

Reach-slots_example : finished.slots 1 ≡ slot_of double inputs 1
Reach-slots_example = Reach-slots double inputs 4 crossed refl refl 1 (omega arith)

Reach-ends_example :
    (((finished.returned ≡ true) × (finished.next ≡ length inputs) × (finished.held ≡ []))
      ⊎ ((q : Pool double inputs 4) × Step double inputs 4 finished q))
    × (steps double inputs 4 crossed ≤ 2 * length inputs + worker_count 4 (length inputs) + 2)
Reach-ends_example = Reach-ends double inputs 4 crossed (omega arith)
