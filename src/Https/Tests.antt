-- ===== src/Https/Tests.antt =====
-- Runs of the shared HTTP worker and of what decides over its answers.
use devices.Prelude.{
  ℕ, pos, ◌≡◌, ◌≤◌, refl, Bool, true, false, some, none, List, [], ◌∷◌, ◌&&◌, ◌==◌, not, length,
}
use devices.Prelude.Words.{since}
use devices.Https.Arbiter
use devices.Https.Arbiter.{
  Owner, no_owner, authorization, logs, telemetry, Waiting, byte, joined, left, may_go, attempts,
  none_of, arbiter_is_priority,
}
use devices.Https.Exchange
use devices.Https.Exchange.{Arguments, Result, zeroed, copied, is_idle, body_limit}
use devices.Https.Recovery.{payload_rejected}
use devices.Https.Worker.{Answer, submit, result, release, response, serve}
use devices.Https.Sessions.{
  Step, owner_submits, owner_releases, owner_cancels, worker_serves, run, booted, bytes_of,
  each_zero, idle_is_wiped, result_is_bounded,
}
use devices.Https.Ownership.{submission_is_exclusive}
use devices.Https.Evidence.{status, after, failed, server_accepted, state_byte, evidence_is_honest}

abbrev both : Waiting
both = record { for_authorization = true; for_logs = false; for_telemetry = true }

arbiter_is_priority_example :
    (Arbiter.request logs true (byte both) ≡ (false, byte (joined logs both)))
    × (Arbiter.cancel logs (byte both) ≡ byte (left logs both))
arbiter_is_priority_example = arbiter_is_priority logs true both

abbrev nobody : Waiting
nobody = record { for_authorization = false; for_logs = false; for_telemetry = false }

abbrev letter : List ℕ
letter = 65 ∷ []

abbrev arguments : Arguments
arguments = record {
  get = false;
  url = some letter;
  payload = some letter;
  bearer = some letter;
  access_id = some letter;
  access_secret = some letter;
}

abbrev rejection : Answer
rejection = record {
  reused = false;
  began = true;
  status = pos 422;
  not_retryable = true;
  pieces = letter ∷ [];
  streamed = true;
  last_error = pos 0;
  duration_ms = 9;
}

abbrev exchange_steps : List Step
exchange_steps =
    owner_submits telemetry arguments ∷ worker_serves rejection ∷ owner_releases telemetry ∷ []

idle_is_wiped_example :
    let w = run exchange_steps booted in
    (w.owner ≡ no_owner) × (each_zero (bytes_of w.exchange) ≡ true)
unfolding submit release serve response Exchange.submit Exchange.release Arbiter.request
    Arbiter.cancel
idle_is_wiped_example = idle_is_wiped exchange_steps refl

abbrev served : List Step
served = owner_submits telemetry arguments ∷ worker_serves rejection ∷ []

result_is_bounded_example :
    let r = response rejection zeroed in
    (length r.body.used ≤ body_limit)
    × (r.permanent_rejection && not (payload_rejected r.status) ≡ false)
unfolding submit release serve response Exchange.submit Exchange.release Arbiter.request
    Arbiter.cancel
result_is_bounded_example = result_is_bounded telemetry served (response rejection zeroed) refl

abbrev meanwhile : List Step
meanwhile =
    owner_submits logs arguments
    ∷ worker_serves rejection
    ∷ owner_releases logs
    ∷ owner_cancels telemetry
    ∷ []

submission_is_exclusive_example :
    let w = run meanwhile (submit telemetry arguments booted).1 in
    (w.owner ≡ telemetry)
    × (w.exchange.request ≡ copied arguments booted.exchange.request)
    × (result logs w ≡ none)
unfolding submit Exchange.submit Arbiter.request Arbiter.cancel
submission_is_exclusive_example =
    submission_is_exclusive telemetry logs arguments meanwhile booted refl refl refl

abbrev past : List (Bool × ℕ)
past = (false, 900) ∷ (true, 500) ∷ []

evidence_is_honest_example :
    let s = status true true true 1000 250 (after past) in
    (s.state ≡ failed)
    × ((state_byte s.state == state_byte server_accepted) ≡ false)
    × (s.age_ms ≡ since 1000 500)
evidence_is_honest_example = evidence_is_honest past true true true 1000 250
