-- ===== src/Https/Sessions.antt =====
-- Interleavings of the owners' calls and the worker's turns over the exchange of
-- logger/firmware/src/HttpsWorker.cpp.
use devices.Prelude.{
  ℕ, ◌-◌, ◌≤◌, ◌≡◌, refl, true, false, some, List, [], ◌∷◌, ◌++◌, length, drop, Bool, ◌&&◌, not,
  ltb, ◌==◌, arith, length-append, if◌then◌else◌,
}
use devices.Https.Arbiter.{Owner, no_owner}
use devices.Https.Exchange
use devices.Https.Exchange.{
  HttpsExchange, Request, Result, Buffer, memory, terminated, Arguments, body_limit, all_fit,
  is_idle, is_complete, is_requested, fresh, copied, idle,
}
use devices.Https.Recovery.{payload_rejected}
use devices.Https.Worker.{
  HttpsWorker, Answer, same_owner, submit, result, release, cancel_pending, response, serve, sink,
}

pub data Step : Type 0 where
  owner_submits : Owner → Arguments → Step
  owner_releases owner_cancels : Owner → Step
  worker_serves : Answer → Step

abbrev pub step : Step → HttpsWorker → HttpsWorker
step (owner_submits owner a) w = (submit owner a w).1
step (owner_releases owner) w = release owner w
step (owner_cancels owner) w = cancel_pending owner w
step (worker_serves a) w = serve a w

abbrev pub run : List Step → HttpsWorker → HttpsWorker
run [] w = w
run (s ∷ steps) w = run steps (step s w)

abbrev pub booted : HttpsWorker
booted = record { exchange = fresh; has_task = true; owner = no_owner; pending = 0 }

-- The bytes of all six buffers.
abbrev pub bytes_of : HttpsExchange → List ℕ
bytes_of x =
    memory x.request.url
    ++ (memory x.request.payload
        ++ (memory x.request.bearer
            ++ (memory x.request.access_id
                ++ (memory x.request.access_secret ++ memory x.result.body))))

abbrev pub each_zero : List ℕ → Bool
each_zero [] = true
each_zero (b ∷ bs) = (b == 0) && each_zero bs

-- What every reachable state of the worker keeps.
pub record IsWorker (w : HttpsWorker) : Type 0 where
  pub unowned : is_idle w.exchange.state ≡ true → w.owner ≡ no_owner
  pub no_bytes : is_idle w.exchange.state ≡ true → each_zero (bytes_of w.exchange) ≡ true
  pub owned : is_idle w.exchange.state ≡ false → same_owner w.owner no_owner ≡ false
  pub bounded : length w.exchange.result.body.used ≤ body_limit
  pub justified :
      is_complete w.exchange.state ≡ true
      → w.exchange.result.permanent_rejection ≡ true
      → payload_rejected w.exchange.result.status ≡ true

sink-bounded :
    (pieces : List (List ℕ)) (buffer : Buffer)
    → length buffer.used ≤ body_limit
    → length (sink pieces buffer).used ≤ body_limit
sink-bounded [] buffer h = h
sink-bounded (piece ∷ pieces) buffer h =
    let next : Buffer =
      if ltb (body_limit - length buffer.used) (length piece)
      then buffer
      else record { used = buffer.used ++ piece; rest = drop (length piece) buffer.rest } in
    sink-bounded pieces next (ground (arith, length-append buffer.used piece))

response-bounded : (a : Answer) (b : Buffer) → length (response a b).body.used ≤ body_limit
unfolding response
response-bounded a b = ground (arith, sink-bounded a.pieces (terminated b))

response-justified :
    (a : Answer) (b : Buffer)
    → (response a b).permanent_rejection ≡ true
    → payload_rejected (response a b).status ≡ true
unfolding response
response-justified a b h = ground arith

submit-IsWorker :
    (owner : Owner) (a : Arguments) (w : HttpsWorker) → IsWorker w → IsWorker (submit owner a w).1
unfolding submit Exchange.submit
submit-IsWorker owner a w h = ground arith

release-IsWorker : (owner : Owner) (w : HttpsWorker) → IsWorker w → IsWorker (release owner w)
unfolding release Exchange.release
release-IsWorker owner w h = ground arith

serve-IsWorker : (a : Answer) (w : HttpsWorker) → IsWorker w → IsWorker (serve a w)
unfolding serve
serve-IsWorker a w h =
    let b = w.exchange.result.body in ground (arith, response-bounded a b, response-justified a b)

step-IsWorker : (s : Step) (w : HttpsWorker) → IsWorker w → IsWorker (step s w)
step-IsWorker (owner_submits owner a) w h = submit-IsWorker owner a w h
step-IsWorker (owner_releases owner) w h = release-IsWorker owner w h
step-IsWorker (owner_cancels owner) w h = ground arith
step-IsWorker (worker_serves a) w h = serve-IsWorker a w h

pub run-IsWorker : (steps : List Step) (w : HttpsWorker) → IsWorker w → IsWorker (run steps w)
run-IsWorker [] w h = h
run-IsWorker (s ∷ steps) w h = run-IsWorker steps (step s w) (step-IsWorker s w h)

booted-IsWorker : IsWorker booted
booted-IsWorker = record {
  unowned = λ h. refl;
  no_bytes = λ h. refl;
  owned = λ h. absurd (ground arith);
  bounded = omega arith;
  justified = λ h. absurd (ground arith);
}

-- Whenever the exchange is idle, after any interleaving of submissions, releases, cancellations and
-- transactions since the boot, nobody owns it, and every byte of its six buffers is zero: nothing of
-- an address, a payload, a credential or an answer is left in its memory.
pub idle_is_wiped :
    (steps : List Step)
    → is_idle (run steps booted).exchange.state ≡ true
    → let w = run steps booted in (w.owner ≡ no_owner) × (each_zero (bytes_of w.exchange) ≡ true)
idle_is_wiped steps h =
    let safe = run-IsWorker steps booted booted-IsWorker in (safe.unowned h, safe.no_bytes h)

-- A result that an owner can read has a body of at most 6144 bytes, and is a permanent rejection
-- only with one of the statuses that reject a payload.
pub result_is_bounded :
    (owner : Owner) (steps : List Step) (r : Result)
    → result owner (run steps booted) ≡ some r
    → (length r.body.used ≤ body_limit)
      × (r.permanent_rejection && not (payload_rejected r.status) ≡ false)
result_is_bounded owner steps r h =
    let safe = run-IsWorker steps booted booted-IsWorker in
    ground (arith, safe.bounded, safe.justified)
