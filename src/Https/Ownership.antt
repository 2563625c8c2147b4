-- ===== src/Https/Ownership.antt =====
-- That a request submitted to logger/firmware/src/HttpsWorker.cpp is its owner's alone until that
-- owner releases it.
use devices.Prelude.{◌≡◌, Bool, true, false, none, List, [], ◌∷◌, ◌&&◌, not, arith}
use devices.Https.Arbiter.{Owner}
use devices.Https.Exchange
use devices.Https.Exchange.{
  HttpsExchange, Request, Arguments, is_idle, is_complete, is_requested, copied, idle,
}
use devices.Https.Worker.{
  HttpsWorker, Answer, same_owner, submit, result, release, cancel_pending, serve,
}
use devices.Https.Sessions.{Step, run, owner_submits, owner_releases, owner_cancels, worker_serves}

-- The owner makes no release in these steps.
abbrev pub keeps_hold : Owner → List Step → Bool
keeps_hold owner [] = true
keeps_hold owner (owner_releases other ∷ steps) =
    not (same_owner owner other) && keeps_hold owner steps
keeps_hold owner (_ ∷ steps) = keeps_hold owner steps

record Holds (owner : Owner) (q : Request) (w : HttpsWorker) : Type 0 where
  busy : is_idle w.exchange.state ≡ false
  mine : w.owner ≡ owner
  request : w.exchange.request ≡ q

submit-Holds :
    (owner : Owner) (q : Request) (other : Owner) (a : Arguments) (w : HttpsWorker)
    → Holds owner q w
    → Holds owner q (submit other a w).1
unfolding submit Exchange.submit
submit-Holds owner q other a w h = ground arith

release-Holds :
    (owner : Owner) (q : Request) (other : Owner) (w : HttpsWorker)
    → same_owner owner other ≡ false
    → Holds owner q w
    → Holds owner q (release other w)
unfolding release
release-Holds owner q other w differ h = ground arith

serve-Holds :
    (owner : Owner) (q : Request) (a : Answer) (w : HttpsWorker)
    → Holds owner q w
    → Holds owner q (serve a w)
unfolding serve
serve-Holds owner q a w h = ground arith

run-Holds :
    (owner : Owner) (q : Request) (steps : List Step) (w : HttpsWorker)
    → keeps_hold owner steps ≡ true
    → Holds owner q w
    → Holds owner q (run steps w)
run-Holds owner q [] w k h = h
run-Holds owner q (owner_submits other a ∷ steps) w k h =
    run-Holds owner q steps (submit other a w).1 k (submit-Holds owner q other a w h)
run-Holds owner q (owner_releases other ∷ steps) w k h =
    run-Holds owner q steps (release other w) (ground arith)
      (release-Holds owner q other w (ground arith) h)
run-Holds owner q (owner_cancels other ∷ steps) w k h =
    run-Holds owner q steps (cancel_pending other w) k (ground arith)
run-Holds owner q (worker_serves a ∷ steps) w k h =
    run-Holds owner q steps (serve a w) k (serve-Holds owner q a w h)

submit-starts :
    (owner : Owner) (a : Arguments) (w : HttpsWorker)
    → (submit owner a w).0 ≡ true
    → Holds owner (copied a w.exchange.request) (submit owner a w).1
unfolding submit Exchange.submit
submit-starts owner a w h = ground arith

-- From a submission that was accepted until the owner's next release, whatever the other owners and
-- the worker do in between, the owner stays the same, the request that the worker reads is the one
-- submitted, and no other owner can read a result.
pub submission_is_exclusive :
    (owner other : Owner) (a : Arguments) (steps : List Step) (w : HttpsWorker)
    → (submit owner a w).0 ≡ true
    → keeps_hold owner steps ≡ true
    → same_owner owner other ≡ false
    → let w' = run steps (submit owner a w).1 in
      (w'.owner ≡ owner)
      × (w'.exchange.request ≡ copied a w.exchange.request)
      × (result other w' ≡ none)
submission_is_exclusive owner other a steps w accepted k differ =
    let w₁ = (submit owner a w).1 in
    let h =
      run-Holds owner (copied a w.exchange.request) steps w₁ k (submit-starts owner a w accepted) in
    (h.mine, h.request, ground arith)
