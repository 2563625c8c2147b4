-- ===== src/Https/Worker.antt =====
-- logger/firmware/include/HttpsWorker.h and logger/firmware/src/HttpsWorker.cpp: the worker that
-- all owners share. What the HTTP client and the TLS session do in one transaction is an argument;
-- `serve` is one turn of the worker's loop after it was notified.
use devices.Prelude.{
  ℕ, ℤ, pos, negsuc, ◌-◌, Bool, true, false, Option, none, List, [], ◌∷◌, ◌++◌, length, ◌&&◌, ◌||◌,
  drop, not, ltb, ◌==◌, at_least, if◌then◌else◌,
}
use devices.Https.Arbiter
use devices.Https.Arbiter.{Owner, no_owner, bit}
use devices.Https.Exchange
use devices.Https.Exchange.{
  HttpsExchange, Request, Result, Buffer, terminated, Arguments, body_limit, is_requested,
  is_complete, is_idle, complete_with,
}
use devices.Https.Recovery.{payload_rejected}

pub record HttpsWorker : Type 0 where
  pub exchange : HttpsExchange
  pub has_task : Bool
  pub owner : Owner
  pub pending : ℕ

abbrev pub same_owner : Owner → Owner → Bool
same_owner a b = bit a == bit b

unfoldable pub submit : Owner → Arguments → HttpsWorker → Bool × HttpsWorker
submit owner a w =
    let (granted, p) = Arbiter.request owner (is_idle w.exchange.state) w.pending in
    let (sent, x) = Exchange.submit a w.exchange in
    if same_owner owner no_owner || not w.has_task
    then (false, w)
    else if not granted
    then (false, record w { pending = p })
    else if not sent
    then (false, record w { pending = Arbiter.cancel owner p })
    else (true, record w { pending = Arbiter.cancel owner p; exchange = x; owner = owner })

abbrev pub result : Owner → HttpsWorker → Option Result
result owner w = if same_owner w.owner owner then Exchange.result w.exchange else none

unfoldable pub release : Owner → HttpsWorker → HttpsWorker
release owner w =
    if same_owner w.owner owner && is_complete w.exchange.state
    then record w { exchange = Exchange.release w.exchange; owner = no_owner }
    else w

abbrev pub cancel_pending : Owner → HttpsWorker → HttpsWorker
cancel_pending owner w = record w { pending = Arbiter.cancel owner w.pending }

-- `ResponseSink::write`: a piece that does not fit is refused whole.
abbrev pub sink : List (List ℕ) → Buffer → Buffer
sink [] buffer = buffer
sink (piece ∷ pieces) buffer = sink pieces (
    if ltb (body_limit - length buffer.used) (length piece)
    then buffer
    else record { used = buffer.used ++ piece; rest = drop (length piece) buffer.rest })

-- One transaction, as the client reports it: whether it could begin, the status, whether the header
-- "X-APX-Retryable" is "false", the pieces it wrote to the sink, and whether it says that it wrote
-- the response whole.
pub record Answer : Type 0 where
  pub reused : Bool
  pub began : Bool
  pub status : ℤ
  pub not_retryable : Bool
  pub pieces : List (List ℕ)
  pub streamed : Bool
  pub last_error : ℤ
  pub duration_ms : ℕ

unfoldable pub response : Answer → Buffer → Result
response a body =
    let attempted = if a.began then a.status else negsuc 0 in
    let readable = a.began && at_least 1 a.status in
    let whole = readable && a.streamed in
    let streamed = sink a.pieces (terminated body) in
    let status = if readable && not a.streamed then negsuc 0 else attempted in
    record {
      status = status;
      tls_error = if at_least 1 status then pos 0 else a.last_error;
      duration_ms = a.duration_ms;
      reused = a.reused;
      permanent_rejection = a.began && (payload_rejected status && a.not_retryable);
      body =
          if readable then (if whole then streamed else terminated streamed) else terminated body;
    }

unfoldable pub serve : Answer → HttpsWorker → HttpsWorker
serve a w =
    if is_requested w.exchange.state
    then record w { exchange = complete_with (response a w.exchange.result.body) w.exchange }
    else w
