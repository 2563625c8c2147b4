-- ===== src/Protocols/Tests.antt =====
-- Frames and rings of events on concrete values.
use devices.Prelude.{ℕ, ◌+◌, ◌≡◌, ◌<◌, refl, arith, true, false, some, List, [], ◌∷◌, replicate}
use devices.Prelude.Words.{since}
use devices.Protocols.UploadStatus.{
  Status, Model, server_accepted, unknown, no_transport, https, encode_status, encode, decode,
  acceptable, accept, view, window, decode-encode_status, accepted_view_is_fresh,
}
use devices.Protocols.EventQueue.{Queue, IsQueue, contents, push, pop, front}
use devices.Protocols.EventOrder.{Op, push_op, pop_op, run, run_list, event_queue_refines}
use devices.Protocols.EventFrames.{Event, Receiver, fresh_receiver, frame}
use devices.Protocols.EventReceiver.{IsEvent, accept_all, frames_round_trip}

abbrev delivered : Status
delivered = record {
  state = server_accepted;
  transport = https;
  success_age_ms = 1200;
  expected_interval_ms = 1000;
}

decode-encode_status_example : decode (encode_status delivered) ≡ some delivered
unfolding acceptable
decode-encode_status_example = decode-encode_status delivered refl (omega arith) (omega arith)

abbrev nothing_yet : Model
nothing_yet = record {
  status = record {
    state = unknown;
    transport = no_transport;
    success_age_ms = 0;
    expected_interval_ms = 1000;
  };
  received_ms = 0;
  received = false;
}

accepted_view_is_fresh_example :
    (true ≡ true)
    × (decode (encode_status delivered) ≡ some delivered)
    × (server_accepted ≡ server_accepted)
    × (https ≡ https)
    × (since 4000 3000 < 5000)
    × (1200 + since 4000 3000 < window 1000)
unfolding accept decode encode acceptable view
accepted_view_is_fresh_example =
    accepted_view_is_fresh (encode_status delivered) nothing_yet true 3000 4000 refl refl

abbrev ring : Queue ℕ
ring = record { entries = replicate 2 0; head = 1; count = 0; dropped = 0 }

ring-IsQueue : IsQueue ring
ring-IsQueue = record { head_in = omega arith; count_in = omega arith }

abbrev ops : List (Op ℕ)
ops = push_op 5 ∷ push_op 6 ∷ push_op 7 ∷ pop_op ∷ push_op 8 ∷ []

event_queue_refines_example :
    let (fronts, q) = run ops ring in run_list 2 ops [] 0 ≡ (fronts, contents q, q.dropped)
event_queue_refines_example = event_queue_refines ops ring ring-IsQueue

-- The third push finds no room, the fourth takes the slot that the pop left.
left_over : contents (run ops ring).1 ≡ 6 ∷ 8 ∷ []
unfolding push pop front
left_over = refl

abbrev event : Event
event = record {
  boot = 7;
  seq = 300;
  ms = 70000;
  value = 5;
  severity = 2;
  code = replicate 32 97;
  duration_ms = 12;
  http_status = 503;
  method = 1;
  version = 1;
}

event-IsEvent : IsEvent event
event-IsEvent = record {
  current = refl;
  bytes_in = (omega arith, omega arith);
  words_in = (omega arith, omega arith, omega arith);
  values_in = (omega arith, omega arith, omega arith);
  code_size = refl;
}

-- A receiver that was left in the middle of another event.
abbrev interrupted : Receiver
interrupted = record fresh_receiver { next = 2; sequence = 9 }

frames_round_trip_example :
    let frames = frame event 0 ∷ frame event 1 ∷ frame event 2 ∷ frame event 3 ∷ [] in
    let (done, e, _) = accept_all frames event interrupted in
    (done ≡ false ∷ false ∷ false ∷ true ∷ []) × (e ≡ event)
frames_round_trip_example = frames_round_trip event event interrupted event-IsEvent refl
