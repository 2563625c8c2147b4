-- ===== src/Ota/Tests.antt =====
-- Runs of the update writer and of the boot health watch over a backend that counts its calls.
use devices.Prelude.{ℕ, suc, true, false, some, List, [], ◌∷◌, ◌≡◌, ◌<◌, refl, arith}
use devices.Ota.{Boot, SignedOtaBackend}
use devices.Ota.Writer.{SignedOta, fresh, ready_to_reboot, begin, append, finish}
use devices.Ota.Session.{
  Call, call_begin, call_append, call_finish, run, logged, vetted, ready_needs_whole_image,
}
use devices.Ota.BootHealth
use devices.Ota.BootHealth.{OtaBootHealth, Readings}
use devices.Ota.Health.{earned, confirmed_is_earned, deadline_settles}

abbrev counting : SignedOtaBackend ℕ
counting = record {
  secure_posture = λ w. true;
  boot_state = λ w. Boot.valid;
  inactive_capacity = λ w. 64;
  begin_inactive = λ n w. (true, suc w);
  write = λ c w. (true, suc w);
  finish_and_verify = λ w. (true, suc w);
  select_verified = λ w. (true, suc w);
  abort = λ w. suc w;
  confirm_healthy = λ w. (true, suc w);
  rollback_possible = λ w. true;
  rollback = λ w. (true, suc w);
}

abbrev unconfirmed : SignedOtaBackend ℕ
unconfirmed = record counting { boot_state = λ w. Boot.pending }

abbrev image : List Call
image =
    call_begin 3 ∷ call_append (some (1 ∷ 2 ∷ [])) ∷ call_append (some (3 ∷ [])) ∷ call_finish ∷ []

ready_needs_whole_image_example :
    let (s, w) = run (logged counting) image fresh (0, []) in
    (vetted w.1 ≡ some (s.expected, s.expected)) × (0 < s.expected)
unfolding begin append finish
ready_needs_whole_image_example = ready_needs_whole_image counting image 0 refl

abbrev selected_image : SignedOta
selected_image = record fresh { state = ready_to_reboot }

abbrev well_at : ℕ → Readings
well_at now = record {
  now_ms = now;
  sensors_ready = true;
  queue_ready = true;
  authenticated_heartbeat = true;
}

abbrev unwatched : OtaBootHealth
unwatched = record {
  state = BootHealth.inactive;
  started_ms = 0;
  healthy_since_ms = 0;
  healthy = false;
}

abbrev turns : List Readings
turns = well_at 10500 ∷ well_at 5000 ∷ well_at 400 ∷ []

confirmed_is_earned_example : earned unconfirmed 100 0 turns ≡ true
unfolding BootHealth.begin BootHealth.poll BootHealth.give_up
confirmed_is_earned_example = confirmed_is_earned unconfirmed 100 true unwatched 0 turns refl

abbrev watched : OtaBootHealth
watched = record unwatched { state = BootHealth.pending; started_ms = 100 }

deadline_settles_example :
    let h = (BootHealth.poll unconfirmed (well_at 120100) watched 0).0 in
    ¬ (h.state ≡ BootHealth.pending) × ¬ (h.state ≡ BootHealth.confirmed)
deadline_settles_example =
    deadline_settles unconfirmed (well_at 120100) watched 0 refl (omega arith)
