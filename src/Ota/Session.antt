-- ===== src/Ota/Session.antt =====
-- Whole update sessions of logger/firmware/src/SignedOta.cpp.
use devices.Prelude.{
  ℕ, ◌+◌, ◌≤◌, ◌<◌, ◌≡◌, refl, Bool, true, false, Option, some, none, List, [], ◌∷◌, arith, length,
  inr, ◌⊎◌,
}
use devices.Ota.{SignedOtaBackend}
use devices.Ota.Writer.{SignedOta, fresh, receiving, ready_to_reboot, begin, append, finish, cancel}

pub data Call : Type 0 where
  call_begin : ℕ → Call
  call_append : Option (List ℕ) → Call
  call_finish call_cancel : Call

module _ {W : Type 0} (backend : SignedOtaBackend W) where
  abbrev pub step : Call → SignedOta → W → SignedOta × W
  step (call_begin bytes) s w = let (_, s', w') = begin backend bytes s w in (s', w')
  step (call_append chunk) s w = let (_, s', w') = append backend chunk s w in (s', w')
  step call_finish s w = let (_, s', w') = finish backend s w in (s', w')
  step call_cancel s w = cancel backend s w

  abbrev pub run : List Call → SignedOta → W → SignedOta × W
  run [] s w = (s, w)
  run (call ∷ calls) s w = let (s', w') = step call s w in run calls s' w'

-- What a backend has reported done, the newest first.
pub data Event : Type 0 where
  prepared : ℕ → Event
  wrote : List ℕ → Event
  verified selected aborted : Event

-- A result with its event, which is logged if the result is success.
abbrev logging : {W : Type 0} → Event → List Event → Bool × W → Bool × (W × List Event)
logging e log (true, w) = (true, (w, e ∷ log))
logging e log (false, w) = (false, (w, log))

-- The backend with a log of what it has done.
abbrev pub logged : {W : Type 0} → SignedOtaBackend W → SignedOtaBackend (W × List Event)
logged b = record {
  secure_posture = λ s. b.secure_posture (s.0);
  boot_state = λ s. b.boot_state (s.0);
  inactive_capacity = λ s. b.inactive_capacity (s.0);
  begin_inactive = λ n s. logging (prepared n) (s.1) (b.begin_inactive n (s.0));
  write = λ c s. logging (wrote c) (s.1) (b.write c (s.0));
  finish_and_verify = λ s. logging verified (s.1) (b.finish_and_verify (s.0));
  select_verified = λ s. logging selected (s.1) (b.select_verified (s.0));
  abort = λ s. (b.abort (s.0), aborted ∷ s.1);
  confirm_healthy = λ s. let (done, w) = b.confirm_healthy (s.0) in (done, (w, s.1));
  rollback_possible = λ s. b.rollback_possible (s.0);
  rollback = λ s. let (done, w) = b.rollback (s.0) in (done, (w, s.1));
}

-- The size for which the slot was prepared, and how many bytes were written to it since.
abbrev pub progress : List Event → Option (ℕ × ℕ)
progress (prepared n ∷ log) = some (n, 0)
progress (wrote c ∷ log) = elim (progress log) [
  | some (n, m) ↦ some (n, m + length c)
  | none ↦ none
]
progress _ = none

-- The same, where verification and then selection are the last two things that were done.
abbrev pub vetted : List Event → Option (ℕ × ℕ)
vetted (selected ∷ verified ∷ log) = progress log
vetted _ = none

-- What the log says of a writer in each state.
pub record Accounts (s : SignedOta) (log : List Event) : Type 0 where
  pub in_progress : s.state ≡ receiving → progress log ≡ some (s.expected, s.received)
  pub within : s.state ≡ receiving → s.received ≤ s.expected
  pub complete : s.state ≡ ready_to_reboot → vetted log ≡ some (s.expected, s.expected)
  pub not_empty : (s.state ≡ receiving) ⊎ (s.state ≡ ready_to_reboot) → 0 < s.expected

module _ {W : Type 0} (backend : SignedOtaBackend W) where
  begin-Accounts :
      (n : ℕ) (s : SignedOta) (w : W) (log : List Event)
      → Accounts s log
      → let (_, s', w') = begin (logged backend) n s (w, log) in Accounts s' (w'.1)
  unfolding begin
  begin-Accounts n s w log a = ground arith

  append-Accounts :
      (chunk : Option (List ℕ)) (s : SignedOta) (w : W) (log : List Event)
      → Accounts s log
      → let (_, s', w') = append (logged backend) chunk s (w, log) in Accounts s' (w'.1)
  unfolding append
  append-Accounts none s w log a = ground arith
  append-Accounts (some chunk) s w log a = ground arith

  finish-Accounts :
      (s : SignedOta) (w : W) (log : List Event)
      → Accounts s log
      → let (_, s', w') = finish (logged backend) s (w, log) in Accounts s' (w'.1)
  unfolding finish
  finish-Accounts s w log a = ground arith

  cancel-Accounts :
      (s : SignedOta) (w : W) (log : List Event)
      → Accounts s log
      → let (s', w') = cancel (logged backend) s (w, log) in Accounts s' (w'.1)
  unfolding cancel
  cancel-Accounts s w log a = ground arith

  run-Accounts :
      (calls : List Call) (s : SignedOta) (w : W) (log : List Event)
      → Accounts s log
      → let (s', w') = run (logged backend) calls s (w, log) in Accounts s' (w'.1)
  run-Accounts [] s w log a = a
  run-Accounts (call_begin n ∷ calls) s w log a =
      let (_, s', w') = begin (logged backend) n s (w, log) in
      run-Accounts calls s' (w'.0) (w'.1) (begin-Accounts n s w log a)
  run-Accounts (call_append c ∷ calls) s w log a =
      let (_, s', w') = append (logged backend) c s (w, log) in
      run-Accounts calls s' (w'.0) (w'.1) (append-Accounts c s w log a)
  run-Accounts (call_finish ∷ calls) s w log a =
      let (_, s', w') = finish (logged backend) s (w, log) in
      run-Accounts calls s' (w'.0) (w'.1) (finish-Accounts s w log a)
  run-Accounts (call_cancel ∷ calls) s w log a =
      let (s', w') = cancel (logged backend) s (w, log) in
      run-Accounts calls s' (w'.0) (w'.1) (cancel-Accounts s w log a)

  -- However the calls come, a writer is ready to reboot only if the last things that the backend
  -- reported done are the verification and then the selection of an image, the slot was prepared
  -- for its size, which is not 0, and since then exactly that many bytes were written to it.
  pub ready_needs_whole_image :
      (calls : List Call) (w : W)
      → (run (logged backend) calls fresh (w, [])).0.state ≡ ready_to_reboot
      → let (s, w') = run (logged backend) calls fresh (w, []) in
        (vetted (w'.1) ≡ some (s.expected, s.expected)) × (0 < s.expected)
  ready_needs_whole_image calls w ready =
      let start : Accounts fresh [] = ground arith in
      let a = run-Accounts calls fresh w [] start in (a.complete ready, a.not_empty (inr ready))

  step_ready :
      (call : Call) (s : SignedOta) (w : W)
      → s.state ≡ ready_to_reboot
      → step backend call s w ≡ (s, w)
  unfolding begin append finish cancel
  step_ready (call_begin n) s w h = ground arith
  step_ready (call_append none) s w h = ground arith
  step_ready (call_append (some c)) s w h = ground arith
  step_ready call_finish s w h = ground arith
  step_ready call_cancel s w h = ground arith

  -- Once a verified image is selected, no call touches the backend or the writer any more.
  ready_absorbs :
      (calls : List Call) (s : SignedOta) (w : W)
      → s.state ≡ ready_to_reboot
      → run backend calls s w ≡ (s, w)
  ready_absorbs [] s w h = refl
  ready_absorbs (call ∷ calls) s w h = rw (step_ready call s w h) (ready_absorbs calls s w h)
