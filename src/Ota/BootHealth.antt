-- ===== src/Ota/BootHealth.antt =====
-- `OtaBootHealth` and `OtaPolicy` of logger/firmware/include/SignedOta.h and
-- logger/firmware/src/SignedOta.cpp.
use Prim.Native.String.{String}
use devices.Prelude.{ℕ, Bool, true, false, ◌&&◌, not, leb, if◌then◌else◌}
use devices.Prelude.Words.{since}
use devices.Ota.{Boot, SignedOtaBackend}

-- `OtaPolicy::legacyAllowed`
abbrev pub legacy_allowed : Bool → Bool → Bool
legacy_allowed production_required enabled = enabled && not production_required

pub data State : Type 0 where
  inactive pending confirmed rolled_back recovery_required : State

pub record OtaBootHealth : Type 0 where
  pub state : State
  pub started_ms : ℕ
  pub healthy_since_ms : ℕ
  pub healthy : Bool

abbrev pub is_pending : State → Bool
is_pending pending = true
is_pending _ = false

abbrev pub status : OtaBootHealth → String
status h = elim h.state [
  | pending ↦ "pending-health"
  | confirmed ↦ "confirmed"
  | rolled_back ↦ "rolled-back"
  | recovery_required ↦ "recovery-required"
  | _ ↦ "not-pending"
]

-- What one turn of the main loop reports.
pub record Readings : Type 0 where
  pub now_ms : ℕ
  pub sensors_ready : Bool
  pub queue_ready : Bool
  pub authenticated_heartbeat : Bool

module _ {W : Type 0} (backend : SignedOtaBackend W) where
  open backend use {secure_posture, boot_state, confirm_healthy, rollback_possible, rollback}

  unfoldable pub begin : ℕ → Bool → OtaBootHealth → W → OtaBootHealth
  begin now production_required h w = record h {
    started_ms = now;
    healthy = false;
    state = if not production_required then inactive else elim (boot_state w) [
      | Boot.pending ↦ pending
      | Boot.unknown ↦ recovery_required
      | Boot.valid ↦ inactive
    ];
  }

  -- A rollback that is not possible, or that fails, leaves the fault visible.
  unfoldable pub give_up : OtaBootHealth → W → OtaBootHealth × W
  give_up h w =
      let (done, w₁) = rollback w in
      if rollback_possible w
      then (record h { state = if done then rolled_back else recovery_required }, w₁)
      else (record h { state = recovery_required }, w)

  abbrev pub all_well : Readings → W → Bool
  all_well r w =
      secure_posture w && (r.sensors_ready && (r.queue_ready && r.authenticated_heartbeat))

  unfoldable pub poll : Readings → OtaBootHealth → W → OtaBootHealth × W
  unfolding give_up
  poll r h w =
      let h₁ = if h.healthy then h else record h { healthy = true; healthy_since_ms = r.now_ms } in
      let (done, w₁) = confirm_healthy w in
      if not (is_pending h.state)
      then (h, w)
      else if leb 120000 (since r.now_ms h.started_ms)
      then give_up h w
      else if not (all_well r w)
      then (record h { healthy = false }, w)
      else if leb 10000 (since r.now_ms h₁.healthy_since_ms)
      then (if done then (record h₁ { state = confirmed }, w₁) else give_up h₁ w₁)
      else (h₁, w)
