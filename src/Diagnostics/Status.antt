-- ===== src/Diagnostics/Status.antt =====
-- The members and the observers of logger/firmware/src/StatusDiagnostics.cpp. The namespace
-- "apexi_diag" of the non-volatile storage is a record of operations over a world.
use devices.Prelude.{ℕ, Bool, true, false, Option, some, none, ◌&&◌, not, ltb, ◌==◌, if◌then◌else◌}
use devices.StoreForward.Types.{saturating_add}

pub record StatusDiagnostics : Type 0 where
  pub boot_recorded : Bool
  pub attempted : Bool
  pub reconnects : ℕ
  pub desired_version : ℕ
  pub reboots : Option ℕ
  pub clock_fault : Option Bool
  pub config_stale : Option Bool
  pub config_rejected : Option Bool

abbrev pub fresh : StatusDiagnostics
fresh = record {
  boot_recorded = false;
  attempted = false;
  reconnects = 0;
  desired_version = 0;
  reboots = none;
  clock_fault = none;
  config_stale = none;
  config_rejected = none;
}

-- `get_uint` gives the default, 0, for a key that is missing or cannot be read.
pub record BootStore (W : Type 0) : Type 0 where
  pub open_store : W → Bool × W
  pub get_uint : W → ℕ
  pub is_key : W → Bool
  pub put_uint : ℕ → W → Bool × W
  pub close_store : W → W

unfoldable pub record_completed_boot :
    {W : Type 0} → BootStore W → StatusDiagnostics → W → StatusDiagnostics × W
record_completed_boot store d w =
    let marked : StatusDiagnostics = record d { boot_recorded = true } in
    let (opened, w₁) = store.open_store w in
    let next = saturating_add (store.get_uint w₁) 1 in
    let (saved, w₂) = store.put_uint next w₁ in
    if d.boot_recorded
    then (d, w)
    else if not opened
    then (marked, w₁)
    else if store.is_key w₁ && (store.get_uint w₁ == 0)
    then (marked, store.close_store w₁)
    else (if saved then record marked { reboots = some next } else marked, store.close_store w₂)

abbrev pub observe_clock_fault : Bool → StatusDiagnostics → StatusDiagnostics
observe_clock_fault fault d = record d { clock_fault = some fault }

abbrev pub observe_desired : ℕ → ℕ → StatusDiagnostics → StatusDiagnostics
observe_desired desired applied d =
    let newest = if ltb d.desired_version desired then desired else d.desired_version in
    record d { desired_version = newest; config_stale = some (ltb applied newest) }

abbrev pub configuration_rejected : StatusDiagnostics → StatusDiagnostics
configuration_rejected d = record d { config_rejected = some true }

abbrev pub configuration_accepted : StatusDiagnostics → StatusDiagnostics
configuration_accepted d = record d { config_rejected = some false }

abbrev pub configuration_applied : ℕ → StatusDiagnostics → StatusDiagnostics
configuration_applied applied d = record d {
  config_stale = elim d.config_stale [
    | some _ ↦ some (ltb applied d.desired_version)
    | none ↦ none
  ];
  config_rejected = some false;
}

abbrev pub transport_attempt : Bool → StatusDiagnostics → StatusDiagnostics
transport_attempt recovering d = record d {
  reconnects = if d.attempted && recovering then saturating_add d.reconnects 1 else d.reconnects;
  attempted = true;
}
