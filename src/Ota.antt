-- ===== src/Ota.antt =====
-- logger/firmware/include/SignedOta.h and logger/firmware/src/SignedOta.cpp: the single-owner
-- update writer, and the health watch over a freshly booted image. The backend is an abstract class
-- there; here it is a record of operations over a world `W`, which queries do not change.
pub mod Writer
pub mod Session
pub mod BootHealth
pub mod Health
mod Tests
use devices.Prelude.{ℕ, Bool, List}

pub data Boot : Type 0 where
  valid pending unknown : Boot

pub record SignedOtaBackend (W : Type 0) : Type 0 where
  pub secure_posture : W → Bool
  pub boot_state : W → Boot
  pub inactive_capacity : W → ℕ
  pub begin_inactive : ℕ → W → Bool × W
  pub write : List ℕ → W → Bool × W
  pub finish_and_verify : W → Bool × W
  pub select_verified : W → Bool × W
  pub abort : W → W
  pub confirm_healthy : W → Bool × W
  pub rollback_possible : W → Bool
  pub rollback : W → Bool × W
