-- ===== src/Timekeeper.antt =====
-- `Timekeeper` of logger/firmware/include/Timekeeper.h and logger/firmware/src/Timekeeper.cpp: the
-- real-time clock of a logger. The I2C bus, the DS3231 driver and the C library's clock are not part
-- of the repository: records of operations over a world.
pub mod Clock
pub mod Registers
mod Tests
use Prim.Native.String.{String}
use devices.Prelude.{ℕ, Bool, Option, List}

pub record CalendarTime : Type 0 where
  pub year : ℕ
  pub month : ℕ
  pub day : ℕ
  pub hour : ℕ
  pub minute : ℕ
  pub second : ℕ

pub data Backend : Type 0 where
  disabled ds3231 rv3028 : Backend

-- `struct tm`, as far as it is read.
pub record Tm : Type 0 where
  pub tm_year : ℕ
  pub tm_mon : ℕ
  pub tm_mday : ℕ
  pub tm_hour : ℕ
  pub tm_min : ℕ
  pub tm_sec : ℕ

-- `send` is a transmission of some bytes, told whether it ends with a stop; it gives the status of
-- `endTransmission`. `request_from` gives the number of bytes that came.
pub record Board (W : Type 0) : Type 0 where
  pub send : ℕ → List ℕ → Bool → W → ℕ × W
  pub request_from : ℕ → ℕ → W → ℕ × W
  pub read : W → ℕ × W
  pub ds3231_begin : W → Bool × W
  pub ds3231_lost_power : W → Bool × W
  pub ds3231_now : W → CalendarTime × W
  pub ds3231_adjust : CalendarTime → W → W
  pub localtime : ℕ → Option Tm
  pub time : W → ℕ

pub record Timekeeper : Type 0 where
  pub backend : Backend
  pub has_wire : Bool
  pub address : ℕ
  pub ready : Bool
  pub network_ready : Bool
  pub last_error : String
