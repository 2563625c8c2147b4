-- ===== src/Authorization/Pace.antt =====
-- When a poll of logger/firmware/include/DeviceAuthorizationPolicy.h is due.
use devices.Prelude.{ℕ, ◌+◌, ◌*◌, ◌^◌, ◌<◌, ◌≡◌, arith, leb, if◌then◌else◌}
use devices.Prelude.Words.{u32, since-later}
use devices.Authorization.Policy.{elapsed, poll_delay}

-- The larger and the smaller of two numbers.
abbrev pub larger : ℕ → ℕ → ℕ
larger m n = if leb m n then n else m

abbrev pub smaller : ℕ → ℕ → ℕ
smaller m n = if leb m n then m else n

-- Whatever interval the server asks for, the delay is that many seconds in milliseconds, raised to
-- five seconds where it is shorter and cut to a minute where it is longer; and a poll is due from
-- that delay after the last one on, also where the 32-bit clock wraps in between.
pub poll_is_due :
    (seconds start later : ℕ)
    → later < 2 ^ 32
    → (elapsed (u32 (start + later)) start (poll_delay seconds) ≡ leb (poll_delay seconds) later)
      × (poll_delay seconds ≡ larger 5 (smaller seconds 60) * 1000)
poll_is_due seconds start later h = ground (arith, since-later start later h)
