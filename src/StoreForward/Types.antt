-- ===== src/StoreForward/Types.antt =====
-- The members of `StoreForwardQueue`, and the functions on them that touch no file
-- (logger/firmware/include/StoreForwardQueue.h, logger/firmware/src/StoreForwardQueue.cpp,
-- logger/firmware/src/StatusDiagnostics.cpp for the saturating sum).
use Prim.Native.String.{String}
use devices.Prelude.{ℕ, ◌+◌, ◌-◌, ◌*◌, ◌^◌, Bool, ltb, ◌&&◌, ◌==◌, if◌then◌else◌}
use devices.Prelude.Words.{u32, u32_max}
use devices.StoreForward.Fs.{Segment}
use devices.StoreForward.Format.{Metadata, Pair, at, other}

pub record Queue : Type 0 where
  pub metadata : Metadata
  pub tail : Pair
  pub count : Pair
  pub segment_maximum_bytes : ℕ
  pub enabled : Bool
  pub ready : Bool
  pub rejected_records : ℕ
  pub last_error : String

-- `StatusDiagnostics::saturatingAdd`
abbrev pub saturating_add : ℕ → ℕ → ℕ
saturating_add value increment =
    if ltb (u32_max - value) increment then u32_max else value + increment

abbrev pub pending_records : Queue → ℕ
pending_records q = u32 (q.count.zero + q.count.one)

-- `size_t` is 32 bits wide on the target.
abbrev pub pending_bytes : Queue → ℕ
pending_bytes q = u32 (
    u32 (q.tail.zero + 2 ^ 32 - q.metadata.head.zero)
    + u32 (q.tail.one + 2 ^ 32 - q.metadata.head.one))

abbrev pub capacity_bytes : Queue → ℕ
capacity_bytes q = u32 (q.segment_maximum_bytes * 2)

abbrev pub dropped_records_known : Queue → Bool
dropped_records_known q = q.ready && (q.metadata.reserved == 0)

abbrev pub oldest_segment : Queue → Segment
oldest_segment q =
    let inactive = other q.metadata.active_segment in
    if ltb 0 (at q.count inactive) then inactive else q.metadata.active_segment
