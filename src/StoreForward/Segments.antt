-- ===== src/StoreForward/Segments.antt =====
-- The segment files of logger/firmware/src/StoreForwardQueue.cpp: truncation and rotation.
use devices.Prelude.{Bool, true, false, ltb, if◌then◌else◌}
use devices.StoreForward.Fs.{Fs, Segment, segment_path}
use devices.StoreForward.Format.{at, put, other}
use devices.StoreForward.Types.{Queue, saturating_add}
use devices.StoreForward.Metadata.{save_metadata}

module _ {W R : Type 0} (fs : Fs W R) where
  unfoldable pub truncate_segment : Segment → Queue → W → Bool × Queue × W
  truncate_segment segment q w =
      let (opened, w₁) = fs.open_write (segment_path segment) w in
      let w₂ = fs.close (segment_path segment) w₁ in
      if opened
      then (
        true,
        record q {
          metadata = record (q.metadata) { head = put q.metadata.head segment 0 };
          tail = put q.tail segment 0;
          count = put q.count segment 0;
        },
        w₂,
      )
      else (false, record q { last_error = "Queue segment reset failed" }, w₁)

  -- The part of `rotateSegment` after the drop counter is committed.
  unfoldable pub switch_segment : Segment → Queue → W → Bool × Queue × W
  switch_segment next q w =
      let (truncated, q₁, w₁) = truncate_segment next q w in
      if truncated
      then save_metadata fs
          (record q₁ { metadata = record (q₁.metadata) { active_segment = next } }) w₁
      else (false, q₁, w₁)

  unfoldable pub rotate_segment : Queue → W → Bool × Queue × W
  rotate_segment q w =
      let next = other q.metadata.active_segment in
      let records_to_drop = at q.count next in
      let previous = q.metadata.dropped_records in
      let counted = record q {
        metadata = record (q.metadata) {
          dropped_records = saturating_add previous records_to_drop;
        };
      } in
      let (saved, q₁, w₁) = save_metadata fs counted w in
      if ltb 0 records_to_drop
      then (if saved then switch_segment next q₁ w₁ else (
        false,
        record q₁ { metadata = record (q₁.metadata) { dropped_records = previous } },
        w₁,
      ))
      else switch_segment next q w
