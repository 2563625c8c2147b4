-- ===== src/StoreForward/Scan.antt =====
-- `scanSegment` of logger/firmware/src/StoreForwardQueue.cpp: the walk over the records of a segment
-- file, and the repair that moves what follows the last valid record to the quarantine file.
use Prim.Native.Nat.{min}
use devices.Prelude.{
  ℕ, zero, suc, ◌+◌, ◌-◌, Bool, true, false, Option, some, none, [], ◌∷◌, length, leb, ltb, ◌==◌,
  if◌then◌else◌,
}
use devices.Prelude.Words.{u32}
use devices.StoreForward.Fs.{
  Fs, Segment, segment_path, segment_repair_path, quarantine_path, FilePath,
}
use devices.StoreForward.Format.{header_bytes, fnv_step, at, put}
use devices.StoreForward.Types.{Queue}
use devices.StoreForward.Queue.{fail, read_header}
use devices.StoreForward.Segments.{truncate_segment}

-- The members that a scan sets for a segment.
abbrev pub located : Segment → ℕ → ℕ → ℕ → Queue → Queue
located segment head tail count q = record q {
  metadata = record (q.metadata) { head = put q.metadata.head segment head };
  tail = put q.tail segment tail;
  count = put q.count segment count;
}

module _ {W R : Type 0} (fs : Fs W R) where
  -- The checksum over so many bytes, read one at a time; a byte that is not there makes it 0.
  unfoldable pub read_checksum : ℕ → ℕ → R → ℕ × R
  read_checksum zero value file = (value, file)
  read_checksum (suc n) value file =
      let (bytes, file') = fs.read 1 file in
      elim bytes [ [] ↦ (0, file') | byte ∷ _ ↦ read_checksum n (fnv_step value byte) file' ]

  -- The payload length of the valid record at an offset of a file of the given size.
  unfoldable pub valid_record : ℕ → ℕ → R → Option ℕ × R
  valid_record size offset file =
      let (found, file₁) = fs.seek offset file in
      let (header, file₂) = read_header fs file₁ in
      if found
      then elim header [
        | none ↦ (none, file₂)
        | some h ↦
            let (value, file₃) = read_checksum h.length 2166136261 file₂ in
            if leb (u32 (offset + (header_bytes + h.length))) size
            then (if value == h.checksum then some h.length else none, file₃)
            else (none, file₂)
      ]
      else (none, file₁)

  -- The walk from one valid record to the next: the offset it stops at, and the records it counted.
  -- On fuel: each round that goes on moves the offset, and the file size is enough.
  unfoldable pub scan_records : ℕ → ℕ → ℕ → ℕ → R → ℕ × ℕ
  scan_records zero size offset count file = (offset, count)
  scan_records (suc fuel) size offset count file =
      let (found, file') = valid_record size offset file in
      if leb (u32 (offset + header_bytes)) size
      then elim found [
        | none ↦ (offset, count)
        | some n ↦
            scan_records fuel size (u32 (offset + (header_bytes + n))) (u32 (count + 1)) file'
      ]
      else (offset, count)

  -- A copying loop of the repair, in chunks of at most 256 bytes. On fuel: each round that goes on
  -- has copied a byte, and the number of bytes is enough.
  unfoldable pub copy_bytes : FilePath → ℕ → ℕ → R → W → Bool × R × W
  copy_bytes to zero remaining source w = (remaining == 0, source, w)
  copy_bytes to (suc fuel) remaining source w =
      let chunk = min remaining 256 in
      let (bytes, source') = fs.read chunk source in
      let (written, w') = fs.write to bytes w in
      let later = copy_bytes to fuel (remaining - chunk) source' w' in
      if remaining == 0
      then (true, source, w)
      else if length bytes == chunk
      then (if written == chunk then later else (false, source', w'))
      else (false, source', w)

  -- The valid prefix, copied to the repair file; `none` once `repaired` is false.
  unfoldable pub copy_prefix : Segment → ℕ → W → Option R × W
  copy_prefix segment tail w =
      let (opened, w₁) = fs.open_read (segment_path segment) w in
      let w₂ = if fs.exists segment_repair_path w₁ then fs.remove segment_repair_path w₁ else w₁ in
      let (repairing, w₃) = fs.open_write segment_repair_path w₂ in
      elim opened [
        | none ↦ (none, w₃)
        | some source ↦
            let (copied, source', w₄) = copy_bytes segment_repair_path tail tail source w₃ in
            if repairing then (if copied then some source' else none, w₄) else (none, w₃)
      ]

  -- The rest, appended to the quarantine file. The file is opened in any case.
  unfoldable pub copy_corrupt : Segment → ℕ → Option R → W → Bool × W
  copy_corrupt segment corrupt prefix w =
      let (appending, w₁) = fs.open_append (quarantine_path segment) w in
      elim prefix [
        | none ↦ (false, w₁)
        | some source ↦
            let (copied, _, w₂) = copy_bytes (quarantine_path segment) corrupt corrupt source w₁ in
            if appending then (copied, w₂) else (false, w₁)
      ]

  unfoldable pub repair_tail : Segment → ℕ → ℕ → Queue → W → Bool × Queue × W
  repair_tail segment tail corrupt q w =
      let (prefix, w₁) = copy_prefix segment tail w in
      let (repaired, w₂) = copy_corrupt segment corrupt prefix w₁ in
      let w₃ = fs.flush (quarantine_path segment) (fs.flush segment_repair_path w₂) in
      let w₄ = fs.close (quarantine_path segment) (fs.close segment_repair_path w₃) in
      let (renamed, w₅) = fs.rename segment_repair_path (segment_path segment) w₄ in
      let m = q.metadata in
      if repaired
      then (if renamed
          then (
            true,
            record q {
              metadata = record m {
                corruption_events = u32 (m.corruption_events + 1);
                quarantined_bytes = u32 (m.quarantined_bytes + corrupt);
              };
              last_error = "Queue tail corruption quarantined";
            },
            w₅,
          )
          else (false, fail q "Queue tail repair failed", w₅))
      else (false, fail q "Queue tail repair failed", w₄)

  -- A segment file that could not be opened is created.
  unfoldable pub create_segment : Segment → Queue → W → Bool × Queue × W
  create_segment segment q w =
      let (created, w₁) = fs.open_write (segment_path segment) w in
      if created
      then (true, located segment 0 0 0 q, fs.close (segment_path segment) w₁)
      else (false, fail q "Queue segment create failed", w₁)

  -- A segment with no record left is emptied.
  unfoldable pub finish_scan : Segment → Queue → W → Bool × Queue × W
  finish_scan segment q w =
      if at q.count segment == 0 then truncate_segment fs segment q w else (true, q, w)

  unfoldable pub scan_file : Segment → R → Queue → W → Bool × Queue × W
  scan_file segment file q w =
      let size = fs.size file in
      let head = min (at q.metadata.head segment) size in
      let (tail, count) = scan_records size size head 0 file in
      let q₁ = located segment head tail count q in
      let (repaired, q₂, w₂) = repair_tail segment tail (size - tail) q₁ w in
      if ltb tail size
      then (if repaired then finish_scan segment q₂ w₂ else (false, q₂, w₂))
      else finish_scan segment q₁ w

  unfoldable pub scan_segment : Segment → Queue → W → Bool × Queue × W
  scan_segment segment q w =
      let (opened, w₁) = fs.open_read (segment_path segment) w in
      elim opened [ none ↦ create_segment segment q w₁ | some file ↦ scan_file segment file q w₁ ]
