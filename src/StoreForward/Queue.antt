-- ===== src/StoreForward/Queue.antt =====
-- `enqueue`, `peek`, `peekBatch`, `pop` and `popIfMatches` of
-- logger/firmware/src/StoreForwardQueue.cpp.
use Prim.Native.Nat.{min}
use Prim.Native.String.{String}
use devices.Prelude.{
  ℕ, zero, suc, ◌+◌, ◌-◌, Bool, true, false, Option, some, none, List, [], ◌++◌, ◌&&◌, ◌||◌, not,
  length, ltb, ◌==◌, bytes_eq, if◌then◌else◌,
}
use devices.Prelude.Words.{u32}
use devices.StoreForward.Fs.{Fs, Segment, segment_path}
use devices.StoreForward.Format.{
  RecordHeader, header_of, encode_header, decode_header, header_valid, header_bytes,
  maximum_payload_bytes, checksum, at, put,
}
use devices.StoreForward.Types.{Queue, saturating_add, pending_records, oldest_segment}
use devices.StoreForward.Metadata.{save_metadata}
use devices.StoreForward.Segments.{truncate_segment, rotate_segment}

abbrev pub fail : Queue → String → Queue
fail q e = record q { last_error = e }

-- The queue with the head record of a segment taken off and counted.
abbrev pub advance : Segment → ℕ → Bool → Queue → Queue
advance segment payload_length discarded q = record q {
  metadata = record (q.metadata) {
    head =
        put q.metadata.head segment
          (u32 (at q.metadata.head segment + (header_bytes + payload_length)));
    dropped_records =
        if discarded
        then saturating_add q.metadata.dropped_records 1
        else q.metadata.dropped_records;
  };
  count = put q.count segment (at q.count segment - 1);
}

-- The same members as they were before.
abbrev pub restore : Segment → Queue → Queue → Queue
restore segment before q = record q {
  metadata = record (q.metadata) {
    head = put q.metadata.head segment (at before.metadata.head segment);
    dropped_records = before.metadata.dropped_records;
  };
  count = put q.count segment (at before.count segment);
}

module _ {W R : Type 0} (fs : Fs W R) where
  -- The appending part of `enqueue`, once the active segment has room.
  unfoldable pub append_record : List ℕ → Queue → W → Bool × Queue × W
  append_record payload q w =
      let segment = q.metadata.active_segment in
      let path = segment_path segment in
      let (opened, w₁) = fs.open_append path w in
      let header = encode_header (header_of payload) in
      let (header_written, w₂) = fs.write path header w₁ in
      let (payload_written, w₃) = fs.write path payload w₂ in
      let closed = λ (v : W). fs.close path (fs.flush path v) in
      if opened
      then (if header_written == header_bytes
          then (if payload_written == length payload
              then (
                true,
                record q {
                  tail =
                      put q.tail segment
                        (u32 (at q.tail segment + (header_bytes + length payload)));
                  count = put q.count segment (u32 (at q.count segment + 1));
                  last_error = "";
                },
                closed w₃,
              )
              else (false, fail q "Queue append failed", closed w₃))
          else (false, fail q "Queue append failed", closed w₂))
      else (false, fail q "Queue segment open failed", w₁)

  unfoldable pub enqueue : List ℕ → Queue → W → Bool × Queue × W
  enqueue payload q w =
      let record_bytes = header_bytes + length payload in
      let (rotated, q₁, w₁) = rotate_segment fs q w in
      if not q.ready || ((length payload == 0) || ltb maximum_payload_bytes (length payload))
      then (
        false,
        fail q (if q.ready then "Queued payload size invalid" else "Store-and-forward unavailable"),
        w,
      )
      else if ltb q.segment_maximum_bytes record_bytes
      then (false, fail q "Queued payload exceeds segment capacity", w)
      else if ltb q.segment_maximum_bytes (u32 (at q.tail q.metadata.active_segment + record_bytes))
      then (if rotated then append_record payload q₁ w₁ else (false, q₁, w₁))
      else append_record payload q w

  -- The loop that reads a payload in chunks of at most 256 bytes, on fuel: each round that goes on
  -- has read a byte. `peek` asks `available` before each round, `peekBatch` does not.
  unfoldable pub read_payload : (R → Bool) → ℕ → ℕ → List ℕ → R → List ℕ × R
  read_payload more zero wanted payload file = (payload, file)
  read_payload more (suc fuel) wanted payload file =
      let (chunk, file') = fs.read (min 256 (wanted - length payload)) file in
      let rest = read_payload more fuel wanted (payload ++ chunk) file' in
      if ltb (length payload) wanted && (more file && not (length chunk == 0))
      then rest
      else (payload, file)

  -- A header that was read whole and passes the test.
  abbrev pub read_header : R → Option RecordHeader × R
  read_header file =
      let (bytes, file') = fs.read header_bytes file in
      elim (decode_header bytes) [
        | some h ↦ (if header_valid h then some h else none, file')
        | none ↦ (none, file')
      ]

  -- A file opened at the replay head of a segment.
  abbrev pub open_at_head : Segment → Queue → W → Option R × W
  open_at_head segment q w =
      let (opened, w₁) = fs.open_read (segment_path segment) w in
      elim opened [
        | none ↦ (none, w₁)
        | some file ↦
            let (found, file') = fs.seek (at q.metadata.head segment) file in
            (if found then some file' else none, w₁)
      ]

  -- The payload is `none` where the source returns false; it then holds the empty string.
  unfoldable pub peek_file : R → Queue → Option (List ℕ) × Queue
  peek_file file q =
      let (header, file₁) = read_header file in
      elim header [
        | none ↦ (none, fail q "Queue record header invalid")
        | some h ↦
            let (payload, _) = read_payload fs.available h.length h.length [] file₁ in
            if (length payload == h.length) && (checksum payload == h.checksum)
            then (some payload, fail q "")
            else (none, fail q "Queue record checksum invalid")
      ]

  unfoldable pub peek : Queue → W → Option (List ℕ) × Queue × W
  peek q w =
      let (file, w₁) = open_at_head (oldest_segment q) q w in
      if not q.ready || (pending_records q == 0) then (none, q, w) else elim file [
        | none ↦ (none, fail q "Queue read seek failed", w₁)
        | some file ↦ let (payload, q₁) = peek_file file q in (payload, q₁, w₁)
      ]

  -- The end of `pop`: a segment with no record left is reclaimed.
  unfoldable pub reclaim : Segment → Queue → W → Bool × Queue × W
  reclaim segment q w =
      let (truncated, q₁, w₁) = truncate_segment fs segment q w in
      let (saved, q₂, w₂) = save_metadata fs q₁ w₁ in
      if at q.count segment == 0
      then (if truncated
          then (if saved then (true, fail q₂ "", w₂) else (false, q₂, w₂))
          else (false, q₁, w₁))
      else (true, fail q "", w)

  -- `pop` behind its reads: the acknowledgement is committed before an empty segment is reclaimed.
  unfoldable pub commit_pop : Segment → ℕ → Bool → Queue → W → Bool × Queue × W
  commit_pop segment payload_length discarded q w =
      let (saved, q₁, w₁) = save_metadata fs (advance segment payload_length discarded q) w in
      if saved then reclaim segment q₁ w₁ else (false, restore segment q q₁, w₁)

  unfoldable pub pop : Bool → Queue → W → Bool × Queue × W
  pop discarded q w =
      let segment = oldest_segment q in
      let (file, w₁) = open_at_head segment q w in
      if not q.ready || (pending_records q == 0) then (false, q, w) else elim file [
        | none ↦ (false, fail q "Queue pop seek failed", w₁)
        | some file ↦ elim (read_header file).0 [
          | none ↦ (false, fail q "Queue pop header invalid", w₁)
          | some h ↦ commit_pop segment h.length discarded q w₁
        ]
      ]

  unfoldable pub pop_if_matches : List ℕ → Bool → Queue → W → Bool × Queue × W
  pop_if_matches submitted discarded q w =
      let (current, q₁, w₁) = peek q w in
      elim current [
        | none ↦ (pending_records q₁ == 0, q₁, w₁)
        | some payload ↦ if bytes_eq payload submitted then pop discarded q₁ w₁ else (true, q₁, w₁)
      ]
