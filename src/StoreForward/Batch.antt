-- ===== src/StoreForward/Batch.antt =====
-- `peekBatch` of logger/firmware/src/StoreForwardQueue.cpp.
use Prim.Native.Nat.{min}
use Prim.Native.String.{String}
use devices.Prelude.{
  ℕ, zero, suc, ◌+◌, Bool, true, false, some, none, List, [], ◌∷◌, ◌++◌, ◌&&◌, ◌||◌, not, length,
  leb, ltb, ◌==◌, if◌then◌else◌,
}
use devices.Prelude.Words.{u32}
use devices.StoreForward.Fs.{Fs, Segment}
use devices.StoreForward.Format.{checksum, at, other}
use devices.StoreForward.Types.{Queue, pending_records, oldest_segment}
use devices.StoreForward.Queue.{fail, read_payload, read_header, open_at_head}

-- The loops go on, have been left by a `break`, or the function has returned.
pub data Course : Type 0 where
  running broken returned : Course

pub record Batch : Type 0 where
  pub payloads : List (List ℕ)
  pub bytes : ℕ
  pub course : Course
  pub last_error : String

abbrev pub added : List ℕ → Batch → Batch
added payload b = record b {
  payloads = b.payloads ++ (payload ∷ []);
  bytes = u32 (b.bytes + (length payload + 1));
}

-- `size_t(8)`
abbrev pub batch_limit : ℕ
batch_limit = 8

module _ {W R : Type 0} (fs : Fs W R) where
  -- The inner loop, over so many records of a segment.
  unfoldable pub batch_records : ℕ → ℕ → ℕ → R → Batch → Batch
  batch_records zero maximum_records maximum_bytes file b = b
  batch_records (suc n) maximum_records maximum_bytes file b =
      let (header, file₁) = read_header fs file in
      if leb maximum_records (length b.payloads) then b else elim header [
        | none ↦ record b { course = returned; last_error = "Queue batch header invalid" }
        | some h ↦
            let (payload, file₂) = read_payload fs (λ r. true) h.length h.length [] file₁ in
            let later = batch_records n maximum_records maximum_bytes file₂ (added payload b) in
            if ltb maximum_bytes (u32 (b.bytes + (h.length + 1)))
            then record b { course = returned }
            else if (length payload == h.length) && (checksum payload == h.checksum)
            then later
            else record b { course = returned; last_error = "Queue batch checksum invalid" }
      ]

  -- One round of the outer loop.
  unfoldable pub batch_pass : Segment → ℕ → ℕ → Queue → Batch → W → Batch × W
  batch_pass segment maximum_records maximum_bytes q b w =
      let (opened, w₁) = open_at_head fs segment q w in
      if leb maximum_records (length b.payloads) || (at q.count segment == 0)
      then (b, w)
      else elim opened [
        | none ↦ (record b { course = broken; last_error = "Queue batch seek failed" }, w₁)
        | some file ↦ (batch_records (at q.count segment) maximum_records maximum_bytes file b, w₁)
      ]

  -- A round that follows is made only while the loop runs.
  unfoldable pub pass_if_running : Segment → ℕ → ℕ → Queue → Batch → W → Batch × W
  pass_if_running segment maximum_records maximum_bytes q b w = elim b.course [
    | running ↦ batch_pass segment maximum_records maximum_bytes q b w
    | broken ↦ (b, w)
    | returned ↦ (b, w)
  ]

  abbrev pub nonempty : List (List ℕ) → Bool
  nonempty payloads = not (length payloads == 0)

  -- What `lastError_` is in the end.
  abbrev pub final_error : Batch → String
  final_error b = elim b.course [
    | returned ↦ b.last_error
    | broken ↦ if nonempty b.payloads then "" else b.last_error
    | running ↦ if nonempty b.payloads then "" else b.last_error
  ]

  unfoldable pub peek_batch : ℕ → ℕ → Queue → W → Bool × List (List ℕ) × Queue × W
  peek_batch maximum_records maximum_bytes q w =
      let limit = min maximum_records batch_limit in
      let first = oldest_segment q in
      let b : Batch = record {
        payloads = [];
        bytes = 0;
        course = running;
        last_error = q.last_error;
      } in
      let (b₁, w₁) = batch_pass first limit maximum_bytes q b w in
      let (b₂, w₂) = pass_if_running (other first) limit maximum_bytes q b₁ w₁ in
      if not q.ready || ((pending_records q == 0) || (maximum_records == 0))
      then (false, [], q, w)
      else (nonempty b₂.payloads, b₂.payloads, fail q (final_error b₂), w₂)
