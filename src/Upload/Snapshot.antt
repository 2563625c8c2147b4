-- ===== src/Upload/Snapshot.antt =====
-- The answer to a snapshot that was sent alone, in `serviceHttps` of
-- logger/firmware/src/LiveUploadAsync.cpp, and the capture of one (`captureHttps`).
use Prim.Native.String.{◌++◌ as concat}
use devices.Prelude.{
  ℕ, ℤ, ◌+◌, Bool, true, false, Option, some, none, List, [], ◌&&◌, not, length, ◌==◌, bytes_eq,
  if◌then◌else◌,
}
use devices.Prelude.Words.{u32}
use devices.Https.Evidence.{recorded}
use devices.Https.Recovery.{
  Resolution, retained, archived, archive_failed, advance_failed, record_resolved, resolve_rejected,
}
use devices.StoreForward.Fs.{Fs}
use devices.StoreForward.Types.{Queue}
use devices.StoreForward.Queue.{enqueue, pop_if_matches}
use devices.StoreForward.Archive.{preserve_rejected}
use devices.Upload.Age.{epoch}
use devices.Upload.State.{LiveUpload}

abbrev pub is_empty : List ℕ → Bool
is_empty text = length text == 0

-- `timestamp_of` is the JSON reader on a snapshot: its timestamp, empty where it has none, or `none`
-- on an error.
module _ {W R : Type 0} (fs : Fs W R) (timestamp_of : List ℕ → Option (List ℕ)) where
  -- The epoch of the last sample that was accepted.
  abbrev pub note_sample : List ℕ → LiveUpload → LiveUpload
  note_sample payload u = elim (timestamp_of payload) [
    | none ↦ u
    | some text ↦ record u {
      performance = record (u.performance) { last_sample_epoch = epoch text };
    }
  ]

  -- The record that was sent is taken off the queue, or out of the volatile slot.
  unfoldable pub advance_in_flight : LiveUpload → W → Bool × LiveUpload × W
  advance_in_flight u w =
      let (popped, q, w₁) = pop_if_matches fs u.in_flight_payload false u.store_forward_queue w in
      if u.durable_in_flight
      then (popped, record u { store_forward_queue = q }, w₁)
      else if bytes_eq u.volatile_payload u.in_flight_payload
      then (true, record u { volatile_payload = [] }, w)
      else (false, u, w)

  unfoldable pub accept_snapshot : LiveUpload → W → LiveUpload × W
  accept_snapshot u w =
      let u₁ : LiveUpload = note_sample u.in_flight_payload (record u {
        rejection_archive_error = "";
        performance = record (u.performance) { accepted = u32 (u.performance.accepted + 1) };
      }) in
      let (advanced, u₂, w₁) = advance_in_flight u₁ w in
      let u₃ : LiveUpload = record u₂ {
        singles_remaining = record_resolved advanced u₂.singles_remaining;
      } in
      (
        if advanced then u₃ else record u₃ {
          last_error = "Queue acknowledgement persistence failed";
          backoff = true;
        },
        w₁,
      )

  -- The two callbacks on the queue.
  abbrev pub save_rejected : ℤ → List ℕ → Queue × W → Bool × (Queue × W)
  save_rejected status payload (q, w) =
      let (saved, q₁, w₁) = preserve_rejected fs payload status q w in (saved, (q₁, w₁))

  abbrev pub advance_rejected : Bool → List ℕ → Queue × W → Bool × (Queue × W)
  advance_rejected durable payload (q, w) =
      let (popped, q₁, w₁) = pop_if_matches fs payload false q w in
      if durable then (popped, (q₁, w₁)) else (true, (q, w))

  -- What an outcome of `resolveRejected` does to the other members: whether the snapshot is archived.
  abbrev pub settle_rejected : Resolution → LiveUpload → Bool × LiveUpload
  settle_rejected archived u = (
    true,
    record u {
      volatile_payload =
          if not u.durable_in_flight && bytes_eq u.volatile_payload u.in_flight_payload
          then []
          else u.volatile_payload;
      backoff = false;
      rejection_archive_error = "";
    },
  )
  settle_rejected advance_failed u = (
    false,
    record u { rejection_archive_error = "Rejected upload archived; queue acknowledgement failed" },
  )
  settle_rejected retained u =
      (false, record u { rejection_archive_error = u.store_forward_queue.last_error })
  settle_rejected archive_failed u =
      (false, record u { rejection_archive_error = u.store_forward_queue.last_error })

  unfoldable pub reject_snapshot : ℤ → Bool → LiveUpload → W → Bool × LiveUpload × W
  reject_snapshot status permanent u w =
      let (resolution, singles, (q, w₁)) =
        resolve_rejected status permanent (save_rejected status u.in_flight_payload)
          (advance_rejected u.durable_in_flight u.in_flight_payload) u.singles_remaining
          (u.store_forward_queue, w) in
      let (is_archived, u₁) =
        settle_rejected resolution
          (record u { store_forward_queue = q; singles_remaining = singles }) in
      (is_archived, u₁, w₁)

  -- The branch of `serviceHttps` for a snapshot; whether it is now archived.
  unfoldable pub complete_snapshot : Bool → ℤ → Bool → ℕ → LiveUpload → W → Bool × LiveUpload × W
  complete_snapshot accepted status permanent now u w =
      let u₁ : LiveUpload = record u {
        upload_evidence = recorded accepted now u.upload_evidence;
      } in
      let (u₂, w₂) = accept_snapshot u₁ w in
      let (is_archived, u₃, w₃) = reject_snapshot status permanent u₁ w in
      if accepted
      then (false, record u₂ { in_flight_payload = [] }, w₂)
      else if permanent
      then (is_archived, record u₃ { in_flight_payload = [] }, w₃)
      else (false, record u₁ { in_flight_payload = [] }, w)

  -- `captureHttps` behind its authorization test, on the snapshot's text.
  unfoldable pub capture : List ℕ → LiveUpload → W → Bool × LiveUpload × W
  capture payload u w =
      let q = u.store_forward_queue in
      let (queued, q₁, w₁) = enqueue fs payload q w in
      let rejected = λ (v : LiveUpload). record v {
        performance = record (v.performance) {
          capture_rejected = u32 (v.performance.capture_rejected + 1);
        };
      } in
      let captured = λ (v : LiveUpload). record v {
        last_sequence = u32 (v.last_sequence + 1);
        performance = record (v.performance) { captured = u32 (v.performance.captured + 1) };
      } in
      let u₁ : LiveUpload = record u { store_forward_queue = q₁ } in
      if q.ready
      then (if queued then (true, captured u₁, w₁) else (
        false,
        record (rejected u₁) { last_error = concat "Onboard capture failed: " q₁.last_error },
        w₁,
      ))
      else if is_empty u.volatile_payload
      then (true, captured (record u { volatile_payload = payload }), w)
      else (
        false,
        record (rejected u) { last_error = "Upload capture full; SD logging remains separate" },
        w,
      )
