-- ===== src/Upload/Batch.antt =====
-- The answer to a batch, in `serviceHttps` of logger/firmware/src/LiveUploadAsync.cpp, and the turns
-- that then take its records off the queue.
use devices.Prelude.{
  ℕ, ℤ, ◌+◌, Bool, true, false, Option, List, [], ◌||◌, length, get_or, ltb, is_number,
  if◌then◌else◌,
}
use devices.Prelude.Words.{u32}
use devices.Https.Evidence.{recorded}
use devices.Https.Recovery.{payload_rejected}
use devices.StoreForward.Fs.{Fs}
use devices.StoreForward.Queue.{pop_if_matches}
use devices.Upload.State.{LiveUpload, clear_batch}
use devices.Upload.Snapshot.{note_sample}

-- The branch of `serviceHttps` for a batch.
unfoldable pub complete_batch : Bool → ℤ → ℕ → LiveUpload → LiveUpload
complete_batch accepted status now u =
    let p = u.performance in
    let u₁ : LiveUpload = record u {
      upload_evidence = recorded accepted now u.upload_evidence;
      performance = record p {
        batch_requests = u32 (p.batch_requests + 1);
        batch_accepted = if accepted then u32 (p.batch_accepted + 1) else p.batch_accepted;
      };
    } in
    let p₁ = u₁.performance in
    if accepted
    then record u₁ {
      performance = record p₁ { accepted = u32 (p₁.accepted + length u.batch_records) };
      batch_acknowledged = true;
      batch_ack_index = 0;
    }
    else if payload_rejected status
    then record (clear_batch u₁) { singles_remaining = length u.batch_records; backoff = false }
    else if is_number status 404 || is_number status 405
    then record (clear_batch u₁) {
      batch_enabled = false;
      backoff = false;
      performance = record p₁ { batch_enabled = false };
    }
    else u₁

module _ {W R : Type 0} (fs : Fs W R) (timestamp_of : List ℕ → Option (List ℕ)) where
  -- One turn on an acknowledged batch: one of its records is taken off the queue, or all are done.
  -- Whether `serviceHttps` returns with it.
  unfoldable pub acknowledge_step : LiveUpload → W → Bool × LiveUpload × W
  acknowledge_step u w =
      let payload = get_or u.batch_records u.batch_ack_index [] in
      let (popped, q, w₁) = pop_if_matches fs payload false u.store_forward_queue w in
      let u₁ : LiveUpload = record u { store_forward_queue = q } in
      let u₂ : LiveUpload = note_sample fs timestamp_of payload u₁ in
      if u.batch_acknowledged
      then (if ltb u.batch_ack_index (length u.batch_records)
          then (if popped
              then (true, record u₂ { batch_ack_index = u₂.batch_ack_index + 1 }, w₁)
              else (
                true,
                record u₁ { last_error = "Batch queue acknowledgement persistence failed" },
                w₁,
              ))
          else (false, record (clear_batch u) { batch_acknowledged = false }, w))
      else (false, u, w)
