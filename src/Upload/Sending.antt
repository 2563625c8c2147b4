-- ===== src/Upload/Sending.antt =====
-- The end of `serviceHttps` of logger/firmware/src/LiveUploadAsync.cpp: which records are sent next.
use devices.Prelude.{
  ℕ, ◌-◌, Option, some, none, List, [], ◌∷◌, ◌++◌, ◌&&◌, not, length, leb, ltb, if◌then◌else◌,
}
use devices.Https.Exchange.{body_limit}
use devices.Https.Recovery.{allow_batch}
use devices.StoreForward.Fs.{Fs}
use devices.StoreForward.Types.{pending_records}
use devices.StoreForward.Queue.{peek}
use devices.StoreForward.Batch.{peek_batch}
use devices.Upload.State.{LiveUpload}
use devices.Upload.Snapshot.{is_empty}

-- What is handed to `submitHttps`.
pub data Request : Type 0 where
  send_nothing : Request
  send_snapshot send_batch : List ℕ → Request

-- The records with commas between them.
unfoldable pub joined : List (List ℕ) → List ℕ
joined [] = []
joined (p ∷ []) = p
joined (p ∷ (r ∷ ps)) = p ++ (44 ∷ joined (r ∷ ps))

module _ {W R : Type 0} (fs : Fs W R) where
  -- `envelope` is the text around the records, from the random identifier of the batch on.
  unfoldable pub make_batch : List ℕ → List ℕ → LiveUpload → W → Option (List ℕ) × LiveUpload × W
  make_batch id opening u w =
      let (found, records, q, w₁) = peek_batch fs 8 (body_limit - 256) u.store_forward_queue w in
      let u₁ : LiveUpload = record u { store_forward_queue = q; batch_records = records } in
      let payload = opening ++ (joined records ++ (93 ∷ 125 ∷ [])) in
      if allow_batch u.singles_remaining
        && (u.batch_enabled && ltb 1 (pending_records u.store_forward_queue))
      then (if found && ltb 1 (length records)
          then (if leb (length payload) body_limit
              then (some payload, record u₁ { batch_id = id; batch_payload = payload }, w₁)
              else (
                none,
                record u₁ {
                  batch_id = id;
                  batch_payload = [];
                  batch_records = [];
                  last_error = "Batch exceeds bounded request size";
                },
                w₁,
              ))
          else (none, u₁, w₁))
      else (none, u, w)

  -- A single record: the oldest of the queue, or the volatile one.
  unfoldable pub make_snapshot : LiveUpload → W → Request × LiveUpload × W
  make_snapshot u w =
      let durable = ltb 0 (pending_records u.store_forward_queue) in
      let (payload, q, w₁) = peek fs u.store_forward_queue w in
      let u₁ : LiveUpload = record u { durable_in_flight = durable } in
      if durable
      then elim payload [
        | none ↦ (
          send_nothing,
          record u₁ { store_forward_queue = q; in_flight_payload = []; last_error = q.last_error },
          w₁,
        )
        | some p ↦
            (send_snapshot p, record u₁ { store_forward_queue = q; in_flight_payload = p }, w₁)
      ]
      else (
        send_snapshot u.volatile_payload,
        record u₁ { in_flight_payload = u.volatile_payload },
        w,
      )

  unfoldable pub next_request : List ℕ → List ℕ → LiveUpload → W → Request × LiveUpload × W
  next_request id opening u w =
      let (batch, u₁, w₁) = make_batch id opening u w in
      let single = make_snapshot u₁ w₁ in
      if not (is_empty u.batch_payload)
      then (send_batch u.batch_payload, u, w)
      else elim batch [ some payload ↦ (send_batch payload, u₁, w₁) | none ↦ single ]
