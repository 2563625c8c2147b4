-- ===== src/Upload/Tests.antt =====
-- Runs of the data path over files in memory.
use devices.Prelude.{ℕ, pos, ◌≡◌, ◌⊎◌, refl, true, false, Option, none, List, [], ◌∷◌, ◌++◌}
use devices.Https.Evidence.{fresh}
use devices.StoreForward.Ram.{ram, ram-IsFs}
use devices.StoreForward.Tests.{abc, one_pending, files, one_pending-IsQueue}
use devices.Upload.State.{LiveUpload}
use devices.Upload.Age.{epoch, epoch_of, digits, fields_valid, seconds_of}
use devices.Https.Recovery.{resolve_rejected, is_retained, Settled, rejected_is_not_lost}
use devices.Upload.Snapshot.{save_rejected, advance_rejected, complete_snapshot}
use devices.Upload.Kept.{Holding, Archived, Pending, callbacks-IsArchive, complete_snapshot_keeps}

abbrev no_timestamp : List ℕ → Option (List ℕ)
no_timestamp payload = none

abbrev in_flight : LiveUpload
in_flight = record {
  store_forward_queue = one_pending;
  singles_remaining = 0;
  backoff = false;
  durable_in_flight = true;
  in_flight_payload = abc;
  volatile_payload = [];
  batch_records = [];
  batch_id = [];
  batch_payload = [];
  batch_enabled = true;
  batch_acknowledged = false;
  batch_ack_index = 0;
  last_sequence = 1;
  upload_evidence = fresh;
  performance = record {
    captured = 1;
    accepted = 0;
    capture_rejected = 0;
    last_sample_epoch = 0;
    batch_requests = 0;
    batch_accepted = 0;
    batch_enabled = true;
  };
  last_error = "";
  rejection_archive_error = "";
}

complete_snapshot_keeps_example :
    let (_, u', w') = complete_snapshot ram no_timestamp false (pos 422) true 7 in_flight files in
    Holding ram ram-IsFs
      ([] ++ (abc ∷ []))
      abc
      ((false ≡ true) ⊎ (true ≡ true) × Archived ram ram-IsFs abc (pos 422) one_pending files w')
      u'.store_forward_queue
      w'
complete_snapshot_keeps_example =
    complete_snapshot_keeps ram ram-IsFs no_timestamp false (pos 422) true 7 in_flight files []
      (abc ∷ []) refl one_pending-IsQueue

rejected_is_not_lost_example :
    let (resolution, singles, v) =
      resolve_rejected
        (pos 422)
        true
        (save_rejected ram no_timestamp (pos 422) abc)
        (advance_rejected ram no_timestamp true abc)
        2
        (one_pending, files) in
    (is_retained resolution ≡ false)
    × Settled
        (Pending ram ram-IsFs (abc ∷ []))
        (λ u. Archived ram ram-IsFs abc (pos 422) one_pending files u.1)
        2
        (one_pending, files)
        resolution
        singles
        v
rejected_is_not_lost_example =
    rejected_is_not_lost (save_rejected ram no_timestamp (pos 422) abc)
      (advance_rejected ram no_timestamp true abc) (Pending ram ram-IsFs (abc ∷ []))
      (λ u. Archived ram ram-IsFs abc (pos 422) one_pending files u.1) (one_pending, files)
      (callbacks-IsArchive ram ram-IsFs no_timestamp abc (pos 422) true (abc ∷ []) one_pending
        files)
      (pos 422) true 2 ([], abc ∷ [], one_pending-IsQueue, refl)

-- "2024-03-01T00:00:00Z"
march :
    epoch (
      50 ∷ 48 ∷ 50 ∷ 52 ∷ 45 ∷ 48 ∷ 51 ∷ 45 ∷ 48 ∷ 49 ∷ 84 ∷ 48 ∷ 48 ∷ 58 ∷ 48 ∷ 48 ∷ 58 ∷ 48 ∷ 48
      ∷ 90 ∷ [])
    ≡ 1709251200
unfolding epoch epoch_of digits fields_valid seconds_of
march = refl
