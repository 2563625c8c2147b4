-- ===== src/Upload/State.antt =====
-- The members of `LiveUpload` (logger/firmware/include/LiveUpload.h) that the data path over HTTPS
-- reads and writes, and the counters of logger/firmware/include/Types.h.
use Prim.Native.String.{String}
use devices.Prelude.{ℕ, Bool, List, []}
use devices.Https.Evidence.{Tracker}
use devices.StoreForward.Types.{Queue}

pub record UploadPerformance : Type 0 where
  pub captured : ℕ
  pub accepted : ℕ
  pub capture_rejected : ℕ
  pub last_sample_epoch : ℕ
  pub batch_requests : ℕ
  pub batch_accepted : ℕ
  pub batch_enabled : Bool

pub record LiveUpload : Type 0 where
  pub store_forward_queue : Queue
  pub singles_remaining : ℕ
  pub backoff : Bool
  pub durable_in_flight : Bool
  pub in_flight_payload : List ℕ
  pub volatile_payload : List ℕ
  pub batch_records : List (List ℕ)
  pub batch_id : List ℕ
  pub batch_payload : List ℕ
  pub batch_enabled : Bool
  pub batch_acknowledged : Bool
  pub batch_ack_index : ℕ
  pub last_sequence : ℕ
  pub upload_evidence : Tracker
  pub performance : UploadPerformance
  pub last_error : String
  pub rejection_archive_error : String

-- `batchRecords_.clear();batchPayload_="";batchId_="";`
abbrev pub clear_batch : LiveUpload → LiveUpload
clear_batch u = record u { batch_records = []; batch_payload = []; batch_id = [] }
