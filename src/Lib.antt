-- ===== src/Lib.antt =====
-- Devices: the firmware of a data logger and of the dash that shows its readings
-- (logger/firmware, dash/firmware, shared).
--
-- A logger samples sensors, keeps each snapshot in an onboard queue, and uploads the queue's records
-- over HTTPS with a credential that the server may rotate. An owner can reset it, a signed update
-- can replace its image, and it reports its state to the dash in small frames. Here stand the parts
-- whose loss of power, torn writes or interleavings must not lose data or let a credential live.
--
--   * Prelude: lists, words of the machine and signed integers over the native numbers.
--   * StoreForward: `StoreForwardQueue` (logger/firmware/src/StoreForwardQueue.cpp). Fs is the
--     filesystem as a record of operations with their laws, Format the bytes of records and metadata,
--     Types the object's members, Metadata, Segments, Queue, Batch, Scan and Begin its methods; Archive
--     is logger/firmware/src/RejectedUploads.cpp, Blank logger/firmware/include/BlankPartition.h. The
--     rest relates the object to the list of payloads that the two segments hold. Ram is a filesystem
--     in memory.
--   * Upload: the data path of `LiveUpload` over HTTPS (logger/firmware/src/LiveUploadAsync.cpp):
--     State its members, Snapshot the capture and the answer to a snapshot, Batch the answer to a
--     batch and its acknowledgement in turns, Sending what is sent next; Age and Replies are
--     logger/firmware/include/QueueAge.h, UploadAcknowledgement.h and BatchAcknowledgement.h. It works
--     on the queue and the archive of StoreForward; the JSON reader is a parameter.
--   * Rotation: `AppBearerRotation` (logger/firmware/src/AppBearerRotation.cpp). Preferences is the
--     key-value store, Bearer the class; a power cut is a write from which on all writes fail.
--   * OwnerReset: `OwnerReset::Coordinator` (shared/libraries/OwnerReset.h) over a store and a list of
--     clear callbacks, and in Nvs the store of shared/libraries/OwnerResetNvs.h.
--   * Ota: `SignedOta` (Writer) and `OtaBootHealth` (BootHealth) of
--     logger/firmware/src/SignedOta.cpp, over the backend's virtual functions as a record.
--   * Https: `HttpsExchange`, `HttpsArbiter`, `HttpsWorker`, `UploadRecovery`, `UploadEvidence` and
--     `HttpsPacing` (logger/firmware/include). The two tasks' steps are a list in any order; what the
--     HTTP client answers is an argument. A buffer of the exchange is memory, with what earlier contents
--     leave in it.
--   * Protocols: `DashUploadStatus` (shared/protocols/DashUploadStatus.h), and the ring, the frames
--     and the receiver of shared/protocols/SystemEvents.h.
--   * Provisioning: logger/firmware/src/ProvisioningPolicy.cpp (Policy), with strings as their bytes,
--     and logger/firmware/src/DeviceProvisioning.cpp: Owner the key-value store, Device the start,
--     Change the serial command and the factory reset, Settings a new owner's record key by key.
--   * Diagnostics: logger/firmware/src/StatusDiagnostics.cpp; its JSON text is left out.
--   * Authorization: logger/firmware/include/DeviceAuthorizationPolicy.h.
--   * Logic: names, topics and codes of logger/firmware/src/Logic.cpp, with strings as their bytes.
--   * Timekeeper: logger/firmware/src/Timekeeper.cpp over the bus, the clock driver and the C library
--     as a record (Clock), and the codes of its registers (Registers).
--
-- An operation of a C++ object is a function from its members and a world to its result, its members
-- and the world after it. Calls outside the repository (filesystem, non-volatile storage, HTTP
-- client, boot partitions) are fields of records over an arbitrary world, and what the theorems rely
-- on is stated as laws next to them; each has an instance in the tests. Numbers are native; a 32-bit
-- counter is reduced by 2^32 where the source adds, and a difference of clock readings is taken in
-- 32 bits. The loop that reads a payload in pieces takes the payload's length as fuel, since each
-- piece that is not empty shortens what is left; an empty piece ends it. The recovery scan takes the
-- file's size, since each record it passes moves the offset by at least twelve; the copying loops take
-- the number of bytes to copy, and the test of a blank partition its size.
--
-- Not modelled: drawing, web pages, Bluetooth callbacks, floating-point scaling, the contents of log
-- texts, and the status and management requests of the uploads. Of the HTTP worker, the reuse of a
-- TLS session is not modelled.
pub mod Prelude
pub mod StoreForward
pub mod Upload
pub mod Rotation
pub mod OwnerReset
pub mod Ota
pub mod Https
pub mod Protocols
pub mod Provisioning
pub mod Logic
pub mod Timekeeper
pub mod Diagnostics
pub mod Authorization
