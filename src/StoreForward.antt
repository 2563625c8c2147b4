-- ===== src/StoreForward.antt =====
-- logger/firmware/src/StoreForwardQueue.cpp and its header, in the ESP32 build: the onboard upload
-- queue in two append-only segment files with committed replay heads.
pub mod Fs
pub mod Format
pub mod Types
pub mod Metadata
pub mod Segments
pub mod Queue
pub mod Reading
pub mod Contents
pub mod Peek
pub mod Saving
pub mod Append
pub mod Rotate
pub mod Enqueue
pub mod Held
pub mod Commit
pub mod Pop
pub mod Acknowledge
pub mod Ram
pub mod Scan
mod Scanned
mod Walked
mod Complete
mod Repaired
mod Mended
mod Recovered
mod Found
pub mod Recovery
mod Rescan
pub mod Archive
pub mod Archived
pub mod Preserved
mod Blank
pub mod Begin
mod Started
pub mod Mounted
pub mod Batch
mod Batched
pub mod Batches
pub mod Tests
mod BootTests
