-- ===== src/Upload.antt =====
-- The data path of `LiveUpload` over HTTPS (logger/firmware/src/LiveUploadAsync.cpp): capture of a
-- snapshot into the queue, sending the oldest records, and what an answer does to the queue.
pub mod Age
pub mod Replies
pub mod State
pub mod Snapshot
pub mod Batch
pub mod Sending
pub mod Untouched
pub mod Kept
mod Tests
