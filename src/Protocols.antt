-- ===== src/Protocols.antt =====
-- shared/protocols: the frames that a logger sends to a dash.
pub mod UploadStatus
pub mod EventQueue
pub mod EventOrder
pub mod EventFrames
pub mod EventParts
pub mod EventReceiver
mod Tests
