-- ===== src/Https.antt =====
-- The parts of logger/firmware that share the one TLS session: the exchange of buffers between the
-- main loop and the HTTP worker, who may use it next, how fast, and what an answer means for the
-- queued records.
pub mod Exchange
pub mod Recovery
pub mod Arbiter
pub mod Worker
pub mod Sessions
pub mod Ownership
pub mod Evidence
mod Tests
