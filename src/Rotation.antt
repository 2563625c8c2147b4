-- ===== src/Rotation.antt =====
-- logger/firmware/src/AppBearerRotation.cpp: how a logger takes a new upload credential. The record
-- in non-volatile storage and the copy in memory are apart, and any write may be the last one before
-- the power goes.
pub mod Preferences
pub mod Bearer
pub mod Chains
pub mod Durable
pub mod Boot
pub mod Promotion
mod Tests
