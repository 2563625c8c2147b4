-- ===== src/Authorization.antt =====
-- logger/firmware/include/DeviceAuthorizationPolicy.h: the checks on what a device authorization
-- server sends, and the pace of its polls.
pub mod Policy
pub mod Pace
mod Tests
