-- ===== src/Diagnostics.antt =====
-- `StatusDiagnostics` of logger/firmware/include/StatusDiagnostics.h and
-- logger/firmware/src/StatusDiagnostics.cpp: what a logger reports of its own condition.
pub mod Status
pub mod Observations
mod Tests
