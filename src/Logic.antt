-- ===== src/Logic.antt =====
-- logger/firmware/src/Logic.cpp: the names and codes that the logger makes of texts, and the tests on
-- numbers. A string is its bytes, in the C locale. The scaling of readings is floating point.
pub mod Texts
pub mod Names
mod Tests
