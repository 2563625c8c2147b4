-- ===== src/Provisioning.antt =====
-- logger/firmware/include/ProvisioningPolicy.h and logger/firmware/src/ProvisioningPolicy.cpp: which
-- settings a logger may be provisioned with. A string is its bytes.
pub mod Policy
pub mod Acceptance
pub mod Owner
pub mod Device
pub mod Change
pub mod Settings
pub mod Whole
pub mod Owned
mod Tests
mod OwnerTests
