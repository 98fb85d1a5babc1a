-- ===== src/Provisioning.antt =====
-- The controller of the provisioning resources, `internal/controller/provisioning/`.
pub mod Remote
pub mod OrgConfiguration
pub mod Converge
pub mod Runs
