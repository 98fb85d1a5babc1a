-- ===== src/Provisioning/Converge.antt =====
-- `Observe` after `Create`, `Update` and `Delete` of an organization configuration.
pub mod OrgConfiguration
