-- ===== src/Provisioning/Runs.antt =====
-- Sequences of calls of an organization configuration.
pub mod OrgConfiguration
