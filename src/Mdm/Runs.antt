-- ===== src/Mdm/Runs.antt =====
-- Sequences of calls, for each MDM kind.
pub mod Application
pub mod Proposition
pub mod DeviceGroup
pub mod DeviceType
pub mod StandardService
pub mod AuthenticationMethod
