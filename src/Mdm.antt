-- ===== src/Mdm.antt =====
-- The controllers of the MDM resources, `internal/controller/mdm/`.
pub mod Remote
pub mod Application
pub mod Proposition
pub mod DeviceGroup
pub mod DeviceType
pub mod AuthenticationMethod
pub mod StandardService
pub mod Converge
pub mod Runs
