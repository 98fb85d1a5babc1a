-- ===== src/Mdm/Converge.antt =====
-- `Observe` after `Create`, `Update` and `Delete`, for each MDM kind.
pub mod Application
pub mod Proposition
pub mod DeviceGroup
pub mod DeviceType
pub mod AuthenticationMethod
pub mod StandardService
