-- ===== src/Tests.antt =====
-- Runs of the definitions, and the theorems at concrete data.
pub mod Fake
pub mod Organization
pub mod Group
pub mod Role
pub mod Proposition
pub mod Application
pub mod Service
pub mod EmailTemplate
pub mod User
pub mod PasswordPolicy
pub mod Client
pub mod Texts
pub mod Clients
pub mod Observe
pub mod MdmApplication
pub mod MdmProposition
pub mod MdmDeviceGroup
pub mod MdmDeviceType
pub mod MdmStandardService
pub mod MdmAuthenticationMethod
pub mod OrgConfiguration
pub mod Setup
pub mod Connections
pub mod Runs
pub mod Provider
pub mod References
