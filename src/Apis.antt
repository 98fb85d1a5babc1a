-- ===== src/Apis.antt =====
-- The custom resources of the provider, `apis/`.
pub mod Iam
pub mod Object
pub mod Kinds
pub mod Mdm
pub mod MdmKinds
pub mod Provisioning
pub mod ProvisioningKinds
pub mod References
