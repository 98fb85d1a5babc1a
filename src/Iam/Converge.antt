-- ===== src/Iam/Converge.antt =====
-- `Observe` after `Create`, `Update` and `Delete`, for each IAM kind, and what is asked of the remote
-- service for it.
pub mod Organization
pub mod Group
pub mod Role
pub mod Proposition
pub mod Application
pub mod Service
pub mod EmailTemplate
pub mod User
pub mod Client
pub mod PasswordPolicy
