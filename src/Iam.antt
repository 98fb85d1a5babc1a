-- ===== src/Iam.antt =====
-- The IAM controllers, `internal/controller/{organization,group,role,…}`, one module for each.
pub mod Remote
pub mod Organization
pub mod Group
pub mod Role
pub mod Proposition
pub mod Application
pub mod Client
pub mod Service
pub mod User
pub mod EmailTemplate
pub mod PasswordPolicy
pub mod Converge
pub mod Runs
