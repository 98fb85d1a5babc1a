-- ===== src/Iam/Runs.antt =====
-- Sequences of calls, for each IAM kind.
pub mod Organization
pub mod Group
pub mod Service
pub mod PasswordPolicy
pub mod Client
pub mod Role
pub mod Proposition
pub mod Application
pub mod User
pub mod EmailTemplate
