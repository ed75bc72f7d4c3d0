-- ===== src/Tenants.antt =====
-- app/services/applications.py: the applications, and what an application owns besides its domains.
pub mod Credentials
pub mod CredentialLaws
pub mod KeyRotation
pub mod Origins
pub mod OriginLaws
pub mod OriginSteps
pub mod Applications
pub mod DeletionLaws
pub mod ApplicationLaws
pub mod SlugLaws
