-- ===== src/Connect.antt =====
-- app/services/connect_sessions.py: links to the setup page of one domain.
pub mod Sessions
pub mod SessionLaws
