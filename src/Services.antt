-- ===== src/Services.antt =====
-- accounts/services.py: the account life cycle.
pub mod Server
pub mod Create
pub mod Lifecycle
pub mod Frame
