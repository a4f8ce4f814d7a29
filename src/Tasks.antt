-- ===== src/Tasks.antt =====
-- accounts/tasks.py: the Celery tasks on accounts.
pub mod Expiry
pub mod Bandwidth
pub mod Sessions
pub mod Frame
