-- ===== src/ServerTasks.antt =====
-- servers/tasks.py: health checks and rebalancing.
pub mod Health
pub mod Rebalance
pub mod Returns
pub mod Frame
