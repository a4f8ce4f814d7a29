-- ===== src/Setup.antt =====
-- servers/management/commands/setup_server.py, and the default user that `ServerListView` of
-- api/views.py makes on a new server.
pub mod Rows
pub mod DefaultUser
pub mod Command
