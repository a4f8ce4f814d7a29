-- ===== src/Ssh.antt =====
-- servers/ssh.py: the connection, shell quoting, and the commands that the panel runs on a node.
pub mod Connection
pub mod Quote
pub mod Users
pub mod Limits
pub mod Traffic
pub mod Sessions
pub mod Health
pub mod Kept
pub mod Bracket
pub mod Tables
pub mod Up
