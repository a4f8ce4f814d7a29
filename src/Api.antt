-- ===== src/Api.antt =====
-- api/views.py and api/serializers.py: the endpoints that change state or guard data.
pub mod Serializers
pub mod Request
pub mod Accounts
pub mod Update
pub mod Payment
pub mod Servers
pub mod Public
pub mod Dashboard
pub mod Nodes
pub mod Output
pub mod Lists
pub mod Auth
pub mod Routes
