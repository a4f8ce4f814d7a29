-- ===== src/Models.antt =====
-- The tables of accounts/models.py, servers/models.py and plans/models.py, a record for each model,
-- and the database that holds them.
-- A date is the number of microseconds since 1970 in UTC. A float is its 64-bit pattern, which only
-- the operations of `Effects.Env` read. A foreign key is the id of the row that it names.
pub mod Time
pub mod Queries
use ssh_panel_vpn.Common.{ℕ, Bool, Option, List}
use ssh_panel_vpn.Common.Text.{Text}

abbrev pub Float : Type 0
Float = ℕ

-- Python's `int`; `neg 0` is 0 too.
pub data Integer : Type 0 where
  pos : ℕ → Integer
  neg : ℕ → Integer

pub data Protocol : Type 0 where
  ssh shadowlink : Protocol

pub data AccountStatus : Type 0 where
  active suspended expired deleted : AccountStatus

pub data ServerStatus : Type 0 where
  active maintenance full down : ServerStatus

pub data Action : Type 0 where
  create delete suspend activate extend expire password_reset rebalance : Action

pub record Server : Type 0 where
  pub id : ℕ
  pub name : Text
  pub ip_address : Text
  pub ssh_port : ℕ
  pub ssh_user : Text
  pub ssh_key_path : Text
  pub protocol_type : Protocol
  pub status : ServerStatus
  pub location : Text
  pub max_users : ℕ
  pub shadowlink_port : ℕ
  pub shadowlink_ws_path : Text
  pub shadowlink_domain : Text
  pub shadowlink_bridge_port : ℕ
  pub shadowlink_api_key : Text
  pub cpu_usage : Float
  pub ram_usage : Float
  pub disk_usage : Float
  pub uptime_seconds : Integer
  pub last_health_check : Option ℕ
  pub created_at : ℕ
  pub updated_at : ℕ

-- `price` is in hundredths (two decimal places).
pub record Plan : Type 0 where
  pub id : ℕ
  pub name : Text
  pub duration_days : ℕ
  pub price : ℕ
  pub currency : Text
  pub max_connections : ℕ
  pub bandwidth_limit_gb : ℕ
  pub is_active : Bool
  pub description : Text
  pub created_at : ℕ

pub record Account : Type 0 where
  pub id : ℕ
  pub username : Text
  pub password_display : Text
  pub server : ℕ
  pub plan : Option ℕ
  pub protocol_type : Protocol
  pub status : AccountStatus
  pub expire_date : ℕ
  pub max_connections : ℕ
  pub bandwidth_limit_gb : ℕ
  pub bandwidth_used_gb : Float
  pub access_token : ℕ
  pub auth_token : ℕ
  pub created_by : Option ℕ
  pub note : Text
  pub created_at : ℕ
  pub updated_at : ℕ

pub record ActiveSession : Type 0 where
  pub account : ℕ
  pub pid : ℕ
  pub client_ip : Option Text
  pub connected_since : ℕ

pub record AuditLog : Type 0 where
  pub action : Action
  pub account : Option ℕ
  pub admin_user : Option ℕ
  pub detail : Text
  pub created_at : ℕ

-- A table is the list of its rows, the last created first.
pub record Db : Type 0 where
  pub accounts : List Account
  pub servers : List Server
  pub plans : List Plan
  pub sessions : List ActiveSession
  pub logs : List AuditLog
