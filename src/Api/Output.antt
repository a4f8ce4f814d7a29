-- ===== src/Api/Output.antt =====
-- What the output serializers of api/serializers.py answer for a row.
use ssh_panel_vpn.Common.{ℕ, Bool, Option, none, some}
use ssh_panel_vpn.Common.Text.{Text}
use ssh_panel_vpn.Models.{
  Integer, Account, AccountStatus, ActiveSession, Db, Float, Plan, Protocol, Server, ServerStatus,
}
use ssh_panel_vpn.Models.Queries.{
  find_account, find_plan, find_server, current_user_count, is_available,
}
use ssh_panel_vpn.Models.Time.{days_remaining, is_expired}

-- A field of a row that may be missing: `source="plan.name", default=None`.
abbrev pub through {ℓ κ} : {A : Type ℓ} {B : Type κ} → Option A → (A → B) → Option B
through none f = none
through (some a) f = some (f a)

abbrev pub plan_of : Db → Account → Option Plan
plan_of db a = elim a.plan [ none ↦ none | some i ↦ find_plan i db.plans ]

abbrev pub node_of : Db → Account → Option Server
node_of db a = find_server a.server db.servers

-- `SSHAccountSerializer`
pub record AccountData : Type 0 where
  pub id : ℕ
  pub username : Text
  pub password_display : Text
  pub server : ℕ
  pub server_name : Option Text
  pub server_ip : Option Text
  pub server_ssh_port : Option ℕ
  pub plan : Option ℕ
  pub plan_name : Option Text
  pub protocol_type : Protocol
  pub status : AccountStatus
  pub expire_date : ℕ
  pub max_connections : ℕ
  pub bandwidth_limit_gb : ℕ
  pub bandwidth_used_gb : Float
  pub days_remaining : ℕ
  pub is_expired : Bool
  pub access_token : ℕ
  pub auth_token : ℕ
  pub note : Text
  pub created_at : ℕ

unfoldable pub serialize_account : Db → ℕ → Account → AccountData
unfolding find_server find_plan days_remaining is_expired
serialize_account db now a = record {
  id = a.id;
  username = a.username;
  password_display = a.password_display;
  server = a.server;
  server_name = through (node_of db a) (λ s. s.name);
  server_ip = through (node_of db a) (λ s. s.ip_address);
  server_ssh_port = through (node_of db a) (λ s. s.ssh_port);
  plan = a.plan;
  plan_name = through (plan_of db a) (λ p. p.name);
  protocol_type = a.protocol_type;
  status = a.status;
  expire_date = a.expire_date;
  max_connections = a.max_connections;
  bandwidth_limit_gb = a.bandwidth_limit_gb;
  bandwidth_used_gb = a.bandwidth_used_gb;
  days_remaining = days_remaining now a.expire_date;
  is_expired = is_expired now a.expire_date;
  access_token = a.access_token;
  auth_token = a.auth_token;
  note = a.note;
  created_at = a.created_at;
}

-- `PublicAccountStatusSerializer`
pub record PublicStatus : Type 0 where
  pub username : Text
  pub server_ip : Option Text
  pub server_ssh_port : Option ℕ
  pub server_location : Option Text
  pub plan_name : Option Text
  pub status : AccountStatus
  pub expire_date : ℕ
  pub max_connections : ℕ
  pub bandwidth_limit_gb : ℕ
  pub bandwidth_used_gb : Float
  pub days_remaining : ℕ
  pub is_expired : Bool
  pub created_at : ℕ

unfoldable pub serialize_public : Db → ℕ → Account → PublicStatus
unfolding find_server find_plan days_remaining is_expired
serialize_public db now a = record {
  username = a.username;
  server_ip = through (node_of db a) (λ s. s.ip_address);
  server_ssh_port = through (node_of db a) (λ s. s.ssh_port);
  server_location = through (node_of db a) (λ s. s.location);
  plan_name = through (plan_of db a) (λ p. p.name);
  status = a.status;
  expire_date = a.expire_date;
  max_connections = a.max_connections;
  bandwidth_limit_gb = a.bandwidth_limit_gb;
  bandwidth_used_gb = a.bandwidth_used_gb;
  days_remaining = days_remaining now a.expire_date;
  is_expired = is_expired now a.expire_date;
  created_at = a.created_at;
}

-- `ShadowLinkAccountSerializer`
pub record ShadowLinkAccountData : Type 0 where
  pub id : ℕ
  pub username : Text
  pub server : ℕ
  pub server_name : Option Text
  pub server_ip : Option Text
  pub server_domain : Option Text
  pub plan : Option ℕ
  pub plan_name : Option Text
  pub protocol_type : Protocol
  pub status : AccountStatus
  pub expire_date : ℕ
  pub max_connections : ℕ
  pub bandwidth_limit_gb : ℕ
  pub bandwidth_used_gb : Float
  pub days_remaining : ℕ
  pub auth_token : ℕ
  pub access_token : ℕ
  pub note : Text
  pub created_at : ℕ

unfoldable pub serialize_shadowlink : Db → ℕ → Account → ShadowLinkAccountData
unfolding find_server find_plan days_remaining
serialize_shadowlink db now a = record {
  id = a.id;
  username = a.username;
  server = a.server;
  server_name = through (node_of db a) (λ s. s.name);
  server_ip = through (node_of db a) (λ s. s.ip_address);
  server_domain = through (node_of db a) (λ s. s.shadowlink_domain);
  plan = a.plan;
  plan_name = through (plan_of db a) (λ p. p.name);
  protocol_type = a.protocol_type;
  status = a.status;
  expire_date = a.expire_date;
  max_connections = a.max_connections;
  bandwidth_limit_gb = a.bandwidth_limit_gb;
  bandwidth_used_gb = a.bandwidth_used_gb;
  days_remaining = days_remaining now a.expire_date;
  auth_token = a.auth_token;
  access_token = a.access_token;
  note = a.note;
  created_at = a.created_at;
}

-- `ServerSerializer`
pub record ServerData : Type 0 where
  pub id : ℕ
  pub name : Text
  pub ip_address : Text
  pub ssh_port : ℕ
  pub protocol_type : Protocol
  pub status : ServerStatus
  pub location : Text
  pub max_users : ℕ
  pub current_user_count : ℕ
  pub is_available : Bool
  pub shadowlink_port : ℕ
  pub shadowlink_ws_path : Text
  pub shadowlink_domain : Text
  pub cpu_usage : Float
  pub ram_usage : Float
  pub disk_usage : Float
  pub uptime_seconds : Integer
  pub last_health_check : Option ℕ
  pub created_at : ℕ

unfoldable pub serialize_server : Db → Server → ServerData
unfolding current_user_count is_available
serialize_server db s = record {
  id = s.id;
  name = s.name;
  ip_address = s.ip_address;
  ssh_port = s.ssh_port;
  protocol_type = s.protocol_type;
  status = s.status;
  location = s.location;
  max_users = s.max_users;
  current_user_count = current_user_count db s;
  is_available = is_available db s;
  shadowlink_port = s.shadowlink_port;
  shadowlink_ws_path = s.shadowlink_ws_path;
  shadowlink_domain = s.shadowlink_domain;
  cpu_usage = s.cpu_usage;
  ram_usage = s.ram_usage;
  disk_usage = s.disk_usage;
  uptime_seconds = s.uptime_seconds;
  last_health_check = s.last_health_check;
  created_at = s.created_at;
}

-- `ActiveSessionSerializer`, without the row's id
pub record SessionData : Type 0 where
  pub username : Option Text
  pub server_ip : Option Text
  pub pid : ℕ
  pub client_ip : Option Text
  pub connected_since : ℕ

abbrev server_ip_of : Db → Option Account → Option Text
server_ip_of db none = none
server_ip_of db (some a) = through (node_of db a) (λ s. s.ip_address)

unfoldable pub serialize_session : Db → ActiveSession → SessionData
unfolding find_account find_server
serialize_session db s = record {
  username = through (find_account s.account db.accounts) (λ a. a.username);
  server_ip = server_ip_of db (find_account s.account db.accounts);
  pid = s.pid;
  client_ip = s.client_ip;
  connected_since = s.connected_since;
}
