-- ===== src/Setup/Rows.antt =====
-- The rows that both write: a server, a plan, and the default account of a server.
use ssh_panel_vpn.Common.{
  ℕ, Bool, true, ◌&&◌, ◌||◌, not, Option, none, some, List, [], ◌∷◌, length, exists, leb, select,
  ◌==◌, if◌then◌else◌,
}
use ssh_panel_vpn.Common.Text.{Text, codes, text_eq}
use ssh_panel_vpn.Models.{Account, AccountStatus, pos, Plan, Protocol, Server, ServerStatus}
use ssh_panel_vpn.Effects.{
  Env, Act, pure, raise, gets, ◌>>=◌, ◌>>◌, get_db, modify, read_now, new_id, new_uuid,
  integrity_error, data_error,
}
use ssh_panel_vpn.Database.{create_account_row, change_server, int_max}

-- The column sizes of `Server` that the commands fill.
unfoldable pub server_fits : Server → Bool
server_fits s =
    leb (length s.name) 100
    && leb (length s.ssh_user) 64
    && leb (length s.ssh_key_path) 500
    && leb (length s.location) 120
    && leb s.ssh_port int_max
    && leb s.max_users int_max

-- Another row with the name or the address of `s`.
unfoldable pub server_clashes : Server → Server → Bool
server_clashes s row =
    not (row.id == s.id) && (text_eq row.name s.name || text_eq row.ip_address s.ip_address)

-- What a new row of `Server` takes from its caller.
pub record NewServer : Type 0 where
  pub name : Text
  pub ip_address : Text
  pub ssh_port : ℕ
  pub ssh_user : Text
  pub ssh_key_path : Text
  pub location : Text
  pub max_users : ℕ

-- The row, the other columns by their defaults; protocol `ssh` and status ACTIVE.
unfoldable pub server_row : Env → NewServer → ℕ → ℕ → ℕ → Server
server_row env args id created_at updated_at = record {
  id = id;
  name = args.name;
  ip_address = args.ip_address;
  ssh_port = args.ssh_port;
  ssh_user = args.ssh_user;
  ssh_key_path = args.ssh_key_path;
  protocol_type = Protocol.ssh;
  status = ServerStatus.active;
  location = args.location;
  max_users = args.max_users;
  shadowlink_port = 8443;
  shadowlink_ws_path = codes "/ws";
  shadowlink_domain = [];
  shadowlink_bridge_port = 9090;
  shadowlink_api_key = [];
  cpu_usage = env.of_ℕ 0;
  ram_usage = env.of_ℕ 0;
  disk_usage = env.of_ℕ 0;
  uptime_seconds = pos 0;
  last_health_check = none;
  created_at = created_at;
  updated_at = updated_at;
}

-- The checks of the database on a row that is written whole.
unfoldable pub accept_server : Server → Act (Unit {0})
unfolding server_fits server_clashes
accept_server s = do
  db ← get_db
  if not (server_fits s)
      then raise data_error
      else if exists (server_clashes s) db.servers
      then raise integrity_error
      else pure tt

-- `Server.objects.create(...)`
unfoldable pub insert_server_row : NewServer → Act Server
unfolding server_row
insert_server_row args = do
  id ← new_id
  created_at ← read_now
  updated_at ← read_now
  s ← gets (λ env w. server_row env args id created_at updated_at)
  accept_server s
  modify (λ d. record d { servers = s ∷ d.servers })
  pure s

-- `server.save()`: every column of the object.
unfoldable pub save_server_whole : Server → Act Server
save_server_whole s = do
  now ← read_now
  let saved = record s { updated_at = now }
  accept_server saved
  modify (λ d. record d { servers = change_server s.id (λ _. saved) d.servers })
  pure saved

-- The first of the active plans by duration, `.filter(is_active=True).order_by(...).first()`
abbrev is_offered : Plan → Bool
is_offered p = p.is_active

abbrev first_of : List Plan → Option Plan
first_of [] = none
first_of (p ∷ l) = some p

unfoldable pub shortest_plan : Act (Option Plan)
shortest_plan = gets (λ env w. first_of (env.order_by_duration (select is_offered w.db.plans)))

-- `Plan.objects.create(...)` with the price in hundredths; `name` is unique.
unfoldable pub insert_plan : Text → ℕ → ℕ → ℕ → ℕ → Act Plan
insert_plan name duration_days price max_connections bandwidth_limit_gb = do
  id ← new_id
  now ← read_now
  db ← get_db
  let p : Plan = record {
    id = id;
    name = name;
    duration_days = duration_days;
    price = price;
    currency = codes "USD";
    max_connections = max_connections;
    bandwidth_limit_gb = bandwidth_limit_gb;
    is_active = true;
    description = [];
    created_at = now;
  }
  if not
        (leb duration_days int_max && leb max_connections int_max && leb bandwidth_limit_gb int_max)
      then raise data_error
      else if exists (λ (q : Plan). text_eq q.name name) db.plans
      then raise integrity_error
      else (do modify (λ d. record d { plans = p ∷ d.plans }); pure p)

-- What the default account of a server is made from.
pub record DefaultAccount : Type 0 where
  pub username : Text
  pub password : Text
  pub expire_date : ℕ
  pub max_connections : ℕ
  pub bandwidth_limit_gb : ℕ
  pub note : Text

unfoldable pub default_row : DefaultAccount → ℕ → ℕ → ℕ → ℕ → ℕ → ℕ → ℕ → Account
default_row args server plan id access_token auth_token created_at updated_at = record {
  id = id;
  username = args.username;
  password_display = args.password;
  server = server;
  plan = some plan;
  protocol_type = Protocol.ssh;
  status = AccountStatus.active;
  expire_date = args.expire_date;
  max_connections = args.max_connections;
  bandwidth_limit_gb = args.bandwidth_limit_gb;
  bandwidth_used_gb = 0;
  access_token = access_token;
  auth_token = auth_token;
  created_by = none;
  note = args.note;
  created_at = created_at;
  updated_at = updated_at;
}

-- `SSHAccount.objects.create(...)`
unfoldable pub insert_default_account : DefaultAccount → Server → Plan → Act Account
unfolding default_row
insert_default_account args server plan = do
  id ← new_id
  access_token ← new_uuid
  auth_token ← new_uuid
  created_at ← read_now
  updated_at ← read_now
  create_account_row
      (default_row args server.id plan.id id access_token auth_token created_at updated_at)
